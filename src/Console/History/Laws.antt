-- ===== src/Console/History/Laws.antt =====
-- What the history holds after a command, and what the arrow keys show.
use bitcoin_lisp.Prelude.{
  ℕ, ◌≤◌, List, [], ◌∷◌, ◌++◌, sym, subst, Bool, true, false, ltb, Text, text_eq, text_eq_iff,
  some_of, ◌||◌, length, ◌≡◌, refl, arith, inl, inr, Bool-cases, not, ◌&&◌,
}
use bitcoin_lisp.Console.History.{History, remove_first, shift_to, push}

-- No line stands twice.
unfoldable pub distinct : List Text → Bool
distinct [] = true
distinct (x ∷ xs) = not (some_of (text_eq x) xs) && distinct xs

pub record IsValid (limit : ℕ) (h : History) : Type 0 where
  pub once : distinct h.items ≡ true
  pub short : length h.items ≤ limit
  pub in_range : h.ptr ≤ length h.items

text_eq_comm : (a b : Text) → text_eq a b ≡ text_eq b a
text_eq_comm [] [] = refl
text_eq_comm [] (y ∷ b) = refl
text_eq_comm (x ∷ a) [] = refl
text_eq_comm (x ∷ a) (y ∷ b) = ground (arith, text_eq_comm a b)

some_of-remove_first :
    (x cmd : Text) (xs : List Text)
    → some_of (text_eq x) xs ≡ false
    → some_of (text_eq x) (remove_first cmd xs) ≡ false
unfolding remove_first
some_of-remove_first x cmd [] none_there = refl
some_of-remove_first x cmd (y ∷ ys) none_there =
    let rest : some_of (text_eq x) (remove_first cmd ys) ≡ false =
      some_of-remove_first x cmd ys (ground arith) in
    elim (Bool-cases (text_eq cmd y)) [ inl t ↦ rw t (ground arith) | inr f ↦ rw f (ground arith) ]

some_of-append :
    (x : Text) (xs ys : List Text)
    → some_of (text_eq x) (xs ++ ys) ≡ (some_of (text_eq x) xs || some_of (text_eq x) ys)
some_of-append x [] ys = refl
some_of-append x (z ∷ xs) ys = ground (arith, some_of-append x xs ys)

distinct-append :
    (cmd : Text) (xs : List Text)
    → distinct xs ≡ true
    → some_of (text_eq cmd) xs ≡ false
    → distinct (xs ++ cmd ∷ []) ≡ true
unfolding distinct
distinct-append cmd [] once new = refl
distinct-append cmd (x ∷ xs) once new =
    let rest : distinct (xs ++ cmd ∷ []) ≡ true =
      distinct-append cmd xs (ground arith) (ground arith) in
    ground (arith, some_of-append x xs (cmd ∷ []), text_eq_comm x cmd)

-- Nothing equals the removed line any more, in a list without repetitions.
distinct-remove_first :
    (cmd : Text) (xs : List Text)
    → distinct xs ≡ true
    → distinct (remove_first cmd xs ++ cmd ∷ []) ≡ true
unfolding distinct remove_first
distinct-remove_first cmd [] once = refl
distinct-remove_first cmd (y ∷ ys) once =
    let rest : distinct (remove_first cmd ys ++ cmd ∷ []) ≡ true =
      distinct-remove_first cmd ys (ground arith) in
    let absent : some_of (text_eq y) (remove_first cmd ys) ≡ false =
      some_of-remove_first y cmd ys (ground arith) in
    elim (Bool-cases (text_eq cmd y)) [
      | inl t ↦ rw t (
          distinct-append cmd ys (ground arith) (
            subst (λ z. some_of (text_eq z) ys ≡ false) (sym ((text_eq_iff cmd y).0 t))
              (ground arith)))
      | inr f ↦
          rw f
            (ground (arith, some_of-append y (remove_first cmd ys) (cmd ∷ []), text_eq_comm y cmd))
    ]

distinct-shift_to :
    (limit : ℕ) (xs : List Text) → distinct xs ≡ true → distinct (shift_to limit xs) ≡ true
unfolding distinct shift_to
distinct-shift_to limit [] once = refl
distinct-shift_to limit (x ∷ xs) once = elim (Bool-cases (ltb limit (length (x ∷ xs)))) [
  | inl t ↦ rw t (distinct-shift_to limit xs (ground arith))
  | inr f ↦ rw f once
]

length-shift_to : (limit : ℕ) (xs : List Text) → length (shift_to limit xs) ≤ limit
unfolding shift_to
length-shift_to limit [] = omega arith
length-shift_to limit (x ∷ xs) =
    let rest : length (shift_to limit xs) ≤ limit = length-shift_to limit xs in
    elim (Bool-cases (ltb limit (length (x ∷ xs)))) [
      | inl t ↦ rw t rest
      | inr f ↦ rw f (ground arith)
    ]

-- After any command, a history whose lines are all different has no line twice, at most `limit`
-- lines, and a pointer that is at most their number.
pub push-IsValid :
    (limit : ℕ) (h : History) (cmd : Text)
    → distinct h.items ≡ true
    → IsValid limit (push limit h cmd)
unfolding push
push-IsValid limit h cmd once = record {
  once =
      distinct-shift_to limit (remove_first cmd h.items ++ cmd ∷ [])
        (distinct-remove_first cmd h.items once);
  short = length-shift_to limit (remove_first cmd h.items ++ cmd ∷ []);
  in_range = omega arith;
}
