-- ===== src/Console/History/Recent.antt =====
-- The history as its user sees it: the lines given, the last one first, none twice, and no more than the limit.
use mathlib.Core.List.{reverse-cons, reverse-append}
use bitcoin_lisp.Prelude.{
  ℕ, zero, suc, ◌≤◌, List, [], ◌∷◌, ◌++◌, Bool, true, false, not, ltb, ◌≡◌, refl, ap, sym, ◌∙◌,
  arith, Text, text_eq, some_of, keep, take, length, length-reverse, reverse, Bool-cases, inl, inr,
  text_eq_iff, subst, append-nil,
}
use bitcoin_lisp.Console.History.{History, remove_first, shift_to, push}
use bitcoin_lisp.Console.History.Laws.{distinct}
use bitcoin_lisp.Console.History.Keys.{recent}

-- The abstract operation: the line in front, its older copy gone, the oldest lines beyond the limit forgotten.
unfoldable pub remember : ℕ → Text → List Text → List Text
remember limit cmd lines = take limit (cmd ∷ keep (λ x. not (text_eq cmd x)) lines)

keep-absent :
    (cmd : Text) (xs : List Text)
    → some_of (text_eq cmd) xs ≡ false
    → keep (λ x. not (text_eq cmd x)) xs ≡ xs
keep-absent cmd [] h = refl
keep-absent cmd (x ∷ xs) h =
    let f : text_eq cmd x ≡ false = ground arith in
    rw f (ap (λ r. x ∷ r) (keep-absent cmd xs (ground arith)))

remove_first-keep :
    (cmd : Text) (xs : List Text)
    → distinct xs ≡ true
    → remove_first cmd xs ≡ keep (λ x. not (text_eq cmd x)) xs
unfolding remove_first distinct
remove_first-keep cmd [] once = refl
remove_first-keep cmd (x ∷ xs) once = elim (Bool-cases (text_eq cmd x)) [
  | inl t ↦ rw t (
      sym (
        keep-absent cmd xs (
          subst (λ z. some_of (text_eq z) xs ≡ false) (sym ((text_eq_iff cmd x).0 t))
            (ground arith))))
  | inr f ↦ rw f (ap (λ r. x ∷ r) (remove_first-keep cmd xs (ground arith)))
]

keep-append : (p : Text → Bool) (xs ys : List Text) → keep p (xs ++ ys) ≡ keep p xs ++ keep p ys
keep-append p [] ys = refl
keep-append p (x ∷ xs) ys = elim (Bool-cases (p x)) [
  | inl t ↦ rw t (ap (λ r. x ∷ r) (keep-append p xs ys))
  | inr f ↦ rw f (keep-append p xs ys)
]

keep-reverse : (p : Text → Bool) (xs : List Text) → reverse (keep p xs) ≡ keep p (reverse xs)
keep-reverse p [] = refl
keep-reverse p (x ∷ xs) = elim (Bool-cases (p x)) [
  | inl t ↦ rw t (
      rw
        (
          reverse-cons x (keep p xs),
          reverse-cons x xs,
          keep-append p (reverse xs) (x ∷ []),
          keep-reverse p xs,
        )
        (rw t refl))
  | inr f ↦ rw f (
      rw (reverse-cons x xs, keep-append p (reverse xs) (x ∷ []), keep-reverse p xs)
        (rw f (rw (append-nil (keep p (reverse xs))) refl)))
]

take-append_short : (n : ℕ) (xs ys : List Text) → n ≤ length xs → take n (xs ++ ys) ≡ take n xs
take-append_short zero xs ys h = refl
take-append_short (suc n) [] ys h = absurd (omega arith)
take-append_short (suc n) (x ∷ xs) ys h = ap (λ r. x ∷ r) (take-append_short n xs ys (omega arith))

take_all : (n : ℕ) (xs : List Text) → length xs ≤ n → take n xs ≡ xs
take_all zero [] h = refl
take_all zero (x ∷ xs) h = absurd (omega arith)
take_all (suc n) [] h = refl
take_all (suc n) (x ∷ xs) h = ap (λ r. x ∷ r) (take_all n xs (omega arith))

shift_to-take : (limit : ℕ) (xs : List Text) → reverse (shift_to limit xs) ≡ take limit (reverse xs)
unfolding shift_to
shift_to-take limit [] = sym (take_all limit [] (omega arith))
shift_to-take limit (x ∷ xs) = elim (Bool-cases (ltb limit (length (x ∷ xs)))) [
  | inl t ↦ rw t (
      rw (reverse-cons x xs) (
        shift_to-take limit xs
        ∙ sym (
            take-append_short limit (reverse xs) (x ∷ []) (ground (arith, length-reverse {0} xs)))))
  | inr f ↦
      rw f (sym (take_all limit (reverse (x ∷ xs)) (ground (arith, length-reverse {0} (x ∷ xs)))))
]

-- Seen by its lines, the last one first, `push` of a line is `remember`, for a history whose lines are all
-- different: the line comes first, a copy of it that was there is gone, the other lines keep their order, and
-- lines beyond the limit are dropped, the oldest first.
pub push-recent :
    (limit : ℕ) (h : History) (cmd : Text)
    → distinct h.items ≡ true
    → recent (push limit h cmd) ≡ remember limit cmd (recent h)
unfolding recent push remember
push-recent limit h cmd once =
    let p = λ (x : Text). not (text_eq cmd x) in
    shift_to-take limit (remove_first cmd h.items ++ cmd ∷ [])
    ∙ ap (take limit) (
        reverse-append (remove_first cmd h.items) (cmd ∷ [])
        ∙ ap (λ r. cmd ∷ r)
            (ap reverse (remove_first-keep cmd h.items once) ∙ keep-reverse p h.items))
