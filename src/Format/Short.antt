-- ===== src/Format/Short.antt =====
-- How long a shortened id is, and what it keeps.
use bitcoin_lisp.Prelude.{
  ℕ, zero, suc, ◌+◌, ◌-◌, ◌*◌, ◌≤◌, [], ◌∷◌, ◌++◌, true, false, leb, length, take, length-take,
  length-drop, Text, ◌≡◌, arith, Bool-cases, inl, inr, ◌<◌,
}
use bitcoin_lisp.Format.{short_id, ellipsis, last_of}

length-append : (xs ys : Text) → length (xs ++ ys) ≡ length xs + length ys
length-append [] ys = omega arith
length-append (x ∷ xs) ys = omega (arith, length-append xs ys)

leb-false : (n m : ℕ) → leb n m ≡ false → m < n
leb-false n m h = ground arith

leb-true : (n m : ℕ) → leb n m ≡ true → n ≤ m
leb-true n m h = ground arith

ends-length :
    (id : Text) (n : ℕ) → length (take (suc n) id ++ ellipsis ++ last_of (suc n) id) ≤ 2 * suc n + 1
ends-length id n = omega (
  arith,
  length-append (take (suc n) id ++ ellipsis) (last_of (suc n) id),
  length-append (take (suc n) id) ellipsis,
  length-take (suc n) id,
  length-drop (length id - suc n) id,
)

-- An id that is shortened to at least one character at each end has at most twice as many characters, and one more.
short_id-length : (id : Text) (ends : ℕ) → 1 ≤ ends → length (short_id id ends) ≤ 2 * ends + 1
unfolding short_id
short_id-length id zero h = absurd (omega arith)
short_id-length [] (suc n) h = omega arith
short_id-length (c ∷ cs) (suc n) h = elim (Bool-cases (leb (length (c ∷ cs)) (2 * suc n + 1))) [
  | inl t ↦ rw t (leb-true (length (c ∷ cs)) (2 * suc n + 1) t)
  | inr f ↦ rw f (ends-length (c ∷ cs) n)
]
