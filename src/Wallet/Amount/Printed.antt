-- ===== src/Wallet/Amount/Printed.antt =====
-- The decimal text of a number: it consists of digits, is not longer than the number's bound, and is read back.
use native.Mathlib.Nat.{pow-suc}
use bitcoin_lisp.Prelude.{
  ℕ, zero, suc, ◌+◌, ◌-◌, ◌*◌, ◌/◌, ◌%◌, ◌^◌, ◌<◌, ◌≤◌, [], ◌∷◌, ◌++◌, Bool, true, ltb, ◌≡◌, refl,
  arith, every_of, length, length-append, length-replicate, replicate, Text, is_digit, Bool-cases,
  inl, inr, ◌&&◌,
}
use bitcoin_lisp.Wallet.Amount.{big_int, decimal_in, decimal, pad_eight}

pub big_int-append :
    (acc c : ℕ) (xs : Text) → big_int acc (xs ++ c ∷ []) ≡ big_int acc xs * 10 + (c - b'0')
unfolding big_int
big_int-append acc c [] = refl
big_int-append acc c (x ∷ xs) = big_int-append (acc * 10 + (x - b'0')) c xs

pub every_of-append :
    (p : ℕ → Bool) (xs ys : Text) → every_of p (xs ++ ys) ≡ (every_of p xs && every_of p ys)
every_of-append p [] ys = refl
every_of-append p (x ∷ xs) ys = ground (arith, every_of-append p xs ys)

-- What is proved of the text of a number.
pub record IsDecimal (n : ℕ) (t : Text) : Type 0 where
  pub digits : every_of is_digit t ≡ true
  pub value : big_int 0 t ≡ n
  pub not_empty : 0 < length t

digit_text : (n : ℕ) → n < 10 → IsDecimal n ((b'0' + n) ∷ [])
unfolding big_int is_digit
digit_text n h = record { digits = ground arith; value = omega arith; not_empty = omega arith }

IsDecimal-step : (n : ℕ) (t : Text) → IsDecimal (n / 10) t → IsDecimal n (t ++ (b'0' + n % 10) ∷ [])
unfolding is_digit
IsDecimal-step n t d = record {
  digits = rw (every_of-append is_digit t ((b'0' + n % 10) ∷ [])) (rw d.digits (ground arith));
  value = rw (big_int-append 0 (b'0' + n % 10) t) (rw d.value (omega arith));
  not_empty = omega (arith, length-append {0} t ((b'0' + n % 10) ∷ []));
}

decimal_in-IsDecimal : (fuel n : ℕ) → n ≤ fuel → IsDecimal n (decimal_in fuel n)
unfolding decimal_in
decimal_in-IsDecimal zero n h = digit_text n (omega arith)
decimal_in-IsDecimal (suc fuel) n h = elim (Bool-cases (ltb n 10)) [
  | inl t ↦ rw t (digit_text n (ground arith))
  | inr f ↦ rw f (
      IsDecimal-step n (decimal_in fuel (n / 10))
        (decimal_in-IsDecimal fuel (n / 10) (ground arith)))
]

pub decimal-IsDecimal : (n : ℕ) → IsDecimal n (decimal n)
decimal-IsDecimal n = decimal_in-IsDecimal n n (omega arith)

length-decimal_in : (fuel k n : ℕ) → n < 10 ^ suc k → length (decimal_in fuel n) ≤ suc k
unfolding decimal_in
length-decimal_in zero k n h = omega arith
length-decimal_in (suc fuel) zero n h = let t : ltb n 10 ≡ true = ground arith in rw t (omega arith)
length-decimal_in (suc fuel) (suc k) n h = elim (Bool-cases (ltb n 10)) [
  | inl t ↦ rw t (omega arith)
  | inr f ↦
      let shape : 10 ^ suc (suc k) ≡ 10 * 10 ^ suc k = omega (arith, pow-suc 10 (suc k)) in
      let less = length-decimal_in fuel k (n / 10) (omega arith) in
      rw f
        (omega (arith, less, length-append {0} (decimal_in fuel (n / 10)) ((b'0' + n % 10) ∷ [])))
]

-- A text of at most eight digits, filled up with zeros.
big_int-replicate : (k : ℕ) (t : Text) → big_int 0 (replicate k b'0' ++ t) ≡ big_int 0 t
unfolding big_int
big_int-replicate zero t = refl
big_int-replicate (suc k) t = big_int-replicate k t

every_of-replicate : (k : ℕ) → every_of is_digit (replicate k b'0') ≡ true
unfolding is_digit
every_of-replicate zero = refl
every_of-replicate (suc k) = every_of-replicate k

-- The eight decimal places of a number below 10 ^ 8.
pub record IsPlaces (n : ℕ) (t : Text) : Type 0 where
  pub digits : every_of is_digit t ≡ true
  pub value : big_int 0 t ≡ n
  pub eight : length t ≡ 8

pub pad_eight-IsPlaces : (n : ℕ) → n < 100000000 → IsPlaces n (pad_eight (decimal n))
pad_eight-IsPlaces n h =
    let d = decimal-IsDecimal n in
    let short : length (decimal n) ≤ 8 = length-decimal_in n 7 n (omega arith) in
    let k = 8 - length (decimal n) in
    record {
      digits =
          rw (every_of-append is_digit (replicate k b'0') (decimal n))
            (rw (every_of-replicate k) d.digits);
      value = rw (big_int-replicate k (decimal n)) d.value;
      eight = omega (
        arith,
        short,
        length-append {0} (replicate k b'0') (decimal n),
        length-replicate {A = ℕ} k b'0',
      );
    }
