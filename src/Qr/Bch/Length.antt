-- ===== src/Qr/Bch/Length.antt =====
-- The length of a number in binary, against powers of two.
use native.Mathlib.Nat.{pow-suc}
use bitcoin_lisp.Prelude.{
  ℕ, zero, suc, ◌+◌, ◌-◌, ◌*◌, ◌/◌, ◌^◌, ◌≤◌, ◌<◌, ◌≡◌, ap, arith, ◌==◌, inl, inr, Bool-cases,
}
use bitcoin_lisp.Qr.Bch.{bit_length_in, bit_length}

pub pow_add : (a b : ℕ) → 2 ^ (a + b) ≡ 2 ^ a * 2 ^ b
pow_add zero b = let sum : 0 + b ≡ b = omega arith in rw sum (omega arith)
pow_add (suc a) b =
    let sum : suc a + b ≡ suc (a + b) = omega arith in
    rw sum (omega (arith, pow-suc 2 (a + b), pow_add a b, ap (λ (t : ℕ). t * 2 ^ b) (pow-suc 2 a)))

lt-pow-bit_length_in : (n v : ℕ) → v < 2 ^ n → v < 2 ^ bit_length_in n v
unfolding bit_length_in
lt-pow-bit_length_in zero v h = h
lt-pow-bit_length_in (suc n) v h = elim (Bool-cases (v == 0)) [
  | inl e ↦ rw e (ground arith)
  | inr e ↦ rw e (
      omega (
        arith,
        pow-suc 2 (bit_length_in n (v / 2)),
        lt-pow-bit_length_in n (v / 2) (omega (arith, pow-suc 2 n)),
      ))
]

pow-le-bit_length_in : (n v k : ℕ) → bit_length_in n v ≡ suc k → 2 ^ k ≤ v
unfolding bit_length_in
pow-le-bit_length_in zero v k e = cc
pow-le-bit_length_in (suc n) v zero e = ground arith
pow-le-bit_length_in (suc n) v (suc k) e = elim (Bool-cases (v == 0)) [
  | inl z ↦ ground arith
  | inr z ↦ omega (arith, pow-suc 2 k, pow-le-bit_length_in n (v / 2) k (ground arith))
]

bit_length_in-le : (n v k : ℕ) → v < 2 ^ k → bit_length_in n v ≤ k
unfolding bit_length_in
bit_length_in-le zero v k h = omega arith
bit_length_in-le (suc n) v zero h = ground arith
bit_length_in-le (suc n) v (suc k) h = elim (Bool-cases (v == 0)) [
  | inl z ↦ rw z (omega arith)
  | inr z ↦ rw z (omega (arith, bit_length_in-le n (v / 2) k (omega (arith, pow-suc 2 k))))
]

pub lt-pow-bit_length : (v : ℕ) → v < 2 ^ 32 → v < 2 ^ bit_length v
unfolding bit_length
lt-pow-bit_length v h = lt-pow-bit_length_in 32 v h

pub pow-le-bit_length : (v k : ℕ) → bit_length v ≡ suc k → 2 ^ k ≤ v
unfolding bit_length
pow-le-bit_length v k e = pow-le-bit_length_in 32 v k e

pub bit_length-le : (v k : ℕ) → v < 2 ^ k → bit_length v ≤ k
unfolding bit_length
bit_length-le v k h = bit_length_in-le 32 v k h

pub bit_length-pos : (v : ℕ) → 0 < v → v < 2 ^ 32 → bit_length v ≡ suc (bit_length v - 1)
bit_length-pos v pos h = has_digit (bit_length v) (lt-pow-bit_length v h)
  where
    has_digit : (n : ℕ) → v < 2 ^ n → n ≡ suc (n - 1)
    has_digit zero k = absurd (omega arith)
    has_digit (suc n) k = omega arith
