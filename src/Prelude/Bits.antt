-- ===== src/Prelude/Bits.antt =====
-- Facts on `bit_xor` and `bit_or` at every width, from the recursion on binary digits.
use Prim.Native.Nat.{
  ℕ, zero, suc, ◌+◌, ◌*◌, ◌/◌, ◌%◌, ◌^◌, ◌≤◌, ◌<◌, max, digits, bitwise, differ, bit_or, bit_xor,
  bit_or-bitwise, bit_xor-bitwise, bit_and, bit_and-bitwise, min,
}
use mathlib.Core.Path.{◌≡◌, refl, sym, ap, ◌∙◌}
use native.Mathlib.Nat.{le_refl, pow-suc}
use native.Mathlib.Omega.{arith}

module _ (low : ℕ → ℕ) (op : ℕ → ℕ → ℕ) where
  digits-zero : (fuel y : ℕ) → digits low op fuel 0 y ≡ digits low op 0 0 y
  digits-zero zero y = refl
  digits-zero (suc fuel) y = refl

  -- Any fuel that is not below the first number gives the same digits.
  digits_enough :
      (x y more less : ℕ) → x ≤ less → x ≤ more → digits low op more x y ≡ digits low op less x y
  digits_enough zero y more less l k = digits-zero more y ∙ sym (digits-zero less y)
  digits_enough (suc x) y more zero l k = absurd (omega arith)
  digits_enough (suc x) y zero (suc less) l k = absurd (omega arith)
  digits_enough (suc x) y (suc more) (suc less) l k =
      let halves : suc x / 2 ≤ less = omega arith in
      rw (digits_enough (suc x / 2) (y / 2) more less halves (omega arith))

  bitwise-halves :
      (x y : ℕ)
      → bitwise low op (suc x) y ≡ op (suc x % 2) (y % 2) + 2 * bitwise low op (suc x / 2) (y / 2)
  bitwise-halves x y =
      let enough = digits_enough (suc x / 2) (y / 2) x (suc x / 2) (le_refl _) (omega arith) in
      omega (arith, enough)

pub bit_or_step : (x y : ℕ) → bit_or x y ≡ max (x % 2) (y % 2) + 2 * bit_or (x / 2) (y / 2)
bit_or_step zero y = simp bit_or-bitwise (omega arith)
bit_or_step (suc x) y = simp bit_or-bitwise (bitwise-halves (λ d. d) max x y)

differ_digits : (x y : ℕ) → x < 2 → y < 2 → differ x y ≡ (x + y) % 2
differ_digits zero zero p q = refl
differ_digits zero (suc zero) p q = refl
differ_digits (suc zero) zero p q = refl
differ_digits (suc zero) (suc zero) p q = refl
differ_digits zero (suc (suc y)) p q = absurd (omega arith)
differ_digits (suc zero) (suc (suc y)) p q = absurd (omega arith)
differ_digits (suc (suc x)) y p q = absurd (omega arith)

xor_digit : (a b : ℕ) → differ (a % 2) (b % 2) ≡ (a + b) % 2
xor_digit a b = differ_digits (a % 2) (b % 2) (omega arith) (omega arith) ∙ omega arith

pub bit_xor_step : (x y : ℕ) → bit_xor x y ≡ (x + y) % 2 + 2 * bit_xor (x / 2) (y / 2)
bit_xor_step zero y = simp bit_xor-bitwise (omega arith)
bit_xor_step (suc x) y = simp bit_xor-bitwise (
    bitwise-halves (λ d. d) differ x y
    ∙ ap (λ (t : ℕ). t + 2 * bitwise (λ d. d) differ (suc x / 2) (y / 2)) (xor_digit (suc x) y))

-- A number below `2 ^ k` stays below it.
pub bit_xor-lt : (k a b : ℕ) → a < 2 ^ k → b < 2 ^ k → bit_xor a b < 2 ^ k
bit_xor-lt zero zero zero p q = omega arith
bit_xor-lt zero zero (suc b) p q = absurd (omega arith)
bit_xor-lt zero (suc a) b p q = absurd (omega arith)
bit_xor-lt (suc k) a b p q =
    let two : 2 ^ suc k ≡ 2 * 2 ^ k = omega (arith, pow-suc 2 k) in
    omega (arith, bit_xor_step a b, bit_xor-lt k (a / 2) (b / 2) (omega arith) (omega arith))

-- Two numbers of the same length cancel their leading digit.
pub bit_xor-cancel :
    (k a b : ℕ) → 2 ^ k ≤ a → a < 2 ^ suc k → 2 ^ k ≤ b → b < 2 ^ suc k → bit_xor a b < 2 ^ k
bit_xor-cancel zero a b p p' q q' =
    let e : a ≡ 1 = omega arith in let e' : b ≡ 1 = omega arith in rw (e, e') (omega arith)
bit_xor-cancel (suc k) a b p p' q q' =
    let two : 2 ^ suc k ≡ 2 * 2 ^ k = omega (arith, pow-suc 2 k) in
    let four : 2 ^ suc (suc k) ≡ 2 * 2 ^ suc k = omega (arith, pow-suc 2 (suc k)) in
    omega (
      arith,
      bit_xor_step a b,
      bit_xor-cancel k (a / 2) (b / 2) (omega arith) (omega arith) (omega arith) (omega arith),
    )

bit_or-zero_below : (n a : ℕ) → a ≤ n → bit_or a 0 ≡ a
bit_or-zero_below n zero h = refl
bit_or-zero_below zero (suc a) h = absurd (omega arith)
bit_or-zero_below (suc n) (suc a) h =
    omega (arith, bit_or_step (suc a) 0, bit_or-zero_below n (suc a / 2) (omega arith))

-- `(b << 1) | d` appends a binary digit.
pub bit_or-digit : (b d : ℕ) → d < 2 → bit_or (b * 2) d ≡ b * 2 + d
bit_or-digit b d h =
    let half : b * 2 / 2 ≡ b = omega arith in
    let none_left : d / 2 ≡ 0 = omega arith in
    bit_or_step (b * 2) d ∙ rw (half, none_left, bit_or-zero_below b b (le_refl b)) (omega arith)

bit_and_step : (x y : ℕ) → bit_and x y ≡ min (x % 2) (y % 2) + 2 * bit_and (x / 2) (y / 2)
bit_and_step zero y = simp bit_and-bitwise (omega arith)
bit_and_step (suc x) y = simp bit_and-bitwise (bitwise-halves (λ d. 0) min x y)

bit_and-zero_below : (n a : ℕ) → a ≤ n → bit_and a 0 ≡ 0
bit_and-zero_below n zero h = refl
bit_and-zero_below zero (suc a) h = absurd (omega arith)
bit_and-zero_below (suc n) (suc a) h =
    omega (arith, bit_and_step (suc a) 0, bit_and-zero_below n (suc a / 2) (omega arith))

-- `v & 1` is the lowest digit.
pub bit_and-one : (a : ℕ) → bit_and a 1 ≡ a % 2
bit_and-one a =
    omega (arith, bit_and_step a 1, bit_and-zero_below (a / 2) (a / 2) (le_refl (a / 2)))
