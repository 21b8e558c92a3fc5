-- ===== src/Qr/Codewords/Digits.antt =====
-- Numbers as lists of binary digits, highest first: what `putBits` pushes, and the way back.
use native.Mathlib.Nat.{
  pow-suc, one-le-pow, mul-le-mul_right, zero-add, div-add-mod, mod-lt, mul-add-div_right,
  div-eq_of_lt, mod-eq_of_lt, add-mul-mod_self_right,
}
use mathlib.Core.Path.{ap₂}
use bitcoin_lisp.Prelude.Bits.{bit_and-one}
use bitcoin_lisp.Prelude.{
  ℕ, zero, suc, ◌+◌, ◌*◌, ◌/◌, ◌%◌, ◌^◌, ◌≤◌, ◌<◌, ◌≡◌, refl, ap, ◌∙◌, sym, arith, List, [], ◌∷◌,
  ◌++◌, append-nil, append_assoc, length, All,
}
use bitcoin_lisp.Qr.Codewords.{put_bits}

unfoldable pub binary : ℕ → ℕ → List ℕ
binary zero v = []
binary (suc i) v = v / 2 ^ i % 2 ∷ binary i v

unfoldable pub number : ℕ → List ℕ → ℕ
number acc [] = acc
number acc (d ∷ ds) = number (acc * 2 + d) ds

abbrev pub IsDigits : List ℕ → Type 0
IsDigits = All (λ (d : ℕ). d < 2)

pub put_bits-binary : (v c : ℕ) (bits : List ℕ) → put_bits v c bits ≡ bits ++ binary c v
unfolding put_bits binary
put_bits-binary v zero bits = sym (append-nil bits)
put_bits-binary v (suc i) bits =
    put_bits-binary v i _
    ∙ append_assoc bits _ _
    ∙ ap (λ (d : ℕ). bits ++ (d ∷ binary i v)) (bit_and-one (v / 2 ^ i))

pub length-binary : (c v : ℕ) → length (binary c v) ≡ c
unfolding binary
length-binary zero v = refl
length-binary (suc i) v = ap suc (length-binary i v)

pub binary-IsDigits : (c v : ℕ) → IsDigits (binary c v)
unfolding binary
binary-IsDigits zero v = tt
binary-IsDigits (suc i) v = (omega arith, binary-IsDigits i v)

number-split : (ds : List ℕ) (acc : ℕ) → number acc ds ≡ acc * 2 ^ length ds + number 0 ds
unfolding number
number-split [] acc = omega arith
number-split (d ∷ ds) acc = omega (
  arith,
  number-split ds (acc * 2 + d),
  number-split ds (0 * 2 + d),
  ap (λ (t : ℕ). acc * t) (pow-suc 2 (length ds)),
)

number-lt : (ds : List ℕ) → IsDigits ds → number 0 ds < 2 ^ length ds
unfolding number
number-lt [] h = omega arith
number-lt (d ∷ ds) (hd, h) =
    let p = 2 ^ length ds in
    let at_most : d * p ≤ 1 * p = mul-le-mul_right p (omega arith) in
    omega (
      arith,
      number-split ds (0 * 2 + d),
      ap (λ (t : ℕ). t * p) (zero-add d),
      pow-suc 2 (length ds),
      number-lt ds h,
      at_most,
    )

-- One more binary digit of a remainder.
mod-mul-two : (v p : ℕ) → 0 < p → v % (p * 2) ≡ (v / p % 2) * p + v % p
mod-mul-two v p pos =
    let whole : p * (v / p) + v % p ≡ v = div-add-mod v p in
    let halves : v / p ≡ 2 * (v / p / 2) + v / p % 2 = omega arith in
    let low : v % p < p = mod-lt v pos in
    let digit : (v / p % 2) * p ≤ 1 * p = mul-le-mul_right p (omega arith) in
    let sum : p * (v / p) ≡ (v / p / 2) * (p * 2) + (v / p % 2) * p =
      ap (λ (t : ℕ). p * t) halves ∙ omega arith in
    let again : v ≡ (v / p % 2) * p + v % p + (v / p / 2) * (p * 2) = omega arith in
    let r = (v / p % 2) * p + v % p in
    ap (λ (t : ℕ). t % (p * 2)) again
    ∙ add-mul-mod_self_right r (v / p / 2) (p * 2)
    ∙ mod-eq_of_lt (omega arith)

-- Reading the digits of a number gives the number.
pub number-binary : (c v acc : ℕ) → number acc (binary c v) ≡ acc * 2 ^ c + v % 2 ^ c
unfolding number binary
number-binary zero v acc = omega arith
number-binary (suc i) v acc =
    let p = 2 ^ i in
    rw pow-suc (
      rw (mod-mul-two v p (one-le-pow i 2 (omega arith)))
        (number-binary i v (acc * 2 + v / p % 2) ∙ omega arith))

-- Writing the number of a list of digits gives the list.
pub binary-number : (ds : List ℕ) (acc : ℕ) → IsDigits ds → binary (length ds) (number acc ds) ≡ ds
unfolding number binary
binary-number [] acc h = refl
binary-number (d ∷ ds) acc (hd, h) =
    let p = 2 ^ length ds in
    let pos : 1 ≤ p = one-le-pow (length ds) 2 (omega arith) in
    let lead : number (acc * 2 + d) ds / p ≡ acc * 2 + d = rw (number-split ds (acc * 2 + d)) (
      mul-add-div_right pos (acc * 2 + d) (number 0 ds)
      ∙ rw (div-eq_of_lt (number-lt ds h)) (omega arith)) in
    let digit : number (acc * 2 + d) ds / p % 2 ≡ d = rw lead (omega arith) in
    ap₂ (λ (x : ℕ) (xs : List ℕ). x ∷ xs) digit (binary-number ds (acc * 2 + d) h)
