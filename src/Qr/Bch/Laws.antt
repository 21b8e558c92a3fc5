-- ===== src/Qr/Bch/Laws.antt =====
-- `bchRemainder` divides: it ends, and what it returns is the value with shifted generators removed.
use Prim.Native.Nat.{bit_xor}
use native.Mathlib.Nat.{
  pow-suc, one-le-pow, pow-le-pow_right, mul-lt-mul_of_pos_right, mod-eq_of_lt,
}
use bitcoin_lisp.Prelude.Bits.{bit_xor-cancel}
use bitcoin_lisp.Prelude.{
  ℕ, zero, suc, ◌-◌, ◌*◌, ◌%◌, ◌^◌, ◌≤◌, ◌<◌, ◌≡◌, refl, ap, arith, ltb, inl, inr, Bool-cases, ◌∙◌,
}
use bitcoin_lisp.Qr.Bch.Length.{
  pow_add, lt-pow-bit_length, pow-le-bit_length, bit_length-le, bit_length-pos,
}
use bitcoin_lisp.Qr.Bch.{bit_length, bch_loop, bch_remainder}

-- `r` is `v` with copies of the generator, each shifted, added to it digit by digit.
pub data Reduces (generator : ℕ) : ℕ → ℕ → Type 0 where
  stop : {v r : ℕ} → v ≡ r → Reduces generator v r
  remove :
      {v r : ℕ} (s : ℕ)
      → Reduces generator (bit_xor v (generator * 2 ^ s)) r
      → Reduces generator v r

below-double :
    (g a p a' k' k : ℕ) → a' ≡ a * 2 → k' ≡ k * 2 → k ≡ a * p → 1 ≤ p → g < a' → g * p < k'
below-double g a p a' k' k ea ek es pos lt =
    let more : g * p < a * 2 * p = mul-lt-mul_of_pos_right (rw ea at lt) pos in omega (arith, more)

-- One round shortens the value.
shortened :
    (g v k m : ℕ)
    → bit_length v ≡ suc k
    → bit_length g ≡ suc m
    → m ≤ k
    → v < 2 ^ 32
    → g < 2 ^ 32
    → (g * 2 ^ (suc k - suc m) < 2 ^ suc k) × (bit_xor v (g * 2 ^ (suc k - suc m)) < 2 ^ k)
shortened g v k m ev eg h hv hg =
    let split : 2 ^ k ≡ 2 ^ m * 2 ^ (k - m) =
      ap (λ (t : ℕ). 2 ^ t) (omega arith) ∙ pow_add m (k - m) in
    let same : suc k - suc m ≡ k - m = omega arith in
    let g_low : 2 ^ m ≤ g = pow-le-bit_length g m eg in
    let g_high : g < 2 ^ suc m = rw eg at (lt-pow-bit_length g hg) in
    let v_high : v < 2 ^ suc k = rw ev at (lt-pow-bit_length v hv) in
    let low : 2 ^ k ≤ g * 2 ^ (k - m) = rw split (grind arith) in
    let high : g * 2 ^ (k - m) < 2 ^ suc k =
      below-double g (2 ^ m) (2 ^ (k - m)) (2 ^ suc m) (2 ^ suc k) (2 ^ k) (pow-suc 2 m)
        (pow-suc 2 k) split (one-le-pow (k - m) 2 (omega arith)) g_high in
    rw same (high, bit_xor-cancel k v (g * 2 ^ (k - m)) (pow-le-bit_length v k ev) v_high low high)

bch_loop_lem :
    (fuel g v m : ℕ)
    → bit_length g ≡ suc m
    → g < 2 ^ 32
    → v < 2 ^ 32
    → bit_length v ≤ fuel
    → (bit_length (bch_loop fuel g v) < bit_length g) × Reduces g v (bch_loop fuel g v)
unfolding bch_loop
bch_loop_lem zero g v m eg hg hv h = (omega arith, stop refl)
bch_loop_lem (suc fuel) g v m eg hg hv h = elim (Bool-cases (ltb (bit_length v) (bit_length g))) [
  | inl small ↦ rw small (ground arith, stop refl)
  | inr big ↦
      let k = bit_length v - 1 in
      let ev : bit_length v ≡ suc k = ground arith in
      let shape : suc k - suc m ≡ bit_length v - bit_length g = ground arith in
      let (fits, shorter) = shortened g v k m ev eg (ground arith) hv hg in
      let wide : g * 2 ^ (suc k - suc m) < 2 ^ 32 = omega (
        arith,
        fits,
        pow-le-pow_right {n = 2} (omega arith) {i = suc k} {j = 32}
            (omega (arith, bit_length-le v 32 hv)),
      ) in
      let whole : g * 2 ^ (bit_length v - bit_length g) % 2 ^ 32 ≡ g * 2 ^ (suc k - suc m) =
        rw (← shape) (mod-eq_of_lt wide) in
      let v' = bit_xor v (g * 2 ^ (suc k - suc m)) in
      let narrow : v' < 2 ^ 32 = omega (
        arith,
        shorter,
        pow-le-pow_right {n = 2} (omega arith) {i = k} {j = 32}
            (omega (arith, bit_length-le v 32 hv)),
      ) in
      let (done, steps) =
        bch_loop_lem fuel g v' m eg hg narrow (omega (arith, bit_length-le v' k shorter)) in
      rw (big, whole) (done, remove (suc k - suc m) steps)
]

-- Of a value and a generator below 2 ^ 32, the generator not 0, `bchRemainder` returns a number with fewer
-- binary digits than the generator, and that number is the value with shifted copies of the generator
-- added to it without carry: the loop ends by its own test.
pub bch_remainder_lem :
    (value g : ℕ)
    → value < 2 ^ 32
    → 0 < g
    → g < 2 ^ 32
    → (bit_length (bch_remainder value g) < bit_length g) × Reduces g value (bch_remainder value g)
unfolding bch_remainder
bch_remainder_lem value g hv pos hg =
    bch_loop_lem 32 g value (bit_length g - 1) (bit_length-pos g pos hg) hg hv
      (bit_length-le value 32 hv)
