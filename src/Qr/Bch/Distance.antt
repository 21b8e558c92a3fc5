-- ===== src/Qr/Bch/Distance.antt =====
-- The code words of the format and version areas.
use Prim.Native.Nat.{bit_xor}
use bitcoin_lisp.Prelude.{
  ℕ, zero, suc, ◌+◌, ◌/◌, ◌%◌, ◌^◌, ◌≤◌, ◌<◌, ◌≡◌, ◌≢◌, refl, arith, Bool, true, ◌&&◌, ◌||◌, leb,
  ◌==◌, all_below, all_below_sound, &&-left, &&-right,
}
use bitcoin_lisp.Qr.Bch.{format_bits, version_bits}

-- The number of ones among the `n` lowest binary digits.
unfoldable pub ones : ℕ → ℕ → ℕ
ones zero v = 0
ones (suc n) v = v % 2 + ones n (v / 2)

-- The words of `v` and `v'` are `d` apart, or the arguments are equal.
abbrev far : ℕ → ℕ → (ℕ → ℕ) → ℕ → ℕ → Bool
far d width word v v' = v == v' || leb d (ones width (bit_xor (word v) (word v')))

far_lem :
    (d width : ℕ) (word : ℕ → ℕ) (v v' : ℕ)
    → v ≢ v'
    → far d width word v v' ≡ true
    → d ≤ ones width (bit_xor (word v) (word v'))
far_lem d width word v v' ne h = ground arith

format_table : all_below 8 (λ m. all_below 8 (far 5 15 format_bits m)) ≡ true
unfolding all_below format_bits ones
format_table = refl

-- The format words of two different masks below 8 differ in at least five of their fifteen modules.
pub format_bits_distance :
    (m m' : ℕ) → m < 8 → m' < 8 → m ≢ m' → 5 ≤ ones 15 (bit_xor (format_bits m) (format_bits m'))
format_bits_distance m m' h h' ne = far_lem 5 15 format_bits m m' ne (
    all_below_sound 8 (far 5 15 format_bits m) m'
      (all_below_sound 8 (λ k. all_below 8 (far 5 15 format_bits k)) m format_table h) h')

format_mask_table : all_below 8 (λ m. bit_xor (format_bits m) 0x5412 / 2 ^ 10 == m) ≡ true
unfolding all_below format_bits
format_mask_table = refl

-- A mask below 8 is read back from the upper five bits of its unmasked format word.
format_bits_mask : (m : ℕ) → m < 8 → bit_xor (format_bits m) 0x5412 / 2 ^ 10 ≡ m
format_bits_mask m h = ground (
  arith,
  all_below_sound 8 (λ k. bit_xor (format_bits k) 0x5412 / 2 ^ 10 == k) m format_mask_table h,
)

abbrev version_row : ℕ → Bool
version_row v = (version_bits v / 2 ^ 12 == v) && all_below 41 (far 8 18 version_bits v)

version_table : all_below 41 version_row ≡ true
unfolding all_below version_bits ones
version_table = refl

-- A version up to 40 is the upper six bits of its version word, and the words of two different ones differ in
-- at least eight of their eighteen modules.
pub version_bits_code :
    (v v' : ℕ)
    → v ≤ 40
    → v' ≤ 40
    → v ≢ v'
    → (version_bits v / 2 ^ 12 ≡ v) × (8 ≤ ones 18 (bit_xor (version_bits v) (version_bits v')))
version_bits_code v v' h h' ne =
    let row = all_below_sound 41 version_row v version_table (omega arith) in
    let apart = all_below_sound 41 (far 8 18 version_bits v) v' (&&-right _ _ row) (omega arith) in
    (
      ground (arith, &&-left (version_bits v / 2 ^ 12 == v) _ row),
      far_lem 8 18 version_bits v v' ne apart,
    )
