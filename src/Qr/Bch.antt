-- ===== src/Qr/Bch.antt =====
-- ui/js/qr.js, the BCH codes of the format and version areas.
pub mod Length
pub mod Laws
pub mod Distance
use Prim.Native.Nat.{bit_and, bit_or, bit_xor}
use bitcoin_lisp.Prelude.{ℕ, zero, suc, ◌-◌, ◌*◌, ◌/◌, ◌%◌, ◌^◌, ◌==◌, ltb, if◌then◌else◌}

-- 32 - Math.clz32(v): the length of `v` in binary, for v below 2 ^ 32; the rounds are digits left.
unfoldable pub bit_length_in : ℕ → ℕ → ℕ
bit_length_in zero v = 0
bit_length_in (suc n) v = if v == 0 then 0 else suc (bit_length_in n (v / 2))

unfoldable pub bit_length : ℕ → ℕ
unfolding bit_length_in
bit_length v = bit_length_in 32 v

-- The `while` loop, stopped after `fuel` rounds.
unfoldable pub bch_loop : ℕ → ℕ → ℕ → ℕ
bch_loop zero generator v = v
bch_loop (suc fuel) generator v =
    let rest =
      bch_loop fuel generator
        (bit_xor v (generator * 2 ^ (bit_length v - bit_length generator) % 2 ^ 32)) in
    if ltb (bit_length v) (bit_length generator) then v else rest

unfoldable pub bch_remainder : ℕ → ℕ → ℕ
unfolding bch_loop bit_length
bch_remainder value generator = bch_loop 32 generator value

-- EC level M is 00, so `data` is the mask.
unfoldable pub format_bits : ℕ → ℕ
unfolding bch_remainder
format_bits mask =
    let level_and_mask = bit_or (0 * 2 ^ 3) mask in
    let shifted = level_and_mask * 2 ^ 10 in
    bit_and (bit_xor (bit_or shifted (bch_remainder shifted 0x537)) 0x5412) 0x7fff

unfoldable pub version_bits : ℕ → ℕ
unfolding bch_remainder
version_bits version =
    let shifted = version * 2 ^ 12 in
    bit_and (bit_or shifted (bch_remainder shifted 0x1f25)) 0x3ffff
