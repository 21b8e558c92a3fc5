-- ===== src/Qr/Version.antt =====
-- ui/js/qr.js: `dataCodewordCount` and `pickVersion`. A version outside 1 to 40 has no blocks here,
-- where the code reads past the table; `pickVersion` and its caller never ask for one.
pub mod Choice
use bitcoin_lisp.Prelude.{
  ℕ, zero, suc, ◌+◌, ◌-◌, ◌*◌, List, [], get_or, leb, ltb, if◌then◌else◌, for_each, Bool, Outcome,
  ok, err,
}
use bitcoin_lisp.Qr.Tables.{RsRun, rs_blocks_m}

unfoldable pub blocks_of : ℕ → List RsRun
unfolding rs_blocks_m
blocks_of version = get_or rs_blocks_m (version - 1) []

unfoldable pub data_codeword_count : ℕ → ℕ
unfolding blocks_of
data_codeword_count version = for_each (blocks_of version) (λ b acc. acc + b.count * b.data_count) 0

-- The bits of the length field.
abbrev pub length_bits : ℕ → ℕ
length_bits version = if ltb version 10 then 8 else 16

unfoldable pub fits_version : ℕ → ℕ → Bool
unfolding data_codeword_count
fits_version byte_length v = leb (4 + length_bits v + 8 * byte_length) (data_codeword_count v * 8)

pub data QrError : Type 0 where
  data_too_long : QrError

-- The loop from version `v` on, with `rounds` versions left to try.
unfoldable pub pick_from : ℕ → ℕ → ℕ → Outcome QrError ℕ
pick_from zero v byte_length = err data_too_long
pick_from (suc rounds) v byte_length =
    let rest = pick_from rounds (suc v) byte_length in
    if fits_version byte_length v then ok v else rest

unfoldable pub pick_version : ℕ → Outcome QrError ℕ
pick_version byte_length = pick_from 40 1 byte_length
