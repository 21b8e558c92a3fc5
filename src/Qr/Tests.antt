-- ===== src/Qr/Tests.antt =====
-- ui/js/qr.js: runs of the encoder, and its theorems at concrete inputs.
use bitcoin_lisp.Qr.Tables.{align_pos}
use bitcoin_lisp.Qr.Matrix.Cells.{set_cell, cell}
use bitcoin_lisp.Prelude.{
  ℕ, ltb→lt, ◌/◌, ◌^◌, List, [], ◌∷◌, ◌<◌, ◌≤◌, ◌≡◌, ◌↔◌, refl, arith, err, some, length,
}
use Prim.Native.Nat.{bit_xor}
use bitcoin_lisp.Qr.Bch.{bit_length, bch_remainder, format_bits, version_bits}
use bitcoin_lisp.Qr.Bch.Laws.{Reduces, bch_remainder_lem}
use bitcoin_lisp.Qr.Codewords.{build_codewords}
use bitcoin_lisp.Qr.Codewords.Scan.{read_codewords, read_codewords-build_codewords}
use bitcoin_lisp.Qr.Field.{rs_ec_bytes}
use bitcoin_lisp.Qr.Field.Generator.{product}
use bitcoin_lisp.Qr.Field.Steps.{dividend}
use bitcoin_lisp.Qr.Field.Division.{rs_ec_bytes-remainder}
use bitcoin_lisp.Prelude.{Option, replicate, ◌++◌}
use bitcoin_lisp.Qr.Bch.Distance.{ones, format_bits_distance, version_bits_code}
use bitcoin_lisp.Qr.Version.{
  data_too_long, data_codeword_count, pick_version, fits_version, pick_from,
}
use bitcoin_lisp.Qr.Version.Choice.{IsSmallest, pick_version-IsSmallest, pick_version_err}
use bitcoin_lisp.Qr.Codewords.{data_codewords}
use bitcoin_lisp.Qr.Codewords.Payload.{IsBytes, read_payload, read_payload-data_codewords}
use bitcoin_lisp.Qr.Matrix.{
  Matrix, base_matrix, reserve_format, mark, alignments, finders, blank, reserve_version, mark_free,
  timing, finder,
}
use bitcoin_lisp.Qr.Place.{place_data}
use bitcoin_lisp.Qr.Place.Keeps.{Agrees, place_data-Agrees}
use bitcoin_lisp.Qr.Encode.{trial_penalty, choose_mask}
use bitcoin_lisp.Qr.Encode.Mask.{IsBest, choose_mask-IsBest}

abbrev bytes : List ℕ
bytes = 98 ∷ 105 ∷ 116 ∷ []

abbrev small : Matrix
small = base_matrix 1

bch_remainder_lem_example :
    (bit_length (bch_remainder 5120 1335) < bit_length 1335)
    × Reduces 1335 5120 (bch_remainder 5120 1335)
bch_remainder_lem_example = bch_remainder_lem 5120 1335 (omega arith) (omega arith) (omega arith)

format_bits_distance_example : 5 ≤ ones 15 (bit_xor (format_bits 2) (format_bits 5))
format_bits_distance_example = format_bits_distance 2 5 (omega arith) (omega arith) (omega arith)

version_bits_code_example :
    (version_bits 7 / 2 ^ 12 ≡ 7) × (8 ≤ ones 18 (bit_xor (version_bits 7) (version_bits 8)))
version_bits_code_example = version_bits_code 7 8 (omega arith) (omega arith) (omega arith)

pick_version-IsSmallest_example : IsSmallest 20 1 2 × (2 ≤ 40)
unfolding pick_version pick_from fits_version
pick_version-IsSmallest_example = pick_version-IsSmallest 20 2 refl

pick_version_err_example : (pick_version 3000 ≡ err data_too_long) ↔ (2331 < 3000)
pick_version_err_example = pick_version_err 3000

bytes-IsBytes : IsBytes bytes
bytes-IsBytes = (omega arith, (omega arith, (omega arith, tt)))

read_payload-data_codewords_example :
    (length (data_codewords bytes 1) ≡ data_codeword_count 1)
    × (read_payload 1 (data_codewords bytes 1) ≡ some bytes)
unfolding pick_version pick_from fits_version
read_payload-data_codewords_example = read_payload-data_codewords bytes 1 bytes-IsBytes refl

place_data-Agrees_example :
    (m' : Matrix) × (place_data small bytes 0 ≡ some m')
    × (m'.size ≡ small.size)
    × (m'.is_function ≡ small.is_function)
    × Agrees small.is_function small.modules m'.modules
unfolding base_matrix reserve_version reserve_format mark mark_free cell timing alignments align_pos
    finders finder blank set_cell
place_data-Agrees_example = place_data-Agrees small bytes 0 (ltb→lt 0 small.size refl)

choose_mask-IsBest_example : IsBest (trial_penalty 1 bytes) 8 (choose_mask 1 bytes)
choose_mask-IsBest_example = choose_mask-IsBest 1 bytes

read_codewords-build_codewords_example : read_codewords 1 (build_codewords bytes 1) ≡ some bytes
unfolding pick_version pick_from fits_version
read_codewords-build_codewords_example = read_codewords-build_codewords bytes 1 bytes-IsBytes refl

rs_ec_bytes-remainder_example :
    (quotient : List (Option ℕ)) × (length quotient ≡ length bytes)
    × (length (rs_ec_bytes bytes 10) ≡ 10)
    × (dividend (product 10) quotient (rs_ec_bytes bytes 10) ≡ bytes ++ replicate 10 0)
rs_ec_bytes-remainder_example =
    rs_ec_bytes-remainder bytes 10 bytes-IsBytes (omega arith) (omega arith)
