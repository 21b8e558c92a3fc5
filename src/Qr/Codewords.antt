-- ===== src/Qr/Codewords.antt =====
-- ui/js/qr.js: `buildCodewords`, from the bytes to the interleaved data and parity codewords.
pub mod Deal
pub mod Digits
pub mod Pack
pub mod Payload
pub mod Scan
use Prim.Native.Nat.{bit_and, bit_or}
use bitcoin_lisp.Prelude.{
  ℕ, zero, suc, ◌+◌, ◌-◌, ◌*◌, ◌/◌, ◌%◌, ◌^◌, min, max, List, [], ◌∷◌, ◌++◌, length, get_or, take,
  drop, map, get_elem?, Option, none, some, ltb, ◌==◌, if◌then◌else◌, for_up, for_each,
}
use bitcoin_lisp.Qr.Field.{rs_ec_bytes}
use bitcoin_lisp.Qr.Tables.{RsRun}
use bitcoin_lisp.Qr.Version.{blocks_of, data_codeword_count, length_bits}

-- putBits: the `count` low digits of `value`, highest first, pushed onto `bits`.
unfoldable pub put_bits : ℕ → ℕ → List ℕ → List ℕ
put_bits value zero bits = bits
put_bits value (suc i) bits = put_bits value i (bits ++ bit_and (value / 2 ^ i) 1 ∷ [])

-- The mode, the length field and the bytes.
unfoldable pub message_bits : List ℕ → ℕ → List ℕ
message_bits bytes version =
    for_each bytes (λ b bits. put_bits b 8 bits)
      (put_bits (length bytes) (length_bits version) (put_bits 4 4 []))

-- The terminator, up to four zeros, and the padding to a whole byte.
unfoldable pub pad_bits : ℕ → List ℕ → List ℕ
pad_bits data_count bits =
    let ended = put_bits 0 (min 4 (data_count * 8 - length bits)) bits in
    if length ended % 8 == 0 then ended else put_bits 0 (8 - length ended % 8) ended

unfoldable pub bit_stream : List ℕ → ℕ → List ℕ
bit_stream bytes version = pad_bits (data_codeword_count version) (message_bits bytes version)

-- The inner loop: eight digits to a byte; past the end a digit reads as 0.
unfoldable pub pack_byte : List ℕ → ℕ
pack_byte bits = for_up 8 0 (λ j b. bit_or (b * 2) (get_or bits j 0)) 0

-- `rounds` bytes from the front of the stream.
unfoldable pub pack : ℕ → List ℕ → List ℕ
pack zero bits = []
pack (suc rounds) bits = pack_byte bits ∷ pack rounds (drop 8 bits)

-- The fill bytes, `i` counting them.
unfoldable pub fill : ℕ → ℕ → List ℕ
fill zero i = []
fill (suc rounds) i = (if i % 2 == 0 then 0xec else 0x11) ∷ fill rounds (suc i)

unfoldable pub data_codewords : List ℕ → ℕ → List ℕ
data_codewords bytes version =
    let bits = bit_stream bytes version in
    let packed = pack ((length bits + 7) / 8) bits in
    packed ++ fill (data_codeword_count version - length packed) 0

pub record Block : Type 0 where
  pub dc : List ℕ
  pub ec : List ℕ

-- `n` blocks of one run, and what is left of the codewords behind them.
unfoldable pub split_run : ℕ → RsRun → List ℕ → List Block × List ℕ
split_run zero b codewords = ([], codewords)
split_run (suc n) b codewords =
    let block = take b.data_count codewords in
    let (blocks, rest) = split_run n b (drop b.data_count codewords) in
    (record { dc = block; ec = rs_ec_bytes block (b.total - b.data_count) } ∷ blocks, rest)

unfoldable pub split_blocks : List RsRun → List ℕ → List Block
split_blocks [] codewords = []
split_blocks (b ∷ runs) codewords =
    let (blocks, rest) = split_run b.count b codewords in blocks ++ split_blocks runs rest

-- Math.max over the lengths
unfoldable pub longest : List (List ℕ) → ℕ
longest [] = 0
longest (b ∷ blocks) = max (length b) (longest blocks)

-- for (const b of blocks) if (i < b.length) out.push(b[i])
unfoldable pub column : ℕ → List (List ℕ) → List ℕ
column i [] = []
column i (b ∷ blocks) = if ltb i (length b) then get_or b i 0 ∷ column i blocks else column i blocks

unfoldable pub columns : ℕ → ℕ → List (List ℕ) → List ℕ
columns zero i blocks = []
columns (suc rounds) i blocks = column i blocks ++ columns rounds (suc i) blocks

unfoldable pub interleave : List (List ℕ) → List ℕ
interleave blocks = columns (longest blocks) 0 blocks

unfoldable pub build_codewords : List ℕ → ℕ → List ℕ
build_codewords bytes version =
    let blocks = split_blocks (blocks_of version) (data_codewords bytes version) in
    interleave (map (λ (b : Block). b.dc) blocks) ++ interleave (map (λ (b : Block). b.ec) blocks)
