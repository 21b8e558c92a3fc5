-- ===== src/Qr/Codewords/Payload.antt =====
-- What a reader gets back from the data codewords, and their number.
use native.Mathlib.Nat.{mod-eq_of_lt}
use bitcoin_lisp.Prelude.{
  ℕ, zero, suc, ◌+◌, ◌-◌, ◌*◌, ◌/◌, ◌^◌, ◌≤◌, ◌<◌, ◌≡◌, refl, ap, ◌∙◌, sym, arith, List, [], ◌∷◌,
  ◌++◌, append_assoc, length, All, take, drop, length-append, true, Option, some, none, leb→le,
  ◌==◌, if◌then◌else◌, take_append, All-append, subst, drop_append, leb, all_below, all_below_sound,
  ok,
}
use bitcoin_lisp.Qr.Version.{length_bits, data_codeword_count, fits_version, pick_version}
use bitcoin_lisp.Qr.Version.Choice.{pick_version-IsSmallest}
use bitcoin_lisp.Qr.Codewords.Digits.{binary, number, IsDigits, length-binary, number-binary}
use bitcoin_lisp.Qr.Codewords.Pack.{
  byte_digits, message, length-message, message_bits-message, pad_bits-Padded, byte_digits-pack,
  length-pack, length-fill, message-IsDigits,
}
use bitcoin_lisp.Qr.Codewords.{bit_stream, pad_bits, message_bits, pack, fill, data_codewords}

-- A reader of byte mode: the mode, the length field, then that many bytes.
unfoldable pub read_bytes : ℕ → List ℕ → List ℕ
read_bytes zero ds = []
read_bytes (suc n) ds = number 0 (take 8 ds) ∷ read_bytes n (drop 8 ds)

unfoldable pub read_payload : ℕ → List ℕ → Option (List ℕ)
read_payload version codewords =
    let ds = byte_digits codewords in
    let count = number 0 (take (length_bits version) (drop 4 ds)) in
    if number 0 (take 4 ds) == 4
    then some (read_bytes count (drop (length_bits version) (drop 4 ds)))
    else none

byte_digits-append : (a b : List ℕ) → byte_digits (a ++ b) ≡ byte_digits a ++ byte_digits b
unfolding byte_digits
byte_digits-append [] b = refl
byte_digits-append (x ∷ a) b =
    ap (λ (l : List ℕ). binary 8 x ++ l) (byte_digits-append a b)
    ∙ sym (append_assoc (binary 8 x) (byte_digits a) (byte_digits b))

abbrev pub IsBytes : List ℕ → Type 0
IsBytes = All (λ (b : ℕ). b < 256)

read_bytes-byte_digits :
    (bytes rest : List ℕ)
    → IsBytes bytes
    → read_bytes (length bytes) (byte_digits bytes ++ rest) ≡ bytes
unfolding read_bytes byte_digits
read_bytes-byte_digits [] rest h = refl
read_bytes-byte_digits (b ∷ bytes) rest (hb, h) =
    let split = append_assoc (binary 8 b) (byte_digits bytes) rest in
    let front : take 8 (binary 8 b ++ (byte_digits bytes ++ rest)) ≡ binary 8 b =
      take_append (binary 8 b) _ (length-binary 8 b) in
    let back : drop 8 (binary 8 b ++ (byte_digits bytes ++ rest)) ≡ byte_digits bytes ++ rest =
      drop_append (binary 8 b) _ (length-binary 8 b) in
    let value : number 0 (binary 8 b) ≡ b = number-binary 8 b 0 ∙ omega arith in
    rw (split, front, back, value, read_bytes-byte_digits bytes rest h)

-- The length of the data codewords of a version that the bytes fit.
pub length-data_codewords :
    (bytes : List ℕ) (version : ℕ)
    → fits_version (length bytes) version ≡ true
    → length (data_codewords bytes version) ≡ data_codeword_count version
unfolding data_codewords fits_version bit_stream
length-data_codewords bytes version fit =
    let dc = data_codeword_count version in
    let padded = pad_bits-Padded dc (message_bits bytes version) in
    let bits = pad_bits dc (message_bits bytes version) in
    let rounds = (length bits + 7) / 8 in
    omega (
      arith,
      padded.whole_bytes,
      padded.within,
      leb→le _ _ fit,
      ap length (message_bits-message bytes version),
      length-message bytes version,
      length-append (pack rounds bits) (fill (dc - length (pack rounds bits)) 0),
      length-pack rounds bits,
      length-fill (dc - length (pack rounds bits)) 0,
    )

-- The digits of the data codewords begin with the message.
data_codewords-message :
    (bytes : List ℕ) (version : ℕ)
    → (rest : List ℕ) × (byte_digits (data_codewords bytes version) ≡ message bytes version ++ rest)
unfolding data_codewords bit_stream
data_codewords-message bytes version =
    let dc = data_codeword_count version in
    let padded = pad_bits-Padded dc (message_bits bytes version) in
    let bits = pad_bits dc (message_bits bytes version) in
    let rounds = (length bits + 7) / 8 in
    let filling = fill (dc - length (pack rounds bits)) 0 in
    let same = message_bits-message bytes version in
    let is_message : bits ≡ message bytes version ++ padded.zeros =
      padded.appended ∙ ap (λ (l : List ℕ). l ++ padded.zeros) same in
    let digits : IsDigits bits = subst IsDigits (sym is_message) (
      All-append _ (message bytes version) padded.zeros (message-IsDigits bytes version)
        padded.digits) in
    let whole : length bits ≡ 8 * rounds = omega (arith, padded.whole_bytes) in
    (
      padded.zeros ++ byte_digits filling,
      byte_digits-append (pack rounds bits) filling
          ∙ ap (λ (l : List ℕ). l ++ byte_digits filling)
              (byte_digits-pack rounds bits whole digits ∙ is_message)
          ∙ append_assoc (message bytes version) padded.zeros (byte_digits filling),
    )

-- A reader gets the bytes back from the front of any digits that begin with their message.
read_message :
    (bytes : List ℕ) (version : ℕ) (codewords rest : List ℕ)
    → IsBytes bytes
    → length bytes < 2 ^ length_bits version
    → byte_digits codewords ≡ message bytes version ++ rest
    → read_payload version codewords ≡ some bytes
unfolding read_payload
read_message bytes version codewords rest h small e =
    let lb = length_bits version in
    let field = binary lb (length bytes) in
    let split : message bytes version ++ rest
        ≡ binary 4 4 ++ (field ++ (byte_digits bytes ++ rest)) =
      append_assoc (binary 4 4) (field ++ byte_digits bytes) rest
      ∙ ap (λ (l : List ℕ). binary 4 4 ++ l) (append_assoc field (byte_digits bytes) rest) in
    let all = e ∙ split in
    let mode : take 4 (byte_digits codewords) ≡ binary 4 4 =
      ap (take 4) all ∙ take_append (binary 4 4) _ (length-binary 4 4) in
    let behind : drop 4 (byte_digits codewords) ≡ field ++ (byte_digits bytes ++ rest) =
      ap (drop 4) all ∙ drop_append (binary 4 4) _ (length-binary 4 4) in
    let count : number 0 (take lb (drop 4 (byte_digits codewords))) ≡ length bytes =
      ap (λ (l : List ℕ). number 0 (take lb l)) behind
      ∙ ap (number 0) (take_append field _ (length-binary lb (length bytes)))
      ∙ number-binary lb (length bytes) 0
      ∙ omega (arith, mod-eq_of_lt small) in
    let body : drop lb (drop 4 (byte_digits codewords)) ≡ byte_digits bytes ++ rest =
      ap (drop lb) behind ∙ drop_append field _ (length-binary lb (length bytes)) in
    rw (mode, count, body, number-binary 4 4 0) (ap some (read_bytes-byte_digits bytes rest h))

length_fits_table : all_below 41 (λ v. leb (data_codeword_count v) (2 ^ length_bits v)) ≡ true
unfolding all_below data_codeword_count
length_fits_table = refl

-- The bytes of a text that fits a version up to 40 are counted by its length field.
length-lt-field : (n v : ℕ) → v ≤ 40 → fits_version n v ≡ true → n < 2 ^ length_bits v
unfolding fits_version
length-lt-field n v below fit = omega (
  arith,
  leb→le _ _ fit,
  leb→le _ _ (
      all_below_sound 41 (λ u. leb (data_codeword_count u) (2 ^ length_bits u)) v length_fits_table
        (omega arith)),
)

-- For the version that `pickVersion` chooses, the data codewords of any list of bytes fill the version's
-- capacity exactly, and a reader of byte mode gets the same bytes back from them.
pub read_payload-data_codewords :
    (bytes : List ℕ) (version : ℕ)
    → IsBytes bytes
    → pick_version (length bytes) ≡ ok version
    → (length (data_codewords bytes version) ≡ data_codeword_count version)
      × (read_payload version (data_codewords bytes version) ≡ some bytes)
read_payload-data_codewords bytes version h chosen =
    let (s, below) = pick_version-IsSmallest (length bytes) version chosen in
    let (rest, e) = data_codewords-message bytes version in
    (
      length-data_codewords bytes version s.fits,
      read_message bytes version (data_codewords bytes version) rest h
          (length-lt-field (length bytes) version below s.fits) e,
    )
