-- ===== src/Qr/Codewords/Pack.antt =====
-- The data codewords: how many there are, and that the bytes are read back from them.
use bitcoin_lisp.Prelude.Bits.{bit_or-digit}
use bitcoin_lisp.Prelude.{
  ℕ, zero, suc, ◌+◌, ◌-◌, ◌*◌, ◌%◌, ◌≤◌, ◌≡◌, refl, ap, ◌∙◌, sym, arith, List, [], ◌∷◌, ◌++◌,
  append-nil, append_assoc, length, drop, length-append, All-append, for_each, min, ◌==◌,
  if◌then◌else◌, inl, inr, Bool-cases, ==_iff, ◌≢◌,
}
use bitcoin_lisp.Qr.Version.{length_bits}
use bitcoin_lisp.Qr.Codewords.Digits.{
  binary, number, IsDigits, put_bits-binary, length-binary, binary-IsDigits, binary-number,
}
use bitcoin_lisp.Qr.Codewords.{put_bits, message_bits, pad_bits, pack_byte, pack, fill}

-- The digits of a list of bytes.
unfoldable pub byte_digits : List ℕ → List ℕ
byte_digits [] = []
byte_digits (b ∷ bytes) = binary 8 b ++ byte_digits bytes

length-byte_digits : (bytes : List ℕ) → length (byte_digits bytes) ≡ 8 * length bytes
unfolding byte_digits
length-byte_digits [] = refl
length-byte_digits (b ∷ bytes) = omega (
  arith,
  length-append (binary 8 b) (byte_digits bytes),
  length-binary 8 b,
  length-byte_digits bytes,
)

pub byte_digits-IsDigits : (bytes : List ℕ) → IsDigits (byte_digits bytes)
unfolding byte_digits
byte_digits-IsDigits [] = tt
byte_digits-IsDigits (b ∷ bytes) =
    All-append _ (binary 8 b) (byte_digits bytes) (binary-IsDigits 8 b) (byte_digits-IsDigits bytes)

put_bytes-byte_digits :
    (bytes bits : List ℕ)
    → for_each bytes (λ b bits. put_bits b 8 bits) bits ≡ bits ++ byte_digits bytes
unfolding byte_digits
put_bytes-byte_digits [] bits = sym (append-nil bits)
put_bytes-byte_digits (b ∷ bytes) bits =
    put_bytes-byte_digits bytes (put_bits b 8 bits)
    ∙ ap (λ (l : List ℕ). l ++ byte_digits bytes) (put_bits-binary b 8 bits)
    ∙ append_assoc bits (binary 8 b) (byte_digits bytes)

-- The stream before the padding.
abbrev pub message : List ℕ → ℕ → List ℕ
message bytes version =
    binary 4 4 ++ (binary (length_bits version) (length bytes) ++ byte_digits bytes)

pub length-message :
    (bytes : List ℕ) (version : ℕ)
    → length (message bytes version) ≡ 4 + length_bits version + 8 * length bytes
length-message bytes version = omega (
  arith,
  length-append (binary 4 4) (binary (length_bits version) (length bytes) ++ byte_digits bytes),
  length-append (binary (length_bits version) (length bytes)) (byte_digits bytes),
  length-binary 4 4,
  length-binary (length_bits version) (length bytes),
  length-byte_digits bytes,
)

pub message_bits-message :
    (bytes : List ℕ) (version : ℕ) → message_bits bytes version ≡ message bytes version
unfolding message_bits
message_bits-message bytes version =
    put_bytes-byte_digits bytes _
    ∙ ap (λ (l : List ℕ). l ++ byte_digits bytes)
        (put_bits-binary (length bytes) (length_bits version) (put_bits 4 4 [])
          ∙ ap (λ (l : List ℕ). l ++ binary (length_bits version) (length bytes))
              (put_bits-binary 4 4 []))
    ∙ append_assoc (binary 4 4) (binary (length_bits version) (length bytes)) (byte_digits bytes)

put_zeros : (c : ℕ) (bits : List ℕ) → put_bits 0 c bits ≡ bits ++ binary c 0
put_zeros c bits = put_bits-binary 0 c bits

-- What `pad_bits` adds.
pub record Padded (data_count : ℕ) (bits padded : List ℕ) : Type 0 where
  pub zeros : List ℕ
  pub appended : padded ≡ bits ++ zeros
  pub digits : IsDigits zeros
  pub whole_bytes : length padded % 8 ≡ 0
  pub within : length bits ≤ data_count * 8 → length padded ≤ data_count * 8

module _ (c data_count : ℕ) (bits ended : List ℕ) (ec : c ≡ min 4 (data_count * 8 - length bits))
    (e : ended ≡ bits ++ binary c 0) where
  length-ended : length ended ≡ length bits + c
  length-ended = omega (arith, ap length e, length-append bits (binary c 0), length-binary c 0)

  whole-Padded : length ended % 8 ≡ 0 → Padded data_count bits ended
  whole-Padded whole = record {
    zeros = binary c 0;
    appended = e;
    digits = binary-IsDigits c 0;
    whole_bytes = whole;
    within = λ h. omega (arith, length-ended);
  }

  part-Padded :
      (rest : ℕ) (padded : List ℕ)
      → rest ≡ 8 - length ended % 8
      → padded ≡ ended ++ binary rest 0
      → length ended % 8 ≢ 0
      → Padded data_count bits padded
  part-Padded rest padded er ep ne =
      let len : length padded ≡ length ended + rest =
        omega (arith, ap length ep, length-append ended (binary rest 0), length-binary rest 0) in
      record {
        zeros = binary c 0 ++ binary rest 0;
        appended =
            ep
            ∙ ap (λ (l : List ℕ). l ++ binary rest 0) e
            ∙ append_assoc bits (binary c 0) (binary rest 0);
        digits =
            All-append _ (binary c 0) (binary rest 0) (binary-IsDigits c 0)
              (binary-IsDigits rest 0);
        whole_bytes = omega (arith, len);
        within = λ h. omega (arith, len, length-ended);
      }

  terminated :
      Padded data_count bits
        (if length ended % 8 == 0 then ended else put_bits 0 (8 - length ended % 8) ended)
  terminated = elim (Bool-cases (length ended % 8 == 0)) [
    | inl whole ↦ rw whole (whole-Padded ((==_iff _ 0).0 whole))
    | inr part ↦ rw part (part-Padded _ _ refl (put_zeros _ ended) (ground arith))
  ]

pub pad_bits-Padded :
    (data_count : ℕ) (bits : List ℕ) → Padded data_count bits (pad_bits data_count bits)
unfolding pad_bits
pad_bits-Padded data_count bits =
    terminated (min 4 (data_count * 8 - length bits)) data_count bits _ refl (put_zeros _ bits)

pub length-pack : (rounds : ℕ) (bits : List ℕ) → length (pack rounds bits) ≡ rounds
unfolding pack
length-pack zero bits = refl
length-pack (suc rounds) bits = ap suc (length-pack rounds (drop 8 bits))

pub length-fill : (rounds i : ℕ) → length (fill rounds i) ≡ rounds
unfolding fill
length-fill zero i = refl
length-fill (suc rounds) i = ap suc (length-fill rounds (suc i))

pack_byte-digits :
    (a b c d e f g h : ℕ) (rest : List ℕ)
    → IsDigits (a ∷ b ∷ c ∷ d ∷ e ∷ f ∷ g ∷ h ∷ [])
    → binary 8 (pack_byte (a ∷ b ∷ c ∷ d ∷ e ∷ f ∷ g ∷ h ∷ rest))
      ≡ a ∷ b ∷ c ∷ d ∷ e ∷ f ∷ g ∷ h ∷ []
unfolding pack_byte number
pack_byte-digits a b c d e f g h rest ds =
    rw
      (
        bit_or-digit 0 a ds.0,
        bit_or-digit (0 * 2 + a) b ds.1.0,
        bit_or-digit _ c ds.1.1.0,
        bit_or-digit _ d ds.1.1.1.0,
        bit_or-digit _ e ds.1.1.1.1.0,
        bit_or-digit _ f ds.1.1.1.1.1.0,
        bit_or-digit _ g ds.1.1.1.1.1.1.0,
        bit_or-digit _ h ds.1.1.1.1.1.1.1.0,
      )
      (binary-number (a ∷ b ∷ c ∷ d ∷ e ∷ f ∷ g ∷ h ∷ []) 0 ds)

-- Packing whole bytes loses no digit.
pub byte_digits-pack :
    (k : ℕ) (bits : List ℕ) → length bits ≡ 8 * k → IsDigits bits → byte_digits (pack k bits) ≡ bits
unfolding pack byte_digits
byte_digits-pack zero [] e h = refl
byte_digits-pack zero (a ∷ bits) e h = absurd (omega arith)
byte_digits-pack (suc k) (a ∷ b ∷ c ∷ d ∷ e ∷ f ∷ g ∷ i ∷ bits) n ds = rw (
  pack_byte-digits a b c d e f g i bits (omega arith),
  byte_digits-pack k bits (omega arith) ds.1.1.1.1.1.1.1.1,
)
byte_digits-pack (suc k) _ n ds = absurd (omega arith)

pub message-IsDigits : (bytes : List ℕ) (version : ℕ) → IsDigits (message bytes version)
message-IsDigits bytes version =
    All-append _ (binary 4 4) (binary (length_bits version) (length bytes) ++ byte_digits bytes)
      (binary-IsDigits 4 4)
      (All-append _ (binary (length_bits version) (length bytes)) (byte_digits bytes)
        (binary-IsDigits (length_bits version) (length bytes)) (byte_digits-IsDigits bytes))
