-- ===== src/Qr/Encode.antt =====
-- ui/js/qr.js: `qrEncode`, with the UTF-8 bytes of the text (TextEncoder) and the choice of the mask.
pub mod Mask
use bitcoin_lisp.Prelude.{
  ℕ, zero, suc, ◌+◌, ◌-◌, ◌*◌, ◌/◌, ◌%◌, List, [], ◌∷◌, ◌++◌, Bool, true, false, ◌&&◌, leb, ltb,
  ◌==◌, if◌then◌else◌, Option, none, some, or_else, Outcome, ok, err, ◌>>=◌, length, Text,
}
use bitcoin_lisp.Qr.Codewords.{build_codewords}
use bitcoin_lisp.Qr.Matrix.Cells.{Grid}
use bitcoin_lisp.Qr.Matrix.{Matrix, base_matrix}
use bitcoin_lisp.Qr.Penalty.{penalty}
use bitcoin_lisp.Qr.Place.{place_data, write_format_and_version}
use bitcoin_lisp.Qr.Version.{QrError, pick_version}

-- The UTF-8 bytes of one code point.
unfoldable pub utf8_point : ℕ → List ℕ
utf8_point p =
    if ltb p 0x80
    then p ∷ []
    else if ltb p 0x800
    then (0xc0 + p / 64) ∷ (0x80 + p % 64) ∷ []
    else if ltb p 0x10000
    then (0xe0 + p / 4096) ∷ (0x80 + p / 64 % 64) ∷ (0x80 + p % 64) ∷ []
    else (0xf0 + p / 0x40000) ∷ (0x80 + p / 4096 % 64) ∷ (0x80 + p / 64 % 64) ∷ (0x80 + p % 64) ∷ []

abbrev is_high : ℕ → Bool
is_high u = leb 0xd800 u && leb u 0xdbff

abbrev is_low : ℕ → Bool
is_low u = leb 0xdc00 u && leb u 0xdfff

-- `new TextEncoder().encode(text)`: a surrogate pair is one code point, a lone one U+FFFD.
unfoldable pub utf8 : Text → List ℕ
unfolding utf8_point
utf8 [] = []
utf8 (u ∷ []) = utf8_point (if is_high u then 0xfffd else if is_low u then 0xfffd else u)
utf8 (u ∷ v ∷ text) =
    let pair = utf8_point (0x10000 + (u - 0xd800) * 0x400 + (v - 0xdc00)) ++ utf8 text in
    let single =
      utf8_point (if is_high u then 0xfffd else if is_low u then 0xfffd else u)
      ++ utf8 (v ∷ text) in
    if is_high u && is_low v then pair else single

-- `placeData` on a matrix of a version always gives a matrix (Place.Keeps).
unfoldable pub placed : Matrix → List ℕ → ℕ → Matrix
placed m codewords mask = or_else (place_data m codewords mask) m

unfoldable pub trial_penalty : ℕ → List ℕ → ℕ → ℕ
trial_penalty version codewords m = penalty (placed (base_matrix version) codewords m).modules

-- The loop over the masks: the best penalty so far (Infinity is `none`) and its mask.
unfoldable pub best_from : ℕ → ℕ → (ℕ → ℕ) → Option (ℕ × ℕ) → Option (ℕ × ℕ)
best_from zero m score best = best
best_from (suc rounds) m score best = best_from rounds (suc m) score (elim best [
  | none ↦ some (score m, m)
  | some (p, mask) ↦ if ltb (score m) p then some (score m, m) else some (p, mask)
])

abbrev pub mask_of : Option (ℕ × ℕ) → ℕ
mask_of none = 0
mask_of (some (p, mask)) = mask

unfoldable pub choose_mask : ℕ → List ℕ → ℕ
choose_mask version codewords = mask_of (best_from 8 0 (trial_penalty version codewords) none)

pub record QrCode : Type 0 where
  pub version : ℕ
  pub size : ℕ
  pub mask : ℕ
  pub modules : Grid

unfoldable pub encode_bytes : List ℕ → Option ℕ → Outcome QrError QrCode
encode_bytes bytes forced_mask = do
  version ← pick_version (length bytes)
  let codewords = build_codewords bytes version
  let mask = or_else forced_mask (choose_mask version codewords)
  let matrix = write_format_and_version (placed (base_matrix version) codewords mask) version mask
  ok (record { version = version; size = matrix.size; mask = mask; modules = matrix.modules })

unfoldable pub qr_encode : Text → Option ℕ → Outcome QrError QrCode
qr_encode text forced_mask = encode_bytes (utf8 text) forced_mask
