-- ===== src/Wallet/Address.antt =====
-- ui/js/wallet.js: `validateAddress` and its two expressions. `toLowerCase` is written out for the units that
-- the first expression can accept: A to Z and the Kelvin sign; no other unit becomes one of them.
use bitcoin_lisp.Prelude.{
  ℕ, ◌+◌, [], ◌∷◌, map, Bool, false, not, ◌&&◌, ◌||◌, leb, ◌==◌, if◌then◌else◌, Outcome, ok, err,
  length, every_of, some_of, drop, Text, codes, starts_with, is_space, trim,
}

pub data AddressError : Type 0 where
  address_required has_spaces not_recognized : AddressError

abbrev lower : ℕ → ℕ
lower c = if leb b'A' c && leb c b'Z' then c + 32 else if c == 0x212a then b'k' else c

abbrev among : Text → ℕ → Bool
among set c = some_of (λ d. d == c) set

abbrev counted : ℕ → ℕ → (ℕ → Bool) → Text → Bool
counted low high p s = leb low (length s) && leb (length s) high && every_of p s

bech32_char : ℕ → Bool
bech32_char = among (codes "qpzry9x8gf2tvdw0s3jn54khce6mua7l")

abbrev behind : Text → Text → Bool
behind a prefix = starts_with a prefix && counted 6 100 bech32_char (drop (length prefix) a)

-- BECH32_RE
unfoldable pub is_bech32 : Text → Bool
unfolding bech32_char
is_bech32 a = behind a (codes "bc1") || behind a (codes "tb1") || behind a (codes "bcrt1")

base58_char : ℕ → Bool
base58_char c =
    leb b'1' c && leb c b'9'
    || leb b'A' c && leb c b'H'
    || leb b'J' c && leb c b'N'
    || leb b'P' c && leb c b'Z'
    || leb b'a' c && leb c b'k'
    || leb b'm' c && leb c b'z'

-- BASE58_RE
unfoldable pub is_base58 : Text → Bool
unfolding base58_char
is_base58 [] = false
is_base58 (c ∷ a) = among (codes "123mn") c && counted 25 39 base58_char a

unfoldable pub address_of : Text → Outcome AddressError Text
address_of [] = err address_required
address_of (c ∷ cs) =
    if some_of is_space (c ∷ cs)
    then err has_spaces
    else if not (is_bech32 (map lower (c ∷ cs))) && not (is_base58 (c ∷ cs))
    then err not_recognized
    else ok (c ∷ cs)

unfoldable pub validate_address : Text → Outcome AddressError Text
validate_address input = address_of (trim input)
