-- ===== src/Wallet/Amount.antt =====
-- ui/js/wallet.js: `normalizeAmount` and `fmtSatsBtc`. A BigInt is a natural number here.
pub mod Printed
pub mod RoundTrip
use bitcoin_lisp.Prelude.{
  ℕ, ◌+◌, ◌-◌, ◌*◌, [], ◌∷◌, ◌++◌, ◌&&◌, ltb, ◌==◌, if◌then◌else◌, Option, none, some, Outcome, ok,
  err, length, replicate, codes, every_of, take, Text, is_digit, trim, suc, ◌/◌, ◌%◌, zero,
}

pub data AmountError : Type 0 where
  amount_required not_a_number too_many_decimals not_positive exceeds_max : AmountError

-- `value` is the decimal text that goes to the node, `sats` the exact number of satoshis.
pub record Amount : Type 0 where
  pub value : Text
  pub sats : ℕ

abbrev pub max_money_sats : ℕ
max_money_sats = 2100000000000000

-- `BigInt(digits)`, from the left.
unfoldable pub big_int : ℕ → Text → ℕ
big_int acc [] = acc
big_int acc (c ∷ cs) = big_int (acc * 10 + (c - b'0')) cs

-- The text in front of the first dot, and what stands behind it when there is a dot.
unfoldable pub split_dot : Text → Text × Option Text
split_dot [] = ([], none)
split_dot (c ∷ cs) =
    let rest = split_dot cs in if c == b'.' then ([], some cs) else (c ∷ rest.0, rest.1)

abbrev pub or_zero : Text → Text
or_zero [] = b'0' ∷ []
or_zero (c ∷ cs) = c ∷ cs

abbrev pub zeros : Text
zeros = b'0' ∷ b'0' ∷ b'0' ∷ b'0' ∷ b'0' ∷ b'0' ∷ b'0' ∷ b'0' ∷ []

abbrev pub value_text : Text → Text → Text
value_text whole [] = or_zero whole
value_text whole (c ∷ frac) = or_zero whole ++ b'.' ∷ c ∷ frac

-- The value of a whole part and a fraction of digits.
unfoldable pub amount_of : Text → Text → Outcome AmountError Amount
amount_of whole frac =
    let sats = big_int 0 (or_zero whole) * 100000000 + big_int 0 (take 8 (frac ++ zeros)) in
    if ltb 8 (length frac)
    then err too_many_decimals
    else if sats == 0
    then err not_positive
    else if ltb max_money_sats sats
    then err exceeds_max
    else ok (record { value = value_text whole frac; sats = sats })

-- `/^\d*\.?\d*$/` and `s !== '.'`, on the two parts.
unfoldable pub of_parts : Text → Option Text → Outcome AmountError Amount
of_parts whole none = if every_of is_digit whole then amount_of whole [] else err not_a_number
of_parts [] (some []) = err not_a_number
of_parts whole (some frac) =
    if every_of is_digit whole && every_of is_digit frac
    then amount_of whole frac
    else err not_a_number

unfoldable pub of_trimmed : Text → Outcome AmountError Amount
of_trimmed [] = err amount_required
of_trimmed (c ∷ cs) = let parts = split_dot (c ∷ cs) in of_parts parts.0 parts.1

unfoldable pub normalize_amount : Text → Outcome AmountError Amount
normalize_amount input = of_trimmed (trim input)

-- A BigInt that may be negative: `negsuc n` is -(n + 1).
pub data ℤ : Type 0 where
  pos negsuc : ℕ → ℤ

-- `toString()` of a number, with fuel that is not below it.
unfoldable pub decimal_in : ℕ → ℕ → Text
decimal_in zero n = (b'0' + n) ∷ []
decimal_in (suc fuel) n =
    let longer = decimal_in fuel (n / 10) ++ (b'0' + n % 10) ∷ [] in
    if ltb n 10 then (b'0' + n) ∷ [] else longer

abbrev pub decimal : ℕ → Text
decimal n = decimal_in n n

-- `padStart(8, '0')`
abbrev pub pad_eight : Text → Text
pad_eight s = replicate (8 - length s) b'0' ++ s

abbrev pub magnitude : ℤ → ℕ
magnitude (pos n) = n
magnitude (negsuc n) = suc n

abbrev sign_text : ℤ → Text
sign_text (pos n) = []
sign_text (negsuc n) = b'-' ∷ []

-- The number of whole coins, a dot, and eight decimal places.
unfoldable pub coins_text : ℕ → Text
coins_text a = decimal (a / 100000000) ++ b'.' ∷ pad_eight (decimal (a % 100000000))

unfoldable pub fmt_sats_btc : ℤ → Text
fmt_sats_btc sats = sign_text sats ++ coins_text (magnitude sats) ++ codes " BTC"
