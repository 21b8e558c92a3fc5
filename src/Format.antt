-- ===== src/Format.antt =====
-- ui/js/format.js: `fmtDuration` of a number of seconds that was rounded, and `shortHash` and `shortId`.
pub mod Durations
pub mod Short
mod Tests
use bitcoin_lisp.Prelude.{
  ℕ, zero, suc, ◌+◌, ◌-◌, ◌*◌, ◌/◌, ◌%◌, List, [], ◌∷◌, ◌++◌, Bool, ltb, leb, if◌then◌else◌, length,
  take, drop, Text, codes,
}
use bitcoin_lisp.Wallet.Amount.{decimal}

-- The four forms of a duration: the numbers that stand in it.
pub data Duration : Type 0 where
  seconds : ℕ → Duration
  minutes : ℕ → ℕ → Duration
  hours : ℕ → ℕ → Duration
  days : ℕ → ℕ → Duration

unfoldable pub duration : ℕ → Duration
duration s =
    let m = s / 60 in
    let h = m / 60 in
    if ltb s 60
    then seconds s
    else if ltb m 60
    then minutes m (s % 60)
    else if ltb h 48
    then hours h (m % 60)
    else days (h / 24) (h % 24)

-- `padStart(2, '0')`
abbrev pad_two : Text → Text
pad_two [] = codes "00"
pad_two (c ∷ []) = b'0' ∷ c ∷ []
pad_two (c ∷ d ∷ cs) = c ∷ d ∷ cs

abbrev printed : Duration → Text
printed (seconds s) = decimal s ++ codes "s"
printed (minutes m s) = decimal m ++ codes "m " ++ pad_two (decimal s) ++ codes "s"
printed (hours h m) = decimal h ++ codes "h " ++ pad_two (decimal m) ++ codes "m"
printed (days d h) = decimal d ++ codes "d " ++ decimal h ++ codes "h"

unfoldable pub fmt_duration : ℕ → Text
fmt_duration s = printed (duration s)

abbrev pub ellipsis : Text
ellipsis = 0x2026 ∷ []

abbrev dash : Text
dash = 0x2014 ∷ []

-- `slice(-n)`: the last n characters, and all of them for 0.
abbrev pub last_of : ℕ → Text → Text
last_of zero s = s
last_of (suc n) s = drop (length s - suc n) s

unfoldable pub short_hash : Text → ℕ → Text
short_hash [] tail = dash
short_hash (c ∷ cs) tail =
    if leb (length (c ∷ cs)) tail then c ∷ cs else ellipsis ++ last_of tail (c ∷ cs)

unfoldable pub short_id : Text → ℕ → Text
short_id [] ends = dash
short_id (c ∷ cs) ends =
    if leb (length (c ∷ cs)) (2 * ends + 1)
    then c ∷ cs
    else take ends (c ∷ cs) ++ ellipsis ++ last_of ends (c ∷ cs)
