-- ===== src/Format/Durations.antt =====
-- What the numbers of a duration say of the seconds.
use bitcoin_lisp.Prelude.{ℕ, ◌+◌, ◌*◌, ◌≤◌, ◌<◌, arith}
use bitcoin_lisp.Format.{Duration, seconds, minutes, hours, days, duration}

-- The seconds that a duration shows, and the length of its smallest unit.
unfoldable pub seconds_of : Duration → ℕ
seconds_of (seconds s) = s
seconds_of (minutes m s) = 60 * m + s
seconds_of (hours h m) = 3600 * h + 60 * m
seconds_of (days d h) = 86400 * d + 3600 * h

unfoldable pub unit_of : Duration → ℕ
unit_of (seconds s) = 1
unit_of (minutes m s) = 1
unit_of (hours h m) = 60
unit_of (days d h) = 3600

-- The numbers are in their ranges: no larger unit would have been due, and the second number is below its base.
unfoldable pub InRange : Duration → Type 0
InRange (seconds s) = s < 60
InRange (minutes m s) = (1 ≤ m) × (m < 60) × (s < 60)
InRange (hours h m) = (1 ≤ h) × (h < 48) × (m < 60)
InRange (days d h) = (2 ≤ d) × (h < 24)

abbrev pub IsRoundedDown : ℕ → Duration → Type 0
IsRoundedDown s d = InRange d × (seconds_of d ≤ s) × (s < seconds_of d + unit_of d)

-- The duration of any number of seconds has its numbers in their ranges, and shows these seconds rounded down to its
-- smallest unit.
pub duration-IsRoundedDown : (s : ℕ) → IsRoundedDown s (duration s)
unfolding duration seconds_of unit_of InRange
duration-IsRoundedDown s = ground arith
