-- ===== src/Format/Tests.antt =====
-- A duration of each form, and a shortened id.
use bitcoin_lisp.Wallet.Amount.{decimal_in}
use bitcoin_lisp.Prelude.{codes, ◌≡◌, refl}
use bitcoin_lisp.Format.{fmt_duration, duration}
use bitcoin_lisp.Format.Durations.{IsRoundedDown, duration-IsRoundedDown}

three_days : fmt_duration 273600 ≡ codes "3d 4h"
unfolding fmt_duration duration decimal_in
three_days = refl

seven_minutes : fmt_duration 423 ≡ codes "7m 03s"
unfolding fmt_duration duration decimal_in
seven_minutes = refl

duration-IsRoundedDown_example : IsRoundedDown 423 (duration 423)
duration-IsRoundedDown_example = duration-IsRoundedDown 423
