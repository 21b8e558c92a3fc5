-- ===== src/Peers/Armed.antt =====
-- ui/js/peers.js, ui/js/wallet.js: `armedButton`, which acts only on a second click.
use bitcoin_lisp.Prelude.{ℕ, suc, ◌+◌, ◌≤◌, List, [], ◌∷◌, arith}

-- `working` is the time in which the button is disabled.
pub data Phase : Type 0 where
  idle armed working : Phase

pub data Press : Type 0 where
  click timeout finished : Press

-- The timer of four seconds is cleared by the second click and by `disarm`, so it fires on an armed button only.
unfoldable pub after_press : Press → Phase → Phase
after_press click idle = armed
after_press click armed = working
after_press click working = working
after_press timeout armed = idle
after_press timeout idle = idle
after_press timeout working = working
after_press finished working = idle
after_press finished idle = idle
after_press finished armed = armed

-- The calls of `run` in the step.
unfoldable pub runs : Press → Phase → ℕ
runs click armed = 1
runs click idle = 0
runs click working = 0
runs timeout phase = 0
runs finished phase = 0

unfoldable pub run_count : List Press → Phase → ℕ
run_count [] phase = 0
run_count (e ∷ events) phase = runs e phase + run_count events (after_press e phase)

unfoldable pub clicks : List Press → ℕ
clicks [] = 0
clicks (click ∷ events) = suc (clicks events)
clicks (timeout ∷ events) = clicks events
clicks (finished ∷ events) = clicks events

-- The click that an armed button has had.
unfoldable pub had : Phase → ℕ
had armed = 1
had idle = 0
had working = 0

run_count-clicks_from :
    (events : List Press) (phase : Phase)
    → run_count events phase + run_count events phase ≤ clicks events + had phase
unfolding run_count runs after_press clicks had
run_count-clicks_from [] phase = omega arith
run_count-clicks_from (click ∷ events) idle = omega (arith, run_count-clicks_from events armed)
run_count-clicks_from (click ∷ events) armed = omega (arith, run_count-clicks_from events working)
run_count-clicks_from (click ∷ events) working = omega (arith, run_count-clicks_from events working)
run_count-clicks_from (timeout ∷ events) idle = omega (arith, run_count-clicks_from events idle)
run_count-clicks_from (timeout ∷ events) armed = omega (arith, run_count-clicks_from events idle)
run_count-clicks_from (timeout ∷ events) working =
    omega (arith, run_count-clicks_from events working)
run_count-clicks_from (finished ∷ events) idle = omega (arith, run_count-clicks_from events idle)
run_count-clicks_from (finished ∷ events) armed = omega (arith, run_count-clicks_from events armed)
run_count-clicks_from (finished ∷ events) working = omega (arith, run_count-clicks_from events idle)

-- In any sequence of clicks, timers and ends of the action from an idle button, the action runs at most once for every
-- two clicks.
run_count-clicks :
    (events : List Press) → run_count events idle + run_count events idle ≤ clicks events
unfolding had
run_count-clicks events = omega (arith, run_count-clicks_from events idle)
