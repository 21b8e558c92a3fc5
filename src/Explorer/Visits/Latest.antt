-- ===== src/Explorer/Visits/Latest.antt =====
-- What the page shows behind the last navigation, whatever answers come and in whatever order.
use bitcoin_lisp.Prelude.{
  pick, ℕ, suc, ◌≤◌, List, [], ◌∷◌, ◌++◌, map, Bool, true, false, ◌==◌, if◌then◌else◌, Option, none,
  some, Outcome, ok, err, some_of, All, ◌≡◌, refl, arith, inl, inr,
}
use bitcoin_lisp.Explorer.Visits.{
  Visit, Shown, Outside, Ask, Waiting, Screen, Event, go_to, arrive, nothing, begin, ask_for, visit,
  answer, carry_on, deliver, deliver_picked, handle, handle_all,
}
use bitcoin_lisp.Explorer.Visits.Kept.{
  or_left, self, result, IsLatest, IsOnTime, IsKept, Picked, IsSplit, pick-Picked, arrive-IsKept,
}

abbrev pub IsPast : ℕ → List Waiting → Type 0
IsPast epoch ws = All (λ w. w.my ≤ epoch) ws

module _ {B T : Type 0} (outside : Outside B T) where
  abbrev IsSettled : Screen B T → Type 0
  IsSettled s = IsPast s.epoch s.waiting

  deliver-IsSettled :
      (w : Waiting) (s : Screen B T)
      → w.my ≤ s.epoch
      → IsSettled s
      → IsSettled (deliver outside w s)
  unfolding deliver
  deliver-IsSettled w s le h = go (w.my == s.epoch)
    where
      carried : (r : Outcome Ask (Shown B T)) → IsSettled (carry_on outside w.my r s)
      carried (err ask) = (le, h)
      carried (ok display) = h

      go : (b : Bool) → IsSettled (if b then carry_on outside w.my (answer outside w.ask) s else s)
      go true = carried (answer outside w.ask)
      go false = h

  deliver_picked-IsSettled :
      (s : Screen B T) (r : Option (Waiting × List Waiting))
      → IsSettled s
      → Picked outside
          (IsSplit outside (λ w. w.my ≤ s.epoch) (λ w. true) (some_of (λ w. true) s.waiting))
          r
      → IsSettled (deliver_picked outside r s)
  deliver_picked-IsSettled s none h q = h
  deliver_picked-IsSettled s (some (w, rest)) h (le, others, e) =
      deliver-IsSettled w (record s { waiting = rest }) le others

  older : (n : ℕ) (ws : List Waiting) → IsPast n ws → IsPast (suc n) ws
  older n [] h = tt
  older n (w ∷ ws) h = (omega (arith, h.0), older n ws h.1)

  ask_for-IsPast :
      (n : ℕ) (a : Option Ask) (ws : List Waiting) → IsPast n ws → IsPast n (ask_for n a ++ ws)
  ask_for-IsPast n none ws h = h
  ask_for-IsPast n (some a) ws h = (omega arith, h)

  handle-IsSettled : (e : Event) (s : Screen B T) → IsSettled s → IsSettled (handle outside e s)
  unfolding handle visit
  handle-IsSettled (go_to v) s h =
      ask_for-IsPast (suc s.epoch) (begin outside v).1 s.waiting (older s.epoch s.waiting h)
  handle-IsSettled (arrive n) s h =
      deliver_picked-IsSettled s (pick n s.waiting) h
        (pick-Picked outside (λ w. w.my ≤ s.epoch) (λ w. true) n s.waiting h)

  handle_all-IsSettled :
      (events : List Event) (s : Screen B T) → IsSettled s → IsSettled (handle_all outside events s)
  unfolding handle_all
  handle_all-IsSettled [] s h = h
  handle_all-IsSettled (e ∷ events) s h =
      handle_all-IsSettled events (handle outside e s) (handle-IsSettled e s h)

  past-OnTime :
      (n : ℕ) (v : Visit) (ws : List Waiting) → IsPast n ws → All (IsOnTime outside (suc n) v) ws
  past-OnTime n v [] h = tt
  past-OnTime n v (w ∷ ws) h = (inl (omega (arith, h.0)), past-OnTime n v ws h.1)

  visit-IsKept : (v : Visit) (s : Screen B T) → IsSettled s → IsKept outside v (visit outside v s)
  unfolding visit result
  visit-IsKept v s h = go (begin outside v) refl
    where
      go :
          (r : Shown B T × Option Ask)
          → begin outside v ≡ r
          → IsKept outside v (record s {
            epoch = suc s.epoch;
            display = r.0;
            waiting = ask_for (suc s.epoch) r.1 ++ s.waiting;
          })
      go (display, none) e = (past-OnTime s.epoch v s.waiting h, inl (rw e refl))
      go (display, some ask) e = (
        (inr (refl, rw e refl), past-OnTime s.epoch v s.waiting h),
        inr (rw e refl, or_left _ (self (suc s.epoch))),
      )

  arrivals-IsKept :
      (v : Visit) (ns : List ℕ) (s : Screen B T)
      → IsKept outside v s
      → IsKept outside v (handle_all outside (map arrive ns) s)
  unfolding handle_all
  arrivals-IsKept v [] s h = h
  arrivals-IsKept v (n ∷ ns) s h =
      arrivals-IsKept v ns (handle outside (arrive n) s) (arrive-IsKept outside v n s h)

  abbrev pub blank : Screen B T
  blank = record { epoch = 0; display = nothing; waiting = [] }

  -- After any navigations and answers in any order, a last navigation, and any further answers, late ones of earlier
  -- navigations among them: the page shows what the last navigation leads to by itself, or still what it began with, and
  -- then the node owes it an answer.
  pub handle_all-IsLatest :
      (events : List Event) (v : Visit) (ns : List ℕ)
      → IsLatest outside v
          (handle_all outside (map arrive ns) (visit outside v (handle_all outside events blank)))
  unfolding handle_all
  handle_all-IsLatest events v ns =
      (arrivals-IsKept v ns (visit outside v (handle_all outside events blank))
        (visit-IsKept v (handle_all outside events blank) (handle_all-IsSettled events blank tt))).1
