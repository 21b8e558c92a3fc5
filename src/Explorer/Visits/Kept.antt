-- ===== src/Explorer/Visits/Kept.antt =====
-- What an answer keeps: the waitings lead where their visit leads, and the page shows that or waits for it.
use bitcoin_lisp.Prelude.{
  pick, skipping, ℕ, zero, suc, ◌<◌, List, [], ◌∷◌, Bool, true, false, ◌==◌, Option, none, some,
  Outcome, ok, err, some_of, All, ◌≡◌, refl, ap, ◌∙◌, arith, Bool-cases, inl, inr, ◌⊎◌, Text, ◌||◌,
}
use bitcoin_lisp.Explorer.Visits.{
  Visit, Shown, Outside, Ask, Waiting, Screen, hash_at, block_of, tx_of, arrive, begin, answer,
  hash_answer, block_answer, tx_answer, carry_on, deliver, deliver_picked, handle, block_failed,
}

same : (n m : ℕ) → (n == m) ≡ true → n ≡ m
same n m h = ground arith

pub self : (n : ℕ) → (n == n) ≡ true
self n = ground arith

not_below : (n m : ℕ) → (n == m) ≡ true → ¬ (n < m)
not_below n m h l = ground arith

pub or_left : {a : Bool} (b : Bool) → a ≡ true → (a || b) ≡ true
or_left b h = rw h refl

swap_or : (a b c : Bool) → (a || (b || c)) ≡ (b || (a || c))
swap_or true true c = refl
swap_or true false c = refl
swap_or false b c = refl

module _ {B T : Type 0} (outside : Outside B T) where
  abbrev pub lead_from : ℕ → Outcome Text Text → Shown B T
  lead_from page (ok hash) = block_answer outside page (outside.get_block (outside.to_lower hash))
  lead_from page (err e) = block_failed e

  -- What an ask leads to when nothing else happens.
  unfoldable pub lead_to : Ask → Shown B T
  lead_to (hash_at digits page) = lead_from page (outside.get_block_hash digits)
  lead_to (block_of hash page) = block_answer outside page (outside.get_block hash)
  lead_to (tx_of txid) = tx_answer outside (outside.get_tx txid)

  abbrev pub result_of : Shown B T × Option Ask → Shown B T
  result_of (display, none) = display
  result_of (display, some ask) = lead_to ask

  -- What a visit shows in the end when it is alone.
  unfoldable pub result : Visit → Shown B T
  result v = result_of (begin outside v)

  abbrev settled : Outcome Ask (Shown B T) → Shown B T
  settled (err ask) = lead_to ask
  settled (ok display) = display

  hash_answer-settled :
      (page : ℕ) (r : Outcome Text Text) → settled (hash_answer outside page r) ≡ lead_from page r
  unfolding lead_to
  hash_answer-settled page (ok hash) = refl
  hash_answer-settled page (err e) = refl

  answer-settled : (ask : Ask) → settled (answer outside ask) ≡ lead_to ask
  unfolding answer lead_to
  answer-settled (hash_at digits page) = hash_answer-settled page (outside.get_block_hash digits)
  answer-settled (block_of hash page) = refl
  answer-settled (tx_of txid) = refl

  -- A waiting of an earlier visit, or one of the current visit that leads to what it is to show.
  abbrev pub IsOnTime : ℕ → Visit → Waiting → Type 0
  IsOnTime epoch v w = (w.my < epoch) ⊎ ((w.my ≡ epoch) × (lead_to w.ask ≡ result v))

  abbrev pub is_current : ℕ → Waiting → Bool
  is_current epoch w = w.my == epoch

  -- The page shows what the visit leads to, or still what it began with, and then an answer for it is to come.
  abbrev pub IsLatest : Visit → Screen B T → Type 0
  IsLatest v s =
      (s.display ≡ result v)
      ⊎ ((s.display ≡ (begin outside v).0) × (some_of (is_current s.epoch) s.waiting ≡ true))

  abbrev pub IsKept : Visit → Screen B T → Type 0
  IsKept v s = All (IsOnTime s.epoch v) s.waiting × IsLatest v s

  -- What holds of the waiting that was picked and of the others.
  abbrev pub Picked : (Waiting → List Waiting → Type 0) → Option (Waiting × List Waiting) → Type 0
  Picked Q none = Unit
  Picked Q (some (w, rest)) = Q w rest

  abbrev pub IsSplit :
      (Waiting → Type 0) → (Waiting → Bool) → Bool → Waiting → List Waiting → Type 0
  IsSplit P p b w rest = P w × All P rest × ((p w || some_of p rest) ≡ b)

  skipping-Picked :
      (P : Waiting → Type 0) (p : Waiting → Bool) (b : Bool) (x : Waiting)
      (r : Option (Waiting × List Waiting))
      → P x
      → Picked (IsSplit P p b) r
      → Picked (IsSplit P p (p x || b)) (skipping x r)
  skipping-Picked P p b x none px h = tt
  skipping-Picked P p b x (some (w, rest)) px (pw, all, e) =
      (pw, (px, all), swap_or (p w) (p x) (some_of p rest) ∙ ap (λ c. p x || c) e)

  pub pick-Picked :
      (P : Waiting → Type 0) (p : Waiting → Bool) (n : ℕ) (ws : List Waiting)
      → All P ws
      → Picked (IsSplit P p (some_of p ws)) (pick n ws)
  pick-Picked P p n [] h = tt
  pick-Picked P p zero (x ∷ ws) h = (h.0, h.1, refl)
  pick-Picked P p (suc n) (x ∷ ws) h =
      skipping-Picked P p (some_of p ws) x (pick n ws) h.0 (pick-Picked P p n ws h.1)

  carry_on-IsKept :
      (v : Visit) (my : ℕ) (r : Outcome Ask (Shown B T)) (s : Screen B T)
      → (my == s.epoch) ≡ true
      → settled r ≡ result v
      → All (IsOnTime s.epoch v) s.waiting
      → (s.display ≡ result v) ⊎ (s.display ≡ (begin outside v).0)
      → IsKept v (carry_on outside my r s)
  carry_on-IsKept v my (err ask) s t e all (inl h) = ((inr (same my s.epoch t, e), all), inl h)
  carry_on-IsKept v my (err ask) s t e all (inr h) =
      ((inr (same my s.epoch t, e), all), inr (h, or_left _ t))
  carry_on-IsKept v my (ok display) s t e all h = (all, inl e)

  still :
      (v : Visit) (s : Screen B T) (b : Bool)
      → (s.display ≡ result v) ⊎ ((s.display ≡ (begin outside v).0) × (b ≡ true))
      → (s.display ≡ result v) ⊎ (s.display ≡ (begin outside v).0)
  still v s b (inl h) = inl h
  still v s b (inr h) = inr h.0

  deliver-IsKept :
      (v : Visit) (w : Waiting) (s : Screen B T)
      → IsOnTime s.epoch v w
      → All (IsOnTime s.epoch v) s.waiting
      → (s.display ≡ result v)
        ⊎ ((s.display ≡ (begin outside v).0)
            × ((is_current s.epoch w || some_of (is_current s.epoch) s.waiting) ≡ true))
      → IsKept v (deliver outside w s)
  unfolding deliver
  deliver-IsKept v w s on all h = elim (Bool-cases (w.my == s.epoch)) [
    | inl t ↦ rw t (elim on [
      | inl lt ↦ absurd (not_below w.my s.epoch t lt)
      | inr (e, f) ↦
          carry_on-IsKept v w.my (answer outside w.ask) s t (answer-settled w.ask ∙ f) all
            (still v s _ h)
    ])
    | inr f ↦ rw f (elim h [ inl a ↦ (all, inl a) | inr (a, b) ↦ (all, inr (a, rw f at b)) ])
  ]

  deliver_picked-IsKept :
      (v : Visit) (s : Screen B T) (r : Option (Waiting × List Waiting))
      → IsKept v s
      → Picked
          (IsSplit
            (IsOnTime s.epoch v)
            (is_current s.epoch)
            (some_of (is_current s.epoch) s.waiting))
          r
      → IsKept v (deliver_picked outside r s)
  deliver_picked-IsKept v s none h q = h
  deliver_picked-IsKept v s (some (w, rest)) (all, inl h) (on, others, e) =
      deliver-IsKept v w (record s { waiting = rest }) on others (inl h)
  deliver_picked-IsKept v s (some (w, rest)) (all, inr (h, b)) (on, others, e) =
      deliver-IsKept v w (record s { waiting = rest }) on others (inr (h, e ∙ b))

  pub arrive-IsKept :
      (v : Visit) (n : ℕ) (s : Screen B T) → IsKept v s → IsKept v (handle outside (arrive n) s)
  unfolding handle
  arrive-IsKept v n s h =
      deliver_picked-IsKept v s (pick n s.waiting) h
        (pick-Picked (IsOnTime s.epoch v) (is_current s.epoch) n s.waiting h.0)
