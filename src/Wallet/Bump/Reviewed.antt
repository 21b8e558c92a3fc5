-- ===== src/Wallet/Bump/Reviewed.antt =====
-- That bumpfee is called only behind a preview and two clicks.
use bitcoin_lisp.Prelude.{
  ℕ, zero, suc, ◌+◌, ◌≤◌, ◌<◌, List, [], ◌∷◌, ◌++◌, Bool, true, false, Option, none, some, Outcome,
  ok, err, Text, pick, length, ◌≡◌, arith, ◌⊎◌, inr, inl,
}
use bitcoin_lisp.Peers.Armed.{Press, click, timeout, finished, idle}
use bitcoin_lisp.Wallet.Bump.{
  Bump, BumpPanel, BumpStage, BumpNode, BumpEvent, Built, info_asked, unlocking_bump, bump_asked,
  unlocking_preview, preview_asked, type_rate, press_preview, press_panel, resume, begin_preview,
  ask_preview, preview_answer, ask_bump, bump_answer, resume_stage, resume_nth, press_one,
  pressed_panel, press_nth, open_on, handle_bump, handle_bumps,
}
use bitcoin_lisp.Wallet.Bump.Stages.{is_confirm, confirms, IsSplit, pick-IsSplit}
use bitcoin_lisp.Wallet.Bump.Counted.{panel_clicks, handle_bumps-weight}

-- The panel of a wallet that can sign has an armed button.
abbrev pub arms : Bool → ℕ
arms true = 0
arms false = 1

abbrev pub armed_buttons : {M : Type 0} → List (BumpPanel M) → ℕ
armed_buttons [] = 0
armed_buttons (p ∷ panels) = arms p.watch_only + armed_buttons panels

armed_buttons-append :
    {M : Type 0} (ps : List (BumpPanel M)) (p : BumpPanel M)
    → armed_buttons (ps ++ p ∷ []) ≡ armed_buttons ps + arms p.watch_only
armed_buttons-append [] p = omega arith
armed_buttons-append (q ∷ ps) p = omega (arith, armed_buttons-append ps p)

still : (a b c : ℕ) → a ≡ b → (b ≡ 0) ⊎ (0 < c) → (a ≡ 0) ⊎ (0 < c)
still a b c e (inl z) = inl (omega (arith, e, z))
still a b c e (inr l) = inr l

module _ {N M : Type 0} (number : Text → N) (txid : Text) where
  abbrev spent : Bump N M → ℕ
  spent s = length s.sent + confirms s.waiting

  -- At least so many previews were shown, and nothing is spent without one.
  abbrev IsCovered : ℕ → Bump N M → Type 0
  IsCovered n s = (n ≤ length s.previews) × ((spent s ≡ 0) ⊎ (0 < length s.previews))

  abbrev IsReviewed : Bump N M → Type 0
  IsReviewed s = IsCovered (armed_buttons s.panels) s

  open_on-IsCovered :
      (e : Press) (text : Text) (n : ℕ) (s : Bump N M)
      → IsCovered n s
      → IsCovered n (open_on number txid e text s)
  open_on-IsCovered click text n s h = h
  open_on-IsCovered timeout text n s h = h
  open_on-IsCovered finished text n s h = h

  fewer : (n m : ℕ) (s : Bump N M) → m ≤ n → IsCovered n s → IsCovered m s
  fewer n m s le (a, b) = (omega (arith, le, a), b)

  pressed_panel-IsCovered :
      (b : Bool) (e : Press) (p : BumpPanel M) (s : Bump N M) (k m : ℕ)
      → IsCovered (k + (arms p.watch_only + m)) s
      → IsCovered (k + (arms b + m)) s
      → let r = pressed_panel number txid b e p s in IsCovered (k + (arms r.0.watch_only + m)) r.1
  pressed_panel-IsCovered true e p s k m h c =
      open_on-IsCovered e p.built.psbt (k + (arms p.watch_only + m)) s h
  pressed_panel-IsCovered false e p s k m h c = (h.0, inr (omega (arith, c.0)))

  press_nth-IsCovered :
      (e : Press) (n : ℕ) (panels : List (BumpPanel M)) (s : Bump N M) (k : ℕ)
      → IsCovered (k + armed_buttons panels) s
      → let r = press_nth number txid e n panels s in IsCovered (k + armed_buttons r.0) r.1
  unfolding press_nth press_one
  press_nth-IsCovered e n [] s k h = h
  press_nth-IsCovered e zero (p ∷ panels) s k h =
      pressed_panel-IsCovered p.watch_only e p s k (armed_buttons panels) h h
  press_nth-IsCovered e (suc n) (p ∷ panels) s k h =
      let r = press_nth number txid e n panels s in
      fewer (k + arms p.watch_only + armed_buttons r.0)
        (k + (arms p.watch_only + armed_buttons r.0)) r.1 (omega arith)
        (press_nth-IsCovered e n panels s (k + arms p.watch_only) (
          fewer (k + (arms p.watch_only + armed_buttons panels))
            (k + arms p.watch_only + armed_buttons panels) s (omega arith) h))

  -- One more stage that is no confirm.
  waited :
      (s : Bump N M)
      → (spent s ≡ 0) ⊎ (0 < length s.previews)
      → (length s.sent + (0 + confirms s.waiting) ≡ 0) ⊎ (0 < length s.previews)
  waited s h =
      still (length s.sent + (0 + confirms s.waiting)) (spent s) (length s.previews) (omega arith) h

  resume_stage-IsReviewed :
      (stage : BumpStage) (node : BumpNode M) (s : Bump N M)
      → IsReviewed s
      → (is_confirm stage ≡ 0) ⊎ (0 < length s.previews)
      → IsReviewed (resume_stage number txid stage node s)
  unfolding resume_stage ask_preview preview_answer ask_bump bump_answer
  resume_stage-IsReviewed info_asked node s h c = (h.0, waited s h.1)
  resume_stage-IsReviewed (unlocking_preview watch) node s h c = go node.unlocked
    where
      go : (r : Outcome Text Unit) → IsReviewed (ask_preview number txid watch r s)
      go (err e) = h
      go (ok u) = (h.0, waited s h.1)
  resume_stage-IsReviewed (preview_asked watch) node s h c = go node.build watch
    where
      go : (r : Outcome Text (Built M)) (w : Bool) → IsReviewed (preview_answer number txid w r s)
      go (err e) w = h
      go (ok b) true = (
        omega (
          arith,
          h.0,
          armed_buttons-append s.panels (record { built = b; watch_only = true; phase = idle }),
        ),
        h.1,
      )
      go (ok b) false = (
        omega (
          arith,
          h.0,
          armed_buttons-append s.panels (record { built = b; watch_only = false; phase = idle }),
        ),
        inr (omega arith),
      )
  resume_stage-IsReviewed unlocking_bump node s h (inl e) = absurd (omega (arith, e))
  resume_stage-IsReviewed unlocking_bump node s h (inr c) = go node.unlocked
    where
      go : (r : Outcome Text Unit) → IsReviewed (ask_bump number txid r s)
      go (err e) = h
      go (ok u) = (h.0, inr c)
  resume_stage-IsReviewed bump_asked node s h c = go node.bump
    where
      go : (r : Outcome Text Text) → IsReviewed (bump_answer number txid r s)
      go (err e) = h
      go (ok id) = (omega arith, h.1)

  resume_nth-IsReviewed :
      (r : Option (BumpStage × List BumpStage)) (node : BumpNode M) (s : Bump N M)
      → IsSplit (confirms s.waiting) r
      → IsReviewed s
      → IsReviewed (resume_nth number txid r node s)
  resume_nth-IsReviewed none node s e h = h
  resume_nth-IsReviewed (some (stage, rest)) node s e (few, inr c) =
      resume_stage-IsReviewed stage node (record s { waiting = rest }) (few, inr c) (inr c)
  resume_nth-IsReviewed (some (stage, rest)) node s e (few, inl none_spent) =
      resume_stage-IsReviewed stage node (record s { waiting = rest })
        (few, inl (omega (arith, e, none_spent))) (inl (omega (arith, e, none_spent)))

  handle_bump-IsReviewed :
      (e : BumpEvent M) (s : Bump N M) → IsReviewed s → IsReviewed (handle_bump number txid e s)
  unfolding handle_bump begin_preview
  handle_bump-IsReviewed (type_rate text) s h = h
  handle_bump-IsReviewed press_preview s h = (omega arith, waited s h.1)
  handle_bump-IsReviewed (press_panel n e) s h =
      let r = press_nth number txid e n s.panels s in
      fewer (0 + armed_buttons r.0) (armed_buttons r.0) r.1 (omega arith) (
        press_nth-IsCovered e n s.panels s 0
          (fewer (armed_buttons s.panels) (0 + armed_buttons s.panels) s (omega arith) h))
  handle_bump-IsReviewed (resume n node) s h =
      resume_nth-IsReviewed (pick n s.waiting) node s (pick-IsSplit n s.waiting) h

  handle_bumps-IsReviewed :
      (events : List (BumpEvent M)) (s : Bump N M)
      → IsReviewed s
      → IsReviewed (handle_bumps number txid events s)
  unfolding handle_bumps
  handle_bumps-IsReviewed [] s h = h
  handle_bumps-IsReviewed (e ∷ events) s h =
      handle_bumps-IsReviewed events (handle_bump number txid e s) (handle_bump-IsReviewed e s h)

  abbrev pub fresh_bump : Bump N M
  fresh_bump = record {
    rate = [];
    error = none;
    panels = [];
    replaced = none;
    waiting = [];
    previewed = none;
    previews = [];
    sent = [];
    opened = none;
  }

  -- After any rates that are typed, presses and answers in any order, from fresh controls: bumpfee was called at most once
  -- for every two clicks on the buttons of the previews, and not before a preview was shown for a wallet that can sign.
  pub handle_bumps-IsConfirmed :
      (events : List (BumpEvent M))
      → let s = handle_bumps number txid events fresh_bump in
        (length s.sent + length s.sent ≤ panel_clicks events)
        × ((length s.sent ≡ 0) ⊎ (0 < length s.previews))
  handle_bumps-IsConfirmed events =
      let s = handle_bumps number txid events fresh_bump in
      (
        omega (arith, handle_bumps-weight number txid events fresh_bump),
        unspent s (handle_bumps-IsReviewed events fresh_bump (omega arith, inl (omega arith))).1,
      )
    where
      unspent :
          (s : Bump N M)
          → (spent s ≡ 0) ⊎ (0 < length s.previews)
          → (length s.sent ≡ 0) ⊎ (0 < length s.previews)
      unspent s (inl e) = inl (omega (arith, e))
      unspent s (inr l) = inr l
