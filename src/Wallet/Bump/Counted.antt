-- ===== src/Wallet/Bump/Counted.antt =====
-- How often bumpfee is called: the clicks are paid with, two for each call.
use bitcoin_lisp.Prelude.{
  ℕ, zero, suc, ◌+◌, ◌≤◌, List, [], ◌∷◌, ◌++◌, Bool, true, false, Option, none, some, Outcome, ok,
  err, Text, pick, length, ◌≡◌, refl, arith,
}
use bitcoin_lisp.Peers.Armed.{
  Phase, Press, click, timeout, finished, idle, armed, working, after_press, runs, had,
}
use bitcoin_lisp.Wallet.Bump.{
  Bump, BumpPanel, BumpStage, BumpNode, BumpEvent, Built, info_asked, unlocking_bump, bump_asked,
  unlocking_preview, preview_asked, type_rate, press_preview, press_panel, resume, none_or_one,
  begin_preview, ask_preview, preview_answer, ask_bump, bump_answer, resume_stage, resume_nth,
  press_one, pressed_panel, press_nth, open_on, handle_bump, handle_bumps,
}
use bitcoin_lisp.Wallet.Bump.Stages.{is_confirm, confirms, IsSplit, pick-IsSplit}

abbrev pub clicks_of : {M : Type 0} → BumpEvent M → ℕ
clicks_of (press_panel n click) = 1
clicks_of (press_panel n timeout) = 0
clicks_of (press_panel n finished) = 0
clicks_of (type_rate text) = 0
clicks_of press_preview = 0
clicks_of (resume n node) = 0

-- The clicks on the buttons of the previews.
unfoldable pub panel_clicks : {M : Type 0} → List (BumpEvent M) → ℕ
panel_clicks [] = 0
panel_clicks (e ∷ events) = clicks_of e + panel_clicks events

abbrev press_clicks : Press → ℕ
press_clicks click = 1
press_clicks timeout = 0
press_clicks finished = 0

abbrev had_all : {M : Type 0} → List (BumpPanel M) → ℕ
had_all [] = 0
had_all (p ∷ panels) = had p.phase + had_all panels

press-had :
    (e : Press) (phase : Phase) (ws : List BumpStage)
    → confirms (none_or_one (runs e phase) ++ ws)
        + confirms (none_or_one (runs e phase) ++ ws)
        + had (after_press e phase)
      ≤ confirms ws + confirms ws + had phase + press_clicks e
unfolding after_press runs had
press-had click idle ws = omega arith
press-had click armed ws = omega arith
press-had click working ws = omega arith
press-had timeout idle ws = omega arith
press-had timeout armed ws = omega arith
press-had timeout working ws = omega arith
press-had finished idle ws = omega arith
press-had finished armed ws = omega arith
press-had finished working ws = omega arith

had_all-append :
    {M : Type 0} (ps : List (BumpPanel M)) (p : BumpPanel M)
    → had_all (ps ++ p ∷ []) ≡ had_all ps + had p.phase
had_all-append [] p = omega arith
had_all-append (q ∷ ps) p = omega (arith, had_all-append ps p)

module _ {N M : Type 0} (number : Text → N) (txid : Text) where
  -- Twice the calls that were made or are confirmed, and the clicks that armed a button.
  abbrev weight_with : Bump N M → List (BumpPanel M) → ℕ
  weight_with s panels =
      length s.sent + length s.sent + (confirms s.waiting + confirms s.waiting) + had_all panels

  abbrev pub weight : Bump N M → ℕ
  weight s = weight_with s s.panels

  open_on-weight :
      (e : Press) (text : Text) (s : Bump N M) (panels : List (BumpPanel M))
      → weight_with (open_on number txid e text s) panels ≡ weight_with s panels
  open_on-weight click text s panels = refl
  open_on-weight timeout text s panels = refl
  open_on-weight finished text s panels = refl

  pressed_panel-weight :
      (b : Bool) (e : Press) (p : BumpPanel M) (s : Bump N M) (panels : List (BumpPanel M))
      → let r = pressed_panel number txid b e p s in
        weight_with r.1 (r.0 ∷ panels) ≤ weight_with s (p ∷ panels) + press_clicks e
  pressed_panel-weight true e p s panels =
      omega (arith, open_on-weight e p.built.psbt s (p ∷ panels))
  pressed_panel-weight false e p s panels = omega (arith, press-had e p.phase s.waiting)

  press_nth-weight :
      (e : Press) (n : ℕ) (panels : List (BumpPanel M)) (s : Bump N M)
      → let r = press_nth number txid e n panels s in
        weight_with r.1 r.0 ≤ weight_with s panels + press_clicks e
  unfolding press_nth press_one
  press_nth-weight e n [] s = omega arith
  press_nth-weight e zero (p ∷ panels) s = pressed_panel-weight p.watch_only e p s panels
  press_nth-weight e (suc n) (p ∷ panels) s = omega (arith, press_nth-weight e n panels s)

  resume_stage-weight :
      (stage : BumpStage) (node : BumpNode M) (s : Bump N M)
      → weight (resume_stage number txid stage node s)
        ≤ weight s + (is_confirm stage + is_confirm stage)
  unfolding resume_stage ask_preview preview_answer ask_bump bump_answer had
  resume_stage-weight info_asked node s = omega arith
  resume_stage-weight (unlocking_preview watch) node s = go node.unlocked
    where
      go : (r : Outcome Text Unit) → weight (ask_preview number txid watch r s) ≤ weight s + 0
      go (err e) = omega arith
      go (ok u) = omega arith
  resume_stage-weight (preview_asked watch) node s = go node.build
    where
      go :
          (r : Outcome Text (Built M))
          → weight (preview_answer number txid watch r s) ≤ weight s + 0
      go (err e) = omega arith
      go (ok b) =
          omega (
            arith,
            had_all-append s.panels (record { built = b; watch_only = watch; phase = idle }),
          )
  resume_stage-weight unlocking_bump node s = go node.unlocked
    where
      go : (r : Outcome Text Unit) → weight (ask_bump number txid r s) ≤ weight s + 2
      go (err e) = omega arith
      go (ok u) = omega arith
  resume_stage-weight bump_asked node s = go node.bump
    where
      go : (r : Outcome Text Text) → weight (bump_answer number txid r s) ≤ weight s + 0
      go (err e) = omega arith
      go (ok id) = omega arith

  resume_nth-weight :
      (r : Option (BumpStage × List BumpStage)) (node : BumpNode M) (s : Bump N M)
      → IsSplit (confirms s.waiting) r
      → weight (resume_nth number txid r node s) ≤ weight s
  resume_nth-weight none node s h = omega arith
  resume_nth-weight (some (stage, rest)) node s h =
      omega (arith, h, resume_stage-weight stage node (record s { waiting = rest }))

  handle_bump-weight :
      (e : BumpEvent M) (s : Bump N M)
      → weight (handle_bump number txid e s) ≤ weight s + clicks_of e
  unfolding handle_bump begin_preview
  handle_bump-weight (type_rate text) s = omega arith
  handle_bump-weight press_preview s = omega arith
  handle_bump-weight (press_panel n click) s = omega (arith, press_nth-weight click n s.panels s)
  handle_bump-weight (press_panel n timeout) s =
      omega (arith, press_nth-weight timeout n s.panels s)
  handle_bump-weight (press_panel n finished) s =
      omega (arith, press_nth-weight finished n s.panels s)
  handle_bump-weight (resume n node) s =
      omega (arith, resume_nth-weight (pick n s.waiting) node s (pick-IsSplit n s.waiting))

  pub handle_bumps-weight :
      (events : List (BumpEvent M)) (s : Bump N M)
      → weight (handle_bumps number txid events s) ≤ weight s + panel_clicks events
  unfolding handle_bumps panel_clicks
  handle_bumps-weight [] s = omega arith
  handle_bumps-weight (e ∷ events) s =
      omega
        (arith, handle_bump-weight e s, handle_bumps-weight events (handle_bump number txid e s))
