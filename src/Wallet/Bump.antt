-- ===== src/Wallet/Bump.antt =====
-- ui/js/wallet.js: `bumpFeeControls`, and `bumpParams` of ui/js/wallet-psbt.js. The two actions are cut at their awaits;
-- the unlock prompt is one of them. `N` is the type of a fee rate as a number, `number` is Number of a text, and `M` is
-- the type of amounts. The button of a preview is the one of Peers.Armed, whose timer and whose end of
-- the action are presses.
pub mod Stages
pub mod Counted
pub mod Reviewed
mod Tests
use bitcoin_lisp.Prelude.{
  ℕ, zero, suc, ◌+◌, List, [], ◌∷◌, ◌++◌, Bool, true, false, if◌then◌else◌, Option, none, some,
  Outcome, ok, err, Text, pick,
}
use bitcoin_lisp.Peers.Armed.{Phase, Press, click, timeout, finished, idle, after_press, runs}
use bitcoin_lisp.Wallet.Unlock.{WalletInfo, EncryptionState, no_keys, encryption_state}

-- The parameters of bumpfee: the transaction's id, and the fee rate unless it is blank.
unfoldable pub bump_params : {N : Type 0} → (Text → N) → Text → Text → Text × Option N
bump_params number txid [] = (txid, none)
bump_params number txid (c ∷ rate) = (txid, some (number (c ∷ rate)))

pub record Built (M : Type 0) : Type 0 where
  pub origfee : Option M
  pub fee : Option M
  pub psbt : Text

-- A preview that is shown: for a wallet that cannot sign with a button that opens the PSBT tab, else with an armed one.
pub record BumpPanel (M : Type 0) : Type 0 where
  pub built : Built M
  pub watch_only : Bool
  pub phase : Phase

pub data BumpStage : Type 0 where
  info_asked unlocking_bump bump_asked : BumpStage
  unlocking_preview preview_asked : Bool → BumpStage

-- `previewed` is the last call of psbtbumpfee, `previews` are those that were shown with an armed button and `sent`
-- the parameters of the calls of bumpfee, the last ones first, and `opened` is what went to the PSBT tab.
pub record Bump (N M : Type 0) : Type 0 where
  pub rate : Text
  pub error : Option Text
  pub panels : List (BumpPanel M)
  pub replaced : Option Text
  pub waiting : List BumpStage
  pub previewed : Option (Text × Option N)
  pub previews : List (Built M)
  pub sent : List (Text × Option N)
  pub opened : Option Text

-- What comes of an await: the wallet info by then, the unlock, or an answer.
pub record BumpNode (M : Type 0) : Type 0 where
  pub walletinfo : Option WalletInfo
  pub unlocked : Outcome Text Unit
  pub build : Outcome Text (Built M)
  pub bump : Outcome Text Text

pub data BumpEvent (M : Type 0) : Type 0 where
  type_rate : Text → BumpEvent M
  press_preview : BumpEvent M
  press_panel : ℕ → Press → BumpEvent M
  resume : ℕ → BumpNode M → BumpEvent M

-- `encryptionState(state.walletinfo) === 'no-keys'`
abbrev pub cannot_sign_now : EncryptionState → Bool
cannot_sign_now no_keys = true
cannot_sign_now state = false

abbrev pub shown_if : {M : Type 0} → Bool → Built M → List (Built M)
shown_if true b = []
shown_if false b = b ∷ []

abbrev pub none_or_one : ℕ → List BumpStage
none_or_one zero = []
none_or_one (suc n) = unlocking_bump ∷ []

module _ {N M : Type 0} (number : Text → N) (txid : Text) where
  -- `doPreview`, up to the call of getwalletinfo.
  unfoldable pub begin_preview : Bump N M → Bump N M
  begin_preview s = record s {
    error = none;
    panels = [];
    replaced = none;
    waiting = info_asked ∷ s.waiting;
  }

  -- The rate of the input is read when the call is made.
  unfoldable pub ask_preview : Bool → Outcome Text Unit → Bump N M → Bump N M
  ask_preview watch (err e) s = record s { error = some e }
  ask_preview watch (ok u) s = record s {
    waiting = preview_asked watch ∷ s.waiting;
    previewed = some (bump_params number txid s.rate);
  }

  unfoldable pub preview_answer : Bool → Outcome Text (Built M) → Bump N M → Bump N M
  preview_answer watch (err e) s = record s { error = some e }
  preview_answer watch (ok b) s = record s {
    panels = s.panels ++ record { built = b; watch_only = watch; phase = idle } ∷ [];
    previews = shown_if watch b ++ s.previews;
  }

  -- The action of the armed button, behind the unlock and behind bumpfee.
  unfoldable pub ask_bump : Outcome Text Unit → Bump N M → Bump N M
  ask_bump (err e) s = record s { error = some e }
  ask_bump (ok u) s = record s {
    waiting = bump_asked ∷ s.waiting;
    sent = bump_params number txid s.rate ∷ s.sent;
  }

  unfoldable pub bump_answer : Outcome Text Text → Bump N M → Bump N M
  bump_answer (err e) s = record s { error = some e }
  bump_answer (ok id) s = record s { panels = []; replaced = some id }

  unfoldable pub resume_stage : BumpStage → BumpNode M → Bump N M → Bump N M
  resume_stage info_asked node s = record s {
    waiting = unlocking_preview (cannot_sign_now (encryption_state node.walletinfo)) ∷ s.waiting;
  }
  resume_stage (unlocking_preview watch) node s = ask_preview watch node.unlocked s
  resume_stage (preview_asked watch) node s = preview_answer watch node.build s
  resume_stage unlocking_bump node s = ask_bump node.unlocked s
  resume_stage bump_asked node s = bump_answer node.bump s

  abbrev pub resume_nth : Option (BumpStage × List BumpStage) → BumpNode M → Bump N M → Bump N M
  resume_nth none node s = s
  resume_nth (some (stage, rest)) node s = resume_stage stage node (record s { waiting = rest })

  abbrev pub open_on : Press → Text → Bump N M → Bump N M
  open_on click text s = record s { opened = some text }
  open_on timeout text s = s
  open_on finished text s = s

  -- A press of the button of one panel, for a wallet that cannot sign and for one that can.
  abbrev pub pressed_panel : Bool → Press → BumpPanel M → Bump N M → BumpPanel M × Bump N M
  pressed_panel true e p s = (p, open_on e p.built.psbt s)
  pressed_panel false e p s = (
    record p { phase = after_press e p.phase },
    record s { waiting = none_or_one (runs e p.phase) ++ s.waiting },
  )

  unfoldable pub press_one : Press → BumpPanel M → Bump N M → BumpPanel M × Bump N M
  press_one e p s = pressed_panel p.watch_only e p s

  -- The press of the panel with this number; the panels before it stay.
  unfoldable pub press_nth :
      Press → ℕ → List (BumpPanel M) → Bump N M → List (BumpPanel M) × Bump N M
  press_nth e n [] s = ([], s)
  press_nth e zero (p ∷ panels) s = let r = press_one e p s in (r.0 ∷ panels, r.1)
  press_nth e (suc n) (p ∷ panels) s = let r = press_nth e n panels s in (p ∷ r.0, r.1)

  unfoldable pub handle_bump : BumpEvent M → Bump N M → Bump N M
  handle_bump (type_rate text) s = record s { rate = text }
  handle_bump press_preview s = begin_preview s
  handle_bump (press_panel n e) s = let r = press_nth e n s.panels s in record r.1 { panels = r.0 }
  handle_bump (resume n node) s = resume_nth (pick n s.waiting) node s

  unfoldable pub handle_bumps : List (BumpEvent M) → Bump N M → Bump N M
  handle_bumps [] s = s
  handle_bumps (e ∷ events) s = handle_bumps events (handle_bump e s)
