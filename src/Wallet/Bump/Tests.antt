-- ===== src/Wallet/Bump/Tests.antt =====
-- A fee bump with a rate of 50: a preview, and the two clicks on its button.
use bitcoin_lisp.Prelude.{
  ℕ, ◌+◌, ◌≤◌, ◌<◌, List, [], ◌∷◌, none, some, ok, Text, codes, length, ◌≡◌, refl, ◌⊎◌, true,
}
use bitcoin_lisp.Peers.Armed.{click, after_press, runs}
use bitcoin_lisp.Wallet.Unlock.{encryption_state}
use bitcoin_lisp.Wallet.Bump.{
  BumpNode, BumpEvent, type_rate, press_preview, press_panel, resume, handle_bumps, handle_bump,
  bump_params, begin_preview, resume_stage, ask_preview, preview_answer, ask_bump, press_nth,
  press_one,
}
use bitcoin_lisp.Wallet.Bump.Counted.{panel_clicks}
use bitcoin_lisp.Wallet.Bump.Reviewed.{fresh_bump, handle_bumps-IsConfirmed}

abbrev bump_node : BumpNode ℕ
bump_node = record {
  walletinfo = some (record { private_keys_enabled = true; unlocked_until = none });
  unlocked = ok tt;
  build = ok (record { origfee = some 100; fee = some 200; psbt = codes "cHNidP" });
  bump = ok (codes "ff");
}

-- The rate is typed anew between the preview and the confirm, and is what is sent.
abbrev retyped : List (BumpEvent ℕ)
retyped =
    type_rate (codes "50")
    ∷ press_preview
    ∷ resume 0 bump_node
    ∷ resume 0 bump_node
    ∷ resume 0 bump_node
    ∷ press_panel 0 click
    ∷ type_rate (codes "500")
    ∷ press_panel 0 click
    ∷ resume 0 bump_node
    ∷ []

abbrev bump_txid : Text
bump_txid = codes "aa"

retyped_sent :
    (handle_bumps {M = ℕ} length bump_txid retyped (fresh_bump length bump_txid)).sent
    ≡ (bump_txid, some 3) ∷ []
unfolding handle_bumps handle_bump begin_preview resume_stage ask_preview preview_answer ask_bump
    press_nth press_one bump_params encryption_state after_press runs
retyped_sent = refl

handle_bumps-IsConfirmed_example :
    let s = handle_bumps {M = ℕ} length bump_txid retyped (fresh_bump length bump_txid) in
    (length s.sent + length s.sent ≤ panel_clicks retyped)
    × ((length s.sent ≡ 0) ⊎ (0 < length s.previews))
handle_bumps-IsConfirmed_example = handle_bumps-IsConfirmed length bump_txid retyped
