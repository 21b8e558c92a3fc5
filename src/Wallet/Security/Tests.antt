-- ===== src/Wallet/Security/Tests.antt =====
-- A prompt that another one replaces, and the parts of the page behind a list of wallets.
use bitcoin_lisp.Prelude.{
  List, [], ◌∷◌, true, false, none, some, ok, codes, ◌≡◌, refl, first, some_of, In,
}
use bitcoin_lisp.Wallet.Amount.{pos}
use bitcoin_lisp.Wallet.Security.{
  Event, close_sec_panel, handle, handle_all, finish_form, open_sec_panel, prompt_unlock, send,
  prompted, answered, choose_tab,
}
use bitcoin_lisp.Wallet.Forms.{Inputs, other, unlock, note_of}
use bitcoin_lisp.Wallet.Security.Prompts.{fresh, settled_ids, count_down, handle_all-Settles}
use bitcoin_lisp.Wallet.Security.Earned.{unlocks, handle_all-unlocks}
use bitcoin_lisp.Wallet.Listing.{WalletList, listed, refresh_wallet_list, selection}
use bitcoin_lisp.Wallet.Visibility.{visible, expected, refresh_wallet_list-visible}

abbrev typed : Inputs
typed = record {
  old_pass = [];
  pass = codes "secret";
  confirm = [];
  timeout = some (pos 300);
  destination = [];
  name = [];
  file = [];
  disable_private_keys = false;
  blank = false;
}

abbrev twice : List Event
twice =
    choose_tab send
    ∷ prompted
    ∷ prompted
    ∷ answered (unlock (some 1)) typed (ok other) none
    ∷ prompted
    ∷ []

twice_settled : (handle_all twice fresh).settled ≡ (1, true) ∷ (0, false) ∷ []
unfolding handle_all handle prompt_unlock open_sec_panel close_sec_panel finish_form note_of
twice_settled = refl

handle_all-Settles_example :
    settled_ids (close_sec_panel (handle_all twice fresh)).settled
    ≡ count_down (handle_all twice fresh).raised
handle_all-Settles_example = handle_all-Settles twice

told : In (1, true) (handle_all twice fresh).settled
unfolding handle_all handle prompt_unlock open_sec_panel close_sec_panel finish_form note_of
told = first refl

handle_all-unlocks_example : some_of (unlocks 1) twice ≡ true
handle_all-unlocks_example = handle_all-unlocks twice 1 told

abbrev at_start : WalletList
at_start = record {
  disabled = false;
  wallets = [];
  selected = none;
  has_info = false;
  unloaded = none;
}

abbrev with_main : WalletList
with_main = record at_start { wallets = codes "main" ∷ []; selected = some (codes "main") }

main_listed : refresh_wallet_list none none (listed (codes "main" ∷ [])) at_start ≡ some with_main
unfolding refresh_wallet_list selection
main_listed = refl

refresh_wallet_list-visible_example :
    visible with_main none send ≡ expected (listed (codes "main" ∷ [])) none send
refresh_wallet_list-visible_example =
    refresh_wallet_list-visible none none (listed (codes "main" ∷ [])) at_start with_main none send
      main_listed
