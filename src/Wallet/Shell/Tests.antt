-- ===== src/Wallet/Shell/Tests.antt =====
-- A page with two wallets, one of which is unloaded.
use bitcoin_lisp.Prelude.{
  ℕ, List, [], ◌∷◌, true, false, none, some, ok, err, Text, codes, text_eq, ◌≡◌, refl,
}
use bitcoin_lisp.Wallet.Listing.{listed, refresh_wallet_list, selection}
use bitcoin_lisp.Wallet.Unlock.{WalletInfo}
use bitcoin_lisp.Wallet.Security.{overview}
use bitcoin_lisp.Wallet.Book.{BookNode}
use bitcoin_lisp.Wallet.PsbtTab.{quiet}
use bitcoin_lisp.Wallet.Send.{blank}
use bitcoin_lisp.Wallet.Shell.{
  WalletShell, Event, poll, select, open_tab, arrive, Answers, reset_wallet, handle_all, handle,
  begin_refresh, select_wallet, show_tab, deliver_stage, list_answer, dispatch, fetch_for, fetched,
  overview_answer,
}
use bitcoin_lisp.Wallet.Shell.Kept.{IsOwn}
use bitcoin_lisp.Wallet.Shell.Own.{IsQuiet, handle_all-IsOwn}

abbrev info_of : Text → WalletInfo
info_of name = record { private_keys_enabled = text_eq name (codes "a"); unlocked_until = none }

abbrev node : BookNode ℕ
node = record {
  list_labels = err (codes "down");
  describe = λ labels. err (codes "down");
  infos = λ addresses. err (codes "down");
  set_label = λ address label. err (codes "down");
}

abbrev answers_with : List Text → Answers Text ℕ ℕ
answers_with names = record {
  list_wallets = listed names;
  list_wallet_dir = some (codes "a" ∷ codes "b" ∷ []);
  overview_batch =
      λ name. some (record { balances = ok name; walletinfo = ok (info_of name); height = ok 5 });
  list_transactions = λ name params. ok [];
  book_node = λ name. node;
  get_wallet_info = λ name. ok (info_of name);
}

abbrev two_wallets : Answers Text ℕ ℕ
two_wallets = answers_with (codes "a" ∷ codes "b" ∷ [])

abbrev one_wallet : Answers Text ℕ ℕ
one_wallet = answers_with (codes "a" ∷ [])

abbrev first_page : WalletShell Text ℕ ℕ ℕ ℕ
first_page = record {
  stored = none;
  listing = record {
    disabled = false;
    wallets = [];
    selected = none;
    has_info = false;
    unloaded = none;
  };
  tab = overview;
  balances = none;
  walletinfo = none;
  chain_height = none;
  overview_error = none;
  sec_error = none;
  history_tab = record {
    page = 0;
    entries = [];
    has_more = false;
    expanded = none;
    details = [];
    error = none;
  };
  book = record { rows = []; error = none };
  receive_tab = record { receive = none; error = none; button_disabled = false };
  psbt_tab = record { loaded = none; message = quiet; result = none };
  compose = record {
    recipients = blank;
    conf_target = 6;
    rbf = true;
    sffo = false;
    preview = none;
    result = none;
    reviewing = false;
    row_refs = blank;
    cleaned = [];
    send_error = none;
    built = [];
  };
  refreshing = false;
  waiting = [];
}

-- The second wallet is selected while the list is waited for, and unloaded before the next poll.
abbrev session : List (Event Text ℕ ℕ)
session =
    open_tab false (some overview)
    ∷ select false (codes "b")
    ∷ arrive 0 two_wallets
    ∷ arrive 0 two_wallets
    ∷ poll false
    ∷ arrive 0 two_wallets
    ∷ poll false
    ∷ arrive 0 one_wallet
    ∷ arrive 0 one_wallet
    ∷ []

unloaded_b : (handle_all session (reset_wallet first_page)).balances ≡ none
unfolding handle_all handle reset_wallet show_tab select_wallet begin_refresh deliver_stage
    list_answer refresh_wallet_list selection dispatch fetch_for fetched overview_answer
unloaded_b = refl

told :
    (name : Text) → ((name ≡ name) × (info_of name ≡ info_of name)) × (info_of name ≡ info_of name)
told name = ((refl, refl), refl)

handle_all-IsOwn_example :
    IsOwn
      (λ name b. b ≡ name)
      (λ name i. i ≡ info_of name)
      (handle_all session (reset_wallet first_page))
unfolding IsQuiet handle_all handle reset_wallet show_tab select_wallet begin_refresh deliver_stage
    list_answer refresh_wallet_list selection dispatch fetch_for fetched overview_answer
handle_all-IsOwn_example =
    handle_all-IsOwn (λ name b. b ≡ name) (λ name i. i ≡ info_of name) session first_page refl
      (tt, (tt, (told, (told, (tt, (told, (tt, (told, (told, tt))))))))) (refl, tt)
