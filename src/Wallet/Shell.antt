-- ===== src/Wallet/Shell.antt =====
-- ui/js/wallet.js: `refresh`, `selectWallet`, `show`, `refreshOverview`, `refreshWalletInfo` and `resetWallet`: the page
-- and its poll. A refresh is cut at its awaits: what waits for the node is a `Stage`, and an answer may come at any time.
-- The calls of `refreshBook` are taken as one, at their end. `B` is the type of the answer of getbalances, `T` that of a
-- history entry, `D` of the details of a transaction, `I` of the answer of getaddressinfo and `F` of fee rates.
pub mod Owned
pub mod Kept
pub mod Own
mod Tests
use bitcoin_lisp.Prelude.{
  ℕ, List, [], ◌∷◌, Bool, true, false, ◌||◌, if◌then◌else◌, Option, none, some, or_else, Outcome,
  ok, err, Text, pick,
}
use bitcoin_lisp.Wallet.Listing.{
  WalletList, ListAnswer, HistoryTab, refresh_wallet_list, with_dir, history_params,
  refresh_history,
}
use bitcoin_lisp.Wallet.Security.{Tab, overview, send, receive, history, addresses, psbt, security}
use bitcoin_lisp.Wallet.Unlock.{WalletInfo}
use bitcoin_lisp.Wallet.Book.{Book, BookNode, BookRow, refresh_book}
use bitcoin_lisp.Wallet.Receive.{ReceiveTab}
use bitcoin_lisp.Wallet.PsbtTab.{PsbtTab, quiet}
use bitcoin_lisp.Wallet.Send.{Compose, blank}

abbrev pub history_page_size : ℕ
history_page_size = 25

-- What a tab fetches, with the page of the history.
pub data Fetch : Type 0 where
  overview_fetch book_fetch info_fetch : Fetch
  history_fetch : ℕ → Fetch

-- A call that is waited for; a fetch with the wallet of its endpoint.
pub data Stage : Type 0 where
  wallets_asked dir_asked : Stage
  fetching : Text → Fetch → Stage

-- The answers of a batch of getbalances, getwalletinfo and getblockcount.
pub record Overview (B : Type 0) : Type 0 where
  pub balances : Outcome Text B
  pub walletinfo : Outcome Text WalletInfo
  pub height : Outcome Text ℕ

-- What the node answers at some moment, by the wallet of the endpoint. A batch that is `none` was thrown on, and so was a
-- directory, whose picker then stays.
pub record Answers (B T I : Type 0) : Type 0 where
  pub list_wallets : ListAnswer
  pub list_wallet_dir : Option (List Text)
  pub overview_batch : Text → Option (Overview B)
  pub list_transactions : Text → ℕ × ℕ → Outcome Text (List T)
  pub book_node : Text → BookNode I
  pub get_wallet_info : Text → Outcome Text WalletInfo

-- `stored` is the wallet's name in the session storage.
pub record WalletShell (B T D I F : Type 0) : Type 0 where
  pub stored : Option Text
  pub listing : WalletList
  pub tab : Tab
  pub balances : Option B
  pub walletinfo : Option WalletInfo
  pub chain_height : Option ℕ
  pub overview_error : Option Text
  pub sec_error : Option Text
  pub history_tab : HistoryTab T D
  pub book : Book I
  pub receive_tab : ReceiveTab I
  pub psbt_tab : PsbtTab
  pub compose : Compose F
  pub refreshing : Bool
  pub waiting : List Stage

-- What happens on the page; the Boolean says that its view is off the screen.
pub data Event (B T I : Type 0) : Type 0 where
  poll : Bool → Event B T I
  select : Bool → Text → Event B T I
  open_tab : Bool → Option Tab → Event B T I
  log_out : Event B T I
  arrive : ℕ → Answers B T I → Event B T I

abbrev pub kept_if : {A : Type 0} → Bool → Option A → Option A
kept_if true x = x
kept_if false x = none

abbrev pub known_or : {A : Type 0} → Option A → Outcome Text A → Option A
known_or old (ok x) = some x
known_or old (err e) = old

abbrev pub error_of : {A : Type 0} → Outcome Text A → Option Text
error_of (ok x) = none
error_of (err e) = some e

-- `a.error || b.error`
abbrev first_error : Option Text → Option Text → Option Text
first_error (some e) other = some e
first_error none other = other

-- `if (name) sessionStorage.setItem(WALLET_KEY, name)`
abbrev remembered : Text → Option Text → Option Text
remembered [] old = old
remembered (c ∷ name) old = some (c ∷ name)

-- `name || null`
abbrev name_or_null : Text → Option Text
name_or_null [] = none
name_or_null (c ∷ name) = some (c ∷ name)

abbrev is_empty : {A : Type 0} → List A → Bool
is_empty [] = true
is_empty (x ∷ xs) = false

-- `freshSend` and what `selectWallet` shows with it; the calls that were built stay.
unfoldable pub fresh_send : {F : Type 0} → Compose F → Compose F
fresh_send old = record {
  recipients = blank;
  conf_target = 6;
  rbf = true;
  sffo = false;
  preview = none;
  result = none;
  reviewing = false;
  row_refs = blank;
  cleaned = [];
  send_error = none;
  built = old.built;
}

module _ {B T D I F : Type 0} where
  -- `refresh`, up to its first call.
  unfoldable pub begin_refresh : Bool → WalletShell B T D I F → WalletShell B T D I F
  begin_refresh hidden s =
      if hidden || s.refreshing
      then s
      else record s { refreshing = true; waiting = wallets_asked ∷ s.waiting }

  unfoldable pub select_wallet : Bool → Text → WalletShell B T D I F → WalletShell B T D I F
  select_wallet hidden name s = begin_refresh hidden (record s {
    stored = remembered name s.stored;
    listing = record s.listing { selected = name_or_null name; has_info = false };
    balances = none;
    walletinfo = none;
    history_tab = record s.history_tab {
      page = 0;
      entries = [];
      has_more = false;
      expanded = none;
      details = [];
    };
    book = record s.book { rows = [] };
    receive_tab = record s.receive_tab { receive = none; error = none };
    psbt_tab = record s.psbt_tab { loaded = none };
    compose = fresh_send s.compose;
  })

  -- `resetWallet`; the page is built anew, with no error shown. The calls that are waited for are not dropped.
  unfoldable pub reset_wallet : WalletShell B T D I F → WalletShell B T D I F
  reset_wallet s = record {
    stored = s.stored;
    listing = record {
      disabled = false;
      wallets = [];
      selected = none;
      has_info = false;
      unloaded = none;
    };
    tab = overview;
    balances = none;
    walletinfo = none;
    chain_height = none;
    overview_error = none;
    sec_error = none;
    history_tab = record {
      page = 0;
      entries = [];
      has_more = false;
      expanded = none;
      details = [];
      error = none;
    };
    book = record { rows = []; error = none };
    receive_tab = record { receive = none; error = none; button_disabled = false };
    psbt_tab = record { loaded = none; message = quiet; result = none };
    compose = fresh_send s.compose;
    refreshing = false;
    waiting = s.waiting;
  }

  -- `show`, for a page that is built; a tab that is none of the seven is the overview.
  unfoldable pub show_tab : Bool → Option Tab → WalletShell B T D I F → WalletShell B T D I F
  show_tab hidden wanted s = begin_refresh hidden (record s { tab = or_else wanted overview })

  -- The `finally`.
  abbrev pub end_refresh : WalletShell B T D I F → WalletShell B T D I F
  end_refresh s = record s { refreshing = false }

  -- What the tab needs, if anything: the book is fetched only while it is empty.
  unfoldable pub fetch_for : Tab → WalletShell B T D I F → Option Fetch
  fetch_for overview s = some overview_fetch
  fetch_for history s = some (history_fetch s.history_tab.page)
  fetch_for addresses s = if is_empty s.book.rows then some book_fetch else none
  fetch_for psbt s = some info_fetch
  fetch_for security s = some info_fetch
  fetch_for send s = none
  fetch_for receive s = none

  abbrev pub ask_node : Option Text → Option Fetch → WalletShell B T D I F → WalletShell B T D I F
  ask_node none f s = end_refresh s
  ask_node (some name) none s = end_refresh s
  ask_node (some name) (some f) s = record s { waiting = fetching name f ∷ s.waiting }

  -- `refresh`, behind `refreshWalletList`.
  unfoldable pub dispatch : WalletShell B T D I F → WalletShell B T D I F
  dispatch s =
      if s.listing.disabled
      then end_refresh s
      else ask_node s.listing.selected (fetch_for s.tab s) s

  -- The page with a new list: another selection forgets the balances and the wallet info.
  abbrev pub relisted : WalletList → WalletShell B T D I F → WalletShell B T D I F
  relisted l s = record s {
    listing = l;
    balances = kept_if l.has_info s.balances;
    walletinfo = kept_if l.has_info s.walletinfo;
  }

  -- The answer of listwallets: an error that is thrown on, no wallet support, or the call of listwalletdir.
  unfoldable pub list_answer : Option WalletList → WalletShell B T D I F → WalletShell B T D I F
  list_answer none s = end_refresh s
  list_answer (some l) s =
      let t = relisted l s in
      if l.disabled then end_refresh t else record t { waiting = dir_asked ∷ t.waiting }

  -- `refreshOverview`, behind the batch.
  unfoldable pub overview_answer :
      Option (Overview B) → WalletShell B T D I F → WalletShell B T D I F
  overview_answer none s = s
  overview_answer (some o) s = record s {
    listing = record s.listing { has_info = true };
    overview_error = first_error (error_of o.balances) (error_of o.walletinfo);
    balances = known_or s.balances o.balances;
    walletinfo = known_or s.walletinfo o.walletinfo;
    chain_height = known_or s.chain_height o.height;
  }

  -- `refreshWalletInfo`, behind the call: on an error the info stays.
  unfoldable pub wallet_info_answer :
      Outcome Text WalletInfo → WalletShell B T D I F → WalletShell B T D I F
  wallet_info_answer answer s = record s {
    listing = record s.listing { has_info = true };
    walletinfo = known_or s.walletinfo answer;
    sec_error = error_of answer;
  }

  -- A batch that was thrown on leaves the rows, and has hidden the error.
  abbrev book_answer : Outcome Text (Book I) → WalletShell B T D I F → WalletShell B T D I F
  book_answer (ok b) s = record s { book = b }
  book_answer (err e) s = record s { book = record s.book { error = none } }

  unfoldable pub fetched :
      Text → Fetch → Answers B T I → WalletShell B T D I F → WalletShell B T D I F
  fetched name overview_fetch a s = overview_answer (a.overview_batch name) s
  fetched name info_fetch a s = wallet_info_answer (a.get_wallet_info name) s
  fetched name book_fetch a s = book_answer (refresh_book (a.book_node name) s.book) s
  fetched name (history_fetch page) a s = record s {
    history_tab =
        refresh_history history_page_size
          (a.list_transactions name (history_params page history_page_size)) s.history_tab;
  }

  unfoldable pub deliver_stage :
      Stage → Answers B T I → WalletShell B T D I F → WalletShell B T D I F
  deliver_stage wallets_asked a s =
      list_answer (refresh_wallet_list s.stored none a.list_wallets s.listing) s
  deliver_stage dir_asked a s =
      dispatch (record s { listing = with_dir a.list_wallet_dir s.listing })
  deliver_stage (fetching name f) a s = end_refresh (fetched name f a s)

  abbrev pub deliver_nth :
      Option (Stage × List Stage) → Answers B T I → WalletShell B T D I F → WalletShell B T D I F
  deliver_nth none a s = s
  deliver_nth (some (stage, rest)) a s = deliver_stage stage a (record s { waiting = rest })

  unfoldable pub handle : Event B T I → WalletShell B T D I F → WalletShell B T D I F
  handle (poll hidden) s = begin_refresh hidden s
  handle (select hidden name) s = select_wallet hidden name s
  handle (open_tab hidden wanted) s = show_tab hidden wanted s
  handle log_out s = reset_wallet s
  handle (arrive n a) s = deliver_nth (pick n s.waiting) a s

  unfoldable pub handle_all : List (Event B T I) → WalletShell B T D I F → WalletShell B T D I F
  handle_all [] s = s
  handle_all (e ∷ events) s = handle_all events (handle e s)
