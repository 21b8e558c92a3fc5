-- ===== src/Wallet/Shell/Kept.antt =====
-- What the steps of a refresh keep: the page owns what it holds, and waits for one call at most.
use bitcoin_lisp.Prelude.{
  List, [], ◌∷◌, Bool, true, false, if◌then◌else◌, Option, none, some, Outcome, ok, err, Text,
  some_of, All, ◌≡◌, refl, sym, subst,
}
use bitcoin_lisp.Wallet.Listing.{
  WalletList, ListAnswer, listed, no_wallet_support, list_failed, refresh_wallet_list, selection,
  with_dir, stored_or,
}
use bitcoin_lisp.Wallet.Unlock.{WalletInfo}
use bitcoin_lisp.Wallet.Shell.{
  WalletShell, Event, poll, select, open_tab, arrive, Fetch, Stage, log_out, wallets_asked,
  dir_asked, fetching, Overview, Answers, begin_refresh, select_wallet, end_refresh, fetch_for,
  ask_node, dispatch, relisted, list_answer, overview_answer, wallet_info_answer, fetched,
  overview_fetch, book_fetch, info_fetch, history_fetch, Book, refresh_book, book_answer,
}
use bitcoin_lisp.Wallet.Book.{Book, refresh_book}
use bitcoin_lisp.Wallet.Shell.{book_answer}
use bitcoin_lisp.Wallet.Shell.Owned.{
  InFlight, Owned, IsTold, is_fetch, IsFor, Owned-none, Owned-known_or, Owned-switch,
  no_fetch-IsFor,
}

module _ {B : Type 0} (IsBalance : Text → B → Type 0) (IsInfo : Text → WalletInfo → Type 0) where
  abbrev pub IsToldBatch : Text → Option (Overview B) → Type 0
  IsToldBatch name none = Unit
  IsToldBatch name (some o) = IsTold IsBalance name o.balances × IsTold IsInfo name o.walletinfo

  -- The answers are about the wallet that is asked about.
  abbrev pub IsTruthful : {T I : Type 0} → Event B T I → Type 0
  IsTruthful (arrive n a) =
      (name : Text)
      → IsToldBatch name (a.overview_batch name) × IsTold IsInfo name (a.get_wallet_info name)
  IsTruthful log_out = Unit
  IsTruthful (poll hidden) = Unit
  IsTruthful (select hidden name) = Unit
  IsTruthful (open_tab hidden wanted) = Unit

  module _ {T D I F : Type 0} where
    abbrev pub IsOwn : WalletShell B T D I F → Type 0
    IsOwn s =
        InFlight s.refreshing s.waiting
        × (Owned IsBalance s.listing.selected s.balances
            × Owned IsInfo s.listing.selected s.walletinfo)

    abbrev pub IsSound : WalletShell B T D I F → Type 0
    IsSound s = IsOwn s × All (IsFor s.listing.selected) s.waiting

    -- The page while it handles the answer that it waited for.
    abbrev pub IsLanding : WalletShell B T D I F → Type 0
    IsLanding s =
        (s.refreshing ≡ true)
        × (s.waiting ≡ [])
        × (Owned IsBalance s.listing.selected s.balances
            × Owned IsInfo s.listing.selected s.walletinfo)

    pub end_refresh-IsSound : (s : WalletShell B T D I F) → IsLanding s → IsSound (end_refresh s)
    end_refresh-IsSound s (on, none_left, own) = (
      (subst (InFlight false) (sym none_left) tt, own),
      subst (All (IsFor s.listing.selected)) (sym none_left) tt,
    )

    wait-IsSound :
        (stage : Stage) (s : WalletShell B T D I F)
        → IsFor s.listing.selected stage
        → IsLanding s
        → IsSound (record s { waiting = stage ∷ s.waiting })
    wait-IsSound stage s k (on, none_left, own) = (
      (flight s.refreshing s.waiting on none_left, own),
      (k, subst (All (IsFor s.listing.selected)) (sym none_left) tt),
    )
      where
        flight : (b : Bool) (ws : List Stage) → b ≡ true → ws ≡ [] → InFlight b (stage ∷ ws)
        flight true [] on e = tt
        flight false [] on e = absurd (cc)
        flight b (w ∷ ws) on e = absurd (cc)

    pub begin_refresh-IsSound :
        (hidden : Bool) (s : WalletShell B T D I F) → IsSound s → IsSound (begin_refresh hidden s)
    unfolding begin_refresh
    begin_refresh-IsSound true s h = h
    begin_refresh-IsSound false s ((flight, own), for) = go s.refreshing refl
      where
        begun : WalletShell B T D I F
        begun = record s { refreshing = true; waiting = wallets_asked ∷ s.waiting }

        alone : (ws : List Stage) → InFlight false ws → InFlight true (wallets_asked ∷ ws)
        alone [] f = tt
        alone (w ∷ ws) f = absurd f

        go : (b : Bool) → s.refreshing ≡ b → IsSound (if b then s else begun)
        go true e = ((flight, own), for)
        go false e =
            ((alone s.waiting (subst (λ b. InFlight b s.waiting) e flight), own), (tt, for))

    pub select_wallet-IsSound :
        (hidden : Bool) (name : Text) (s : WalletShell B T D I F)
        → some_of is_fetch s.waiting ≡ false
        → IsSound s
        → IsSound (select_wallet hidden name s)
    unfolding select_wallet
    select_wallet-IsSound hidden name s q ((flight, own), for) = begin_refresh-IsSound hidden _ (
      (flight, (Owned-none IsBalance _, Owned-none IsInfo _)),
      no_fetch-IsFor s.listing.selected _ s.waiting q for,
    )

    abbrev pub IsRelisted : Option WalletList → WalletShell B T D I F → Type 0
    IsRelisted none s = Unit
    IsRelisted (some l) s = IsLanding (relisted l s)

    pub relisted-IsSound :
        (l : Option WalletList) (s : WalletShell B T D I F)
        → IsLanding s
        → IsRelisted l s
        → IsSound (list_answer l s)
    unfolding list_answer
    relisted-IsSound none s h r = end_refresh-IsSound s h
    relisted-IsSound (some l) s h r = go l.disabled
      where
        waited : WalletShell B T D I F
        waited = record (relisted l s) { waiting = dir_asked ∷ s.waiting }

        go : (b : Bool) → IsSound (if b then end_refresh (relisted l s) else waited)
        go true = end_refresh-IsSound (relisted l s) r
        go false = wait-IsSound dir_asked (relisted l s) tt r

    pub refresh_wallet_list-IsRelisted :
        (answer : ListAnswer) (s : WalletShell B T D I F)
        → IsLanding s
        → IsRelisted (refresh_wallet_list s.stored none answer s.listing) s
    unfolding refresh_wallet_list
    refresh_wallet_list-IsRelisted list_failed s h = tt
    refresh_wallet_list-IsRelisted no_wallet_support s (on, none_left, own) =
        (on, none_left, (tt, tt))
    refresh_wallet_list-IsRelisted (listed names) s (on, none_left, (balance, info)) =
        let old = s.listing.selected in
        let new = selection names (stored_or old s.stored) in
        (
          on,
          none_left,
          (
            Owned-switch IsBalance new old s.listing.has_info s.balances balance,
            Owned-switch IsInfo new old s.listing.has_info s.walletinfo info,
          ),
        )

    ask_node-IsSound :
        (name : Option Text) (f : Option Fetch) (s : WalletShell B T D I F)
        → s.listing.selected ≡ name
        → IsLanding s
        → IsSound (ask_node name f s)
    ask_node-IsSound none f s k h = end_refresh-IsSound s h
    ask_node-IsSound (some name) none s k h = end_refresh-IsSound s h
    ask_node-IsSound (some name) (some f) s k h = wait-IsSound (fetching name f) s k h

    dispatch-IsSound : (s : WalletShell B T D I F) → IsLanding s → IsSound (dispatch s)
    unfolding dispatch
    dispatch-IsSound s h = go s.listing.disabled
      where
        go :
            (b : Bool)
            → IsSound
                (if b then end_refresh s else ask_node s.listing.selected (fetch_for s.tab s) s)
        go true = end_refresh-IsSound s h
        go false = ask_node-IsSound s.listing.selected (fetch_for s.tab s) s refl h

    pub with_dir-IsSound :
        (dir : Option (List Text)) (s : WalletShell B T D I F)
        → IsLanding s
        → IsSound (dispatch (record s { listing = with_dir dir s.listing }))
    with_dir-IsSound none s h = dispatch-IsSound s h
    with_dir-IsSound (some names) s h =
        dispatch-IsSound (record s { listing = with_dir (some names) s.listing }) h

    overview_answer-IsLanding :
        (name : Text) (o : Option (Overview B)) (s : WalletShell B T D I F)
        → s.listing.selected ≡ some name
        → IsToldBatch name o
        → IsLanding s
        → IsLanding (overview_answer o s)
    unfolding overview_answer
    overview_answer-IsLanding name none s k told h = h
    overview_answer-IsLanding name (some o) s k (b, i) (on, none_left, (balance, info)) = (
      on,
      none_left,
      (
        Owned-known_or IsBalance name s.listing.selected s.balances o.balances k b balance,
        Owned-known_or IsInfo name s.listing.selected s.walletinfo o.walletinfo k i info,
      ),
    )

    book_answer-IsLanding :
        (r : Outcome Text (Book I)) (s : WalletShell B T D I F)
        → IsLanding s
        → IsLanding (book_answer r s)
    book_answer-IsLanding (ok b) s h = h
    book_answer-IsLanding (err e) s h = h

    pub fetched-IsLanding :
        (name : Text) (f : Fetch) (a : Answers B T I) (s : WalletShell B T D I F)
        → s.listing.selected ≡ some name
        → IsToldBatch name (a.overview_batch name) × IsTold IsInfo name (a.get_wallet_info name)
        → IsLanding s
        → IsLanding (fetched name f a s)
    unfolding fetched wallet_info_answer
    fetched-IsLanding name overview_fetch a s k told h =
        overview_answer-IsLanding name (a.overview_batch name) s k told.0 h
    fetched-IsLanding name book_fetch a s k told h =
        book_answer-IsLanding (refresh_book (a.book_node name) s.book) s h
    fetched-IsLanding name (history_fetch page) a s k told h = h
    fetched-IsLanding name info_fetch a s k told (on, none_left, (balance, info)) = (
      on,
      none_left,
      (
        balance,
        Owned-known_or IsInfo name s.listing.selected s.walletinfo (a.get_wallet_info name) k told.1
            info,
      ),
    )
