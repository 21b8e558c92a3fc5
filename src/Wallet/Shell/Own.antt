-- ===== src/Wallet/Shell/Own.antt =====
-- Whose balances and wallet info the page holds, and how many refreshes are on their way.
use bitcoin_lisp.Prelude.{
  ℕ, zero, suc, List, [], ◌∷◌, Bool, true, false, none, Text, pick, some_of, All, ◌≡◌, refl, sym,
  subst, or_else,
}
use bitcoin_lisp.Wallet.Listing.{refresh_wallet_list}
use bitcoin_lisp.Wallet.Unlock.{WalletInfo}
use bitcoin_lisp.Wallet.Shell.{
  WalletShell, Event, poll, select, open_tab, arrive, Stage, log_out, reset_wallet, wallets_asked,
  dir_asked, fetching, Answers, show_tab, fetched, deliver_stage, deliver_nth, handle, handle_all,
}
use bitcoin_lisp.Wallet.Security.{overview}
use bitcoin_lisp.Wallet.Shell.Owned.{InFlight, is_fetch, IsFor}
use bitcoin_lisp.Wallet.Shell.Kept.{
  IsTruthful, IsOwn, IsSound, IsLanding, end_refresh-IsSound, begin_refresh-IsSound,
  select_wallet-IsSound, relisted-IsSound, refresh_wallet_list-IsRelisted, with_dir-IsSound,
  fetched-IsLanding,
}

-- No wallet is selected while the data of a wallet is waited for, and nobody logs out while anything is.
unfoldable pub IsQuiet : {B T D I F : Type 0} → List (Event B T I) → WalletShell B T D I F → Type 0
IsQuiet [] s = Unit
IsQuiet (select hidden name ∷ events) s =
    (some_of is_fetch s.waiting ≡ false) × IsQuiet events (handle (select hidden name) s)
IsQuiet (log_out ∷ events) s = (s.waiting ≡ []) × IsQuiet events (handle log_out s)
IsQuiet (poll hidden ∷ events) s = IsQuiet events (handle (poll hidden) s)
IsQuiet (open_tab hidden wanted ∷ events) s = IsQuiet events (handle (open_tab hidden wanted) s)
IsQuiet (arrive n a ∷ events) s = IsQuiet events (handle (arrive n a) s)

module _ {B : Type 0} (IsBalance : Text → B → Type 0) (IsInfo : Text → WalletInfo → Type 0) where
  module _ {T D I F : Type 0} where
    deliver_stage-IsSound :
        (stage : Stage) (n : ℕ) (a : Answers B T I) (s : WalletShell B T D I F)
        → IsFor s.listing.selected stage
        → IsTruthful IsBalance IsInfo (arrive n a)
        → IsLanding IsBalance IsInfo s
        → IsSound IsBalance IsInfo (deliver_stage stage a s)
    unfolding deliver_stage
    deliver_stage-IsSound wallets_asked n a s k told h =
        relisted-IsSound IsBalance IsInfo
          (refresh_wallet_list s.stored none a.list_wallets s.listing) s h
          (refresh_wallet_list-IsRelisted IsBalance IsInfo a.list_wallets s h)
    deliver_stage-IsSound dir_asked n a s k told h =
        with_dir-IsSound IsBalance IsInfo a.list_wallet_dir s h
    deliver_stage-IsSound (fetching name f) n a s k told h =
        end_refresh-IsSound IsBalance IsInfo (fetched name f a s)
          (fetched-IsLanding IsBalance IsInfo name f a s k (told name) h)

    arrive-IsSound :
        (n : ℕ) (a : Answers B T I) (s : WalletShell B T D I F)
        → IsTruthful IsBalance IsInfo (arrive n a)
        → IsSound IsBalance IsInfo s
        → IsSound IsBalance IsInfo (deliver_nth (pick n s.waiting) a s)
    arrive-IsSound n a s told ((flight, own), for) = go n s.waiting refl s.refreshing refl flight
      where
        go :
            (m : ℕ) (ws : List Stage)
            → s.waiting ≡ ws
            → (b : Bool) → s.refreshing ≡ b
            → InFlight b ws
            → IsSound IsBalance IsInfo (deliver_nth (pick m ws) a s)
        go m [] e b on f = ((flight, own), for)
        go m (w ∷ x ∷ ws) e true on f = absurd f
        go m (w ∷ x ∷ ws) e false on f = absurd f
        go m (w ∷ []) e false on f = absurd f
        go (suc m) (w ∷ []) e true on f = ((flight, own), for)
        go zero (w ∷ []) e true on f =
            deliver_stage-IsSound w n a (record s { waiting = [] })
              (subst (All (IsFor s.listing.selected)) e for).0 told (on, refl, own)

    reset_wallet-IsSound :
        (s : WalletShell B T D I F) → s.waiting ≡ [] → IsSound IsBalance IsInfo (reset_wallet s)
    unfolding reset_wallet
    reset_wallet-IsSound s e =
        ((subst (InFlight false) (sym e) tt, (tt, tt)), subst (All (IsFor none)) (sym e) tt)

    handle_all-IsSound :
        (events : List (Event B T I)) (s : WalletShell B T D I F)
        → All (IsTruthful IsBalance IsInfo) events
        → IsQuiet events s
        → IsSound IsBalance IsInfo s
        → IsSound IsBalance IsInfo (handle_all events s)
    unfolding handle_all handle IsQuiet show_tab
    handle_all-IsSound [] s told q h = h
    handle_all-IsSound (poll hidden ∷ events) s (t, told) q h =
        handle_all-IsSound events (handle (poll hidden) s) told q
          (begin_refresh-IsSound IsBalance IsInfo hidden s h)
    handle_all-IsSound (select hidden name ∷ events) s (t, told) (none_out, q) h =
        handle_all-IsSound events (handle (select hidden name) s) told q
          (select_wallet-IsSound IsBalance IsInfo hidden name s none_out h)
    handle_all-IsSound (open_tab hidden wanted ∷ events) s (t, told) q h =
        handle_all-IsSound events (handle (open_tab hidden wanted) s) told q (
          begin_refresh-IsSound IsBalance IsInfo hidden (record s { tab = or_else wanted overview })
            h)
    handle_all-IsSound (log_out ∷ events) s (t, told) (none_left, q) h =
        handle_all-IsSound events (handle log_out s) told q (reset_wallet-IsSound s none_left)
    handle_all-IsSound (arrive n a ∷ events) s (t, told) q h =
        handle_all-IsSound events (handle (arrive n a) s) told q (arrive-IsSound n a s t h)

    -- From a fresh page that waits for nothing, after any polls, tabs, selections, logouts and answers in any order, where
    -- the answers tell of the wallet that is asked about, no wallet is selected while the data of a wallet is waited for,
    -- and nobody logs out while anything is waited for: the flag is on exactly while one call is waited for, and never more
    -- than one is, and the balances and the wallet info that the page holds are those of the selected wallet.
    pub handle_all-IsOwn :
        (events : List (Event B T I)) (s : WalletShell B T D I F)
        → s.waiting ≡ []
        → All (IsTruthful IsBalance IsInfo) events
        → IsQuiet events (reset_wallet s)
        → IsOwn IsBalance IsInfo (handle_all events (reset_wallet s))
    handle_all-IsOwn events s none_left told q =
        (handle_all-IsSound events (reset_wallet s) told q (reset_wallet-IsSound s none_left)).0
