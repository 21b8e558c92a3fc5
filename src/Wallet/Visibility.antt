-- ===== src/Wallet/Visibility.antt =====
-- ui/js/wallet.js: `haveWallet` and `renderVisibility`: which of the page's parts are hidden.
use bitcoin_lisp.Prelude.{
  ℕ, ◌==◌, List, [], ◌∷◌, ◌++◌, Bool, true, false, not, ◌&&◌, ◌||◌, if◌then◌else◌, Option, none,
  some, keep, is_some, Text, some_of, text_eq, ◌≡◌, refl, ap, sym, ◌∙◌,
}
use bitcoin_lisp.Wallet.Listing.{
  WalletList, ListAnswer, listed, no_wallet_support, list_failed, refresh_wallet_list, selection,
  with_dir, stored_or, same_name,
}
use bitcoin_lisp.Wallet.Security.{Tab, overview, send, receive, history, addresses, psbt, security}

pub data Card : Type 0 where
  disabled_card empty_card wallet_select watch_pill mask_button tabstrip : Card
  balances_card info_card send_card receive_card history_card book_card psbt_card security_card :
      Card

abbrev tab_number : Tab → ℕ
tab_number overview = 0
tab_number send = 1
tab_number receive = 2
tab_number history = 3
tab_number addresses = 4
tab_number psbt = 5
tab_number security = 6

unfoldable pub have_wallet : WalletList → Bool
have_wallet s = not s.disabled && is_some s.selected

abbrev any : List Text → Bool
any [] = false
any (w ∷ ws) = true

abbrev keys_off : Option Bool → Bool
keys_off (some false) = true
keys_off (some true) = false
keys_off none = false

-- `hidden` of each part; `keys` is `state.walletinfo?.private_keys_enabled`.
unfoldable pub render_visibility : WalletList → Option Bool → Tab → Card → Bool
render_visibility s keys tab card = go card
  where
    on : Tab → Bool
    on t = not (have_wallet s) || not (tab_number tab == tab_number t)

    go : Card → Bool
    go disabled_card = not s.disabled
    go empty_card = s.disabled || any s.wallets
    go wallet_select = s.disabled || not (any s.wallets)
    go watch_pill = not (have_wallet s) || not (keys_off keys)
    go mask_button = s.disabled
    go tabstrip = not (have_wallet s)
    go balances_card = on overview
    go info_card = on overview
    go send_card = on send
    go receive_card = on receive
    go history_card = on history
    go book_card = on addresses
    go psbt_card = on psbt
    go security_card = on security

abbrev cards : List Card
cards =
    disabled_card ∷ empty_card ∷ wallet_select ∷ watch_pill ∷ mask_button ∷ tabstrip ∷ balances_card
    ∷ info_card ∷ send_card ∷ receive_card ∷ history_card ∷ book_card ∷ psbt_card ∷ security_card
    ∷ []

unfoldable pub visible : WalletList → Option Bool → Tab → List Card
visible s keys tab = keep (λ card. not (render_visibility s keys tab card)) cards

unfoldable pub cards_of : Tab → List Card
cards_of overview = balances_card ∷ info_card ∷ []
cards_of send = send_card ∷ []
cards_of receive = receive_card ∷ []
cards_of history = history_card ∷ []
cards_of addresses = book_card ∷ []
cards_of psbt = psbt_card ∷ []
cards_of security = security_card ∷ []

abbrev pill_if : Bool → List Card
pill_if true = watch_pill ∷ []
pill_if false = []

-- What a user is to see after each answer of listwallets.
unfoldable pub expected : ListAnswer → Option Bool → Tab → List Card
expected list_failed keys tab = []
expected no_wallet_support keys tab = disabled_card ∷ []
expected (listed []) keys tab = empty_card ∷ mask_button ∷ []
expected (listed (w ∷ ws)) keys tab =
    (wallet_select ∷ pill_if (keys_off keys)) ++ (mask_button ∷ tabstrip ∷ cards_of tab)

abbrev page : List Text → Option Text → Bool → Option (List Text) → WalletList
page names selected has_info unloaded = record {
  disabled = false;
  wallets = names;
  selected = selected;
  has_info = has_info;
  unloaded = unloaded;
}

visible-empty :
    (has_info : Bool) (unloaded : Option (List Text)) (keys : Option Bool) (tab : Tab)
    → visible (page [] none has_info unloaded) keys tab ≡ empty_card ∷ mask_button ∷ []
unfolding visible render_visibility have_wallet
visible-empty has_info unloaded keys tab = refl

visible-wallet :
    (w : Text) (ws : List Text) (name : Text) (has_info : Bool) (unloaded : Option (List Text))
    (keys : Option Bool) (tab : Tab)
    → visible (page (w ∷ ws) (some name) has_info unloaded) keys tab
      ≡ expected (listed (w ∷ ws)) keys tab
unfolding visible render_visibility have_wallet expected cards_of
visible-wallet w ws name has_info unloaded none overview = refl
visible-wallet w ws name has_info unloaded none send = refl
visible-wallet w ws name has_info unloaded none receive = refl
visible-wallet w ws name has_info unloaded none history = refl
visible-wallet w ws name has_info unloaded none addresses = refl
visible-wallet w ws name has_info unloaded none psbt = refl
visible-wallet w ws name has_info unloaded none security = refl
visible-wallet w ws name has_info unloaded (some true) overview = refl
visible-wallet w ws name has_info unloaded (some true) send = refl
visible-wallet w ws name has_info unloaded (some true) receive = refl
visible-wallet w ws name has_info unloaded (some true) history = refl
visible-wallet w ws name has_info unloaded (some true) addresses = refl
visible-wallet w ws name has_info unloaded (some true) psbt = refl
visible-wallet w ws name has_info unloaded (some true) security = refl
visible-wallet w ws name has_info unloaded (some false) overview = refl
visible-wallet w ws name has_info unloaded (some false) send = refl
visible-wallet w ws name has_info unloaded (some false) receive = refl
visible-wallet w ws name has_info unloaded (some false) history = refl
visible-wallet w ws name has_info unloaded (some false) addresses = refl
visible-wallet w ws name has_info unloaded (some false) psbt = refl
visible-wallet w ws name has_info unloaded (some false) security = refl

selection-some :
    (w : Text) (ws : List Text) (chosen : Option Text)
    → (name : Text) × (selection (w ∷ ws) chosen ≡ some name)
unfolding selection
selection-some w ws none = (w, refl)
selection-some w ws (some name) = go (some_of (text_eq name) (w ∷ ws)) refl
  where
    go :
        (b : Bool)
        → some_of (text_eq name) (w ∷ ws) ≡ b
        → (n : Text) × (selection (w ∷ ws) (some name) ≡ some n)
    go true e = (name, rw e refl)
    go false e = (w, rw e refl)

visible-disabled :
    (has_info : Bool) (keys : Option Bool) (tab : Tab)
    → visible
        (record {
          disabled = true;
          wallets = [];
          selected = none;
          has_info = has_info;
          unloaded = none;
        })
        keys
        tab
      ≡ disabled_card ∷ []
unfolding visible render_visibility have_wallet
visible-disabled has_info keys tab = refl

some-injective : {a b : WalletList} → some a ≡ some b → a ≡ b
some-injective e = cc

visible-listed :
    (names : List Text) (stored : Option Text) (has_info : Bool) (unloaded : Option (List Text))
    (keys : Option Bool) (tab : Tab)
    → visible (page names (selection names stored) has_info unloaded) keys tab
      ≡ expected (listed names) keys tab
unfolding expected selection
visible-listed [] none has_info unloaded keys tab = visible-empty has_info unloaded keys tab
visible-listed [] (some n) has_info unloaded keys tab = visible-empty has_info unloaded keys tab
visible-listed (w ∷ ws) stored has_info unloaded keys tab =
    let (name, e) = selection-some w ws stored in
    rw e (visible-wallet w ws name has_info unloaded keys tab)

with_dir-visible :
    (dir : Option (List Text)) (s : WalletList) (keys : Option Bool) (tab : Tab)
    → visible (with_dir dir s) keys tab ≡ visible s keys tab
unfolding visible render_visibility have_wallet
with_dir-visible none s keys tab = refl
with_dir-visible (some names) s keys tab = refl

-- When the wallet list was refreshed, of the parts that renderVisibility hides and shows the page shows exactly what the
-- answer asks for: only the notice when wallets are
-- disabled, the empty notice when none is loaded, and otherwise the selector, the tab strip and the cards of the tab.
pub refresh_wallet_list-visible :
    (stored : Option Text) (dir : Option (List Text)) (answer : ListAnswer) (s t : WalletList)
    (keys : Option Bool) (tab : Tab)
    → refresh_wallet_list stored dir answer s ≡ some t
    → visible t keys tab ≡ expected answer keys tab
unfolding refresh_wallet_list expected
refresh_wallet_list-visible stored dir list_failed s t keys tab e = absurd (cc)
refresh_wallet_list-visible stored dir no_wallet_support s t keys tab e =
    ap (λ u. visible u keys tab) (sym (some-injective e)) ∙ visible-disabled s.has_info keys tab
refresh_wallet_list-visible stored dir (listed names) s t keys tab e =
    let chosen = stored_or s.selected stored in
    let known = if same_name (selection names chosen) s.selected then s.has_info else false in
    ap (λ u. visible u keys tab) (sym (some-injective e))
    ∙ (with_dir-visible dir (page names (selection names chosen) known s.unloaded) keys tab
        ∙ visible-listed names chosen known s.unloaded keys tab)
