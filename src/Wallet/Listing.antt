-- ===== src/Wallet/Listing.antt =====
-- ui/js/wallet.js: the history tab's pages and its expanded entry, and `refreshWalletList`. `T` is the type of
-- an entry, `D` that of the details of a transaction. An answer of the node is an argument; `refreshHistory`
-- and `toggleExpand` are cut at their `await`.
use bitcoin_lisp.Prelude.{
  ℕ, ◌+◌, ◌*◌, List, [], ◌∷◌, reverse, Bool, true, false, not, ltb, if◌then◌else◌, Option, none,
  some, Outcome, ok, err, length, take, keep, some_of, Text, text_eq,
}
use bitcoin_lisp.Console.Complete.{sort_words}

-- The count and the offset of listtransactions: one entry more than the page.
unfoldable pub history_params : ℕ → ℕ → ℕ × ℕ
history_params page page_size = (page_size + 1, page * page_size)

-- The entries, newest first, and whether there is an older page.
unfoldable pub history_page : {T : Type 0} → List T → ℕ → List T × Bool
history_page result page_size =
    let entries = reverse result in (take page_size entries, ltb page_size (length entries))

unfoldable pub unloaded_wallets : List Text → List Text → List Text
unloaded_wallets names loaded = sort_words (keep (λ n. not (some_of (text_eq n) loaded)) names)

pub record HistoryTab (T D : Type 0) : Type 0 where
  pub page : ℕ
  pub entries : List T
  pub has_more : Bool
  pub expanded : Option Text
  pub details : List (Text × Outcome Text D)
  pub error : Option Text

abbrev pub is_expanded : Text → Option Text → Bool
is_expanded key none = false
is_expanded key (some k) = text_eq k key

abbrev pub has_details : {D : Type 0} → Text → List (Text × Outcome Text D) → Bool
has_details txid details = some_of (λ d. text_eq d.0 txid) details

module _ {T D : Type 0} where
  -- `refreshHistory`, behind the call.
  unfoldable pub refresh_history : ℕ → Outcome Text (List T) → HistoryTab T D → HistoryTab T D
  refresh_history page_size (err message) h = record h { error = some message }
  refresh_history page_size (ok result) h =
      let found = history_page result page_size in
      record h { error = none; entries = found.0; has_more = found.1 }

  -- `gotoHistoryPage`, up to the call.
  unfoldable pub goto_history_page : ℕ → HistoryTab T D → HistoryTab T D
  goto_history_page page h = record h { page = page; expanded = none }

  -- `toggleExpand`, up to the call; the Boolean says whether gettransaction is called.
  unfoldable pub toggle_expand : Text → Text → HistoryTab T D → HistoryTab T D × Bool
  toggle_expand key txid h =
      if is_expanded key h.expanded
      then (record h { expanded = none }, false)
      else (record h { expanded = some key }, not (has_details txid h.details))

  -- The answer of gettransaction, or the text of its error.
  unfoldable pub set_details : Text → Outcome Text D → HistoryTab T D → HistoryTab T D
  set_details txid answer h = record h { details = (txid, answer) ∷ h.details }

-- The part of the wallet page that `refreshWalletList` keeps. `loaded_once` are balances and wallet info.
pub record WalletList : Type 0 where
  pub disabled : Bool
  pub wallets : List Text
  pub selected : Option Text
  pub has_info : Bool
  pub unloaded : Option (List Text)

-- What listwallets answers: the names, error -32601, or another error.
pub data ListAnswer : Type 0 where
  listed : List Text → ListAnswer
  no_wallet_support list_failed : ListAnswer

abbrev pub stored_or : Option Text → Option Text → Option Text
stored_or none stored = stored
stored_or (some name) stored = some name

abbrev first_of : List Text → Option Text
first_of [] = none
first_of (w ∷ ws) = some w

-- The name if that wallet is loaded, else the first loaded one.
unfoldable pub selection : List Text → Option Text → Option Text
selection wallets none = first_of wallets
selection wallets (some name) =
    if some_of (text_eq name) wallets then some name else first_of wallets

abbrev pub same_name : Option Text → Option Text → Bool
same_name none none = true
same_name (some a) (some b) = text_eq a b
same_name none (some b) = false
same_name (some a) none = false

abbrev pub with_dir : Option (List Text) → WalletList → WalletList
with_dir none s = s
with_dir (some names) s = record s { unloaded = some (unloaded_wallets names s.wallets) }

-- `none` is an error that is thrown on; `dir` is the answer of listwalletdir, when there is one.
unfoldable pub refresh_wallet_list :
    Option Text → Option (List Text) → ListAnswer → WalletList → Option WalletList
refresh_wallet_list stored dir list_failed s = none
refresh_wallet_list stored dir no_wallet_support s =
    some (record s { disabled = true; wallets = []; selected = none; unloaded = none })
refresh_wallet_list stored dir (listed names) s =
    let chosen = selection names (stored_or s.selected stored) in
    some (
      with_dir dir (record s {
        disabled = false;
        wallets = names;
        selected = chosen;
        has_info = if same_name chosen s.selected then s.has_info else false;
      }))

-- `categoryVariant`: the five categories with a case of their own, and the looks of a pill.
pub data Category : Type 0 where
  receive generate send_category immature orphan other_category : Category

pub data Pill : Type 0 where
  pill_good pill_muted pill_accent pill_bad : Pill

unfoldable pub category_variant : Category → Pill
category_variant receive = pill_good
category_variant generate = pill_good
category_variant send_category = pill_muted
category_variant immature = pill_accent
category_variant orphan = pill_bad
category_variant other_category = pill_muted
