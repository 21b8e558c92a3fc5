-- ===== src/Wallet/Book.antt =====
-- ui/js/wallet.js: the address book (`refreshBook`, the form of a label, the edit of a row) and the receive tab
-- (`generateAddress`). The answers of the node are functions of what it is asked. The comparison of two rows with one
-- label and one address, which the source calls greater both ways, leaves them in their order.
pub mod Told
pub mod Sorted
mod Tests
use bitcoin_lisp.Prelude.{
  ℕ, List, [], ◌∷◌, ◌++◌, map, Bool, true, false, not, ◌&&◌, ◌||◌, if◌then◌else◌, Option, none,
  some, Outcome, ok, err, take, drop, Text, codes, text_lt, trim, sort_by,
}

-- A row; `I` is the type of the answer of getaddressinfo.
pub record BookRow (I : Type 0) : Type 0 where
  pub address : Text
  pub label : Text
  pub purpose : Text
  pub info : Option I

-- `describe` and `infos` are whole batches: an error is thrown, and each call has an answer or an error of its own.
-- An entry of getaddressesbylabel is an address and its purpose.
pub record BookNode (I : Type 0) : Type 0 where
  pub list_labels : Outcome Text (List Text)
  pub describe : List Text → Outcome Text (List (Option (List (Text × Text))))
  pub infos : List Text → Outcome Text (List (Option I))
  pub set_label : Text → Text → Outcome Text Unit

pub record Book (I : Type 0) : Type 0 where
  pub rows : List (BookRow I)
  pub error : Option Text

abbrev pub book_info_limit : ℕ
book_info_limit = 60

-- `meta.purpose || 'unknown'`
abbrev pub purpose_or : Text → Text
purpose_or [] = codes "unknown"
purpose_or (c ∷ cs) = c ∷ cs

abbrev pub entries_of : Option (List (Text × Text)) → List (Text × Text)
entries_of none = []
entries_of (some entries) = entries

module _ {I : Type 0} where
  abbrev pub row_of : Text → Text × Text → BookRow I
  row_of label entry = record {
    address = entry.0;
    label = label;
    purpose = purpose_or entry.1;
    info = none;
  }

  -- The rows of the labels that were answered; a label with an error is skipped.
  unfoldable pub rows_of : List Text → List (Option (List (Text × Text))) → List (BookRow I)
  rows_of [] answers = []
  rows_of (l ∷ labels) [] = []
  rows_of (l ∷ labels) (a ∷ answers) = map (row_of l) (entries_of a) ++ rows_of labels answers

  abbrev pub comes_first : BookRow I → BookRow I → Bool
  comes_first a b =
      text_lt a.label b.label || (not (text_lt b.label a.label) && text_lt a.address b.address)

  unfoldable pub sort_rows : List (BookRow I) → List (BookRow I)
  sort_rows = sort_by (λ a b. comes_first b a)

  abbrev with_info : BookRow I → Option I → BookRow I
  with_info r none = r
  with_info r (some i) = record r { info = some i }

  unfoldable pub decorate : List (BookRow I) → List (Option I) → List (BookRow I)
  decorate [] infos = []
  decorate (r ∷ rows) [] = r ∷ rows
  decorate (r ∷ rows) (i ∷ infos) = with_info r i ∷ decorate rows infos

  abbrev pub decorated : List (BookRow I) → Outcome Text (List (Option I)) → List (BookRow I)
  decorated rows (err e) = rows
  decorated rows (ok infos) = decorate rows infos

  abbrev pub row_address : BookRow I → Text
  row_address r = r.address

  module _ (node : BookNode I) where
    -- The first 60 rows are decorated; there is no call for no rows.
    unfoldable pub with_infos : List (BookRow I) → List (BookRow I)
    with_infos [] = []
    with_infos (r ∷ rows) =
        let targets = take book_info_limit (r ∷ rows) in
        decorated targets (node.infos (map row_address targets)) ++ drop book_info_limit (r ∷ rows)

    -- The answers on the labels; no label, no call.
    abbrev pub label_answers : List Text → Outcome Text (List (Option (List (Text × Text))))
    label_answers [] = ok []
    label_answers (l ∷ labels) = node.describe (l ∷ labels)

    abbrev pub book_of :
        List Text
        → Outcome Text (List (Option (List (Text × Text))))
        → Book I
        → Outcome Text (Book I)
    book_of labels (err e) b = err e
    book_of labels (ok answers) b =
        ok (record { rows = with_infos (sort_rows (rows_of labels answers)); error = none })

    -- `refreshBook`: an error is what it throws on.
    unfoldable pub refresh_book : Book I → Outcome Text (Book I)
    refresh_book b = go node.list_labels
      where
        go : Outcome Text (List Text) → Outcome Text (Book I)
        go (err e) = ok (record b { error = some e })
        go (ok labels) = book_of labels (label_answers labels) (record b { error = none })

    -- What the caller of `refreshBook` shows when it throws.
    abbrev caught : Book I → Outcome Text (Book I) → Book I
    caught b (err e) = record b { error = some e }
    caught b (ok b') = b'

    abbrev label_set : Book I → Outcome Text Unit → Book I
    label_set b (err e) = record b { error = some e }
    label_set b (ok u) = caught b (refresh_book b)

    -- The form under the table, and the edit of a row, which does not test its address.
    unfoldable pub save_label : Text → Text → Book I → Book I
    save_label address label b = label_set b (node.set_label address (trim label))

    unfoldable pub submit_label : Text → Text → Book I → Book I
    submit_label address label b = go (trim address)
      where
        go : Text → Book I
        go [] = b
        go (c ∷ cs) = save_label (c ∷ cs) label (record b { error = none })
