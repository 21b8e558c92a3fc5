-- ===== src/Wallet/Send.antt =====
-- ui/js/wallet.js: the send tab's compose model. `onReviewSend` and `onConfirmSend` are cut at their `await`s:
-- what runs before is `begin_review` and `begin_confirm`, what runs behind is `finish_review` and
-- `finish_confirm`, with the answer. `F` is the type of fee rates, a float in the source, and `fee_sats` the
-- product of a fee rate and a size, rounded. `row_refs` are the values of the row inputs.
pub mod Safety
use bitcoin_lisp.Prelude.{
  ℕ, zero, suc, ◌+◌, ◌*◌, List, [], ◌∷◌, ◌++◌, map, Bool, true, false, not, ◌==◌, if◌then◌else◌,
  Option, none, some, or_else, Outcome, ok, err, length, Text,
}
use bitcoin_lisp.Wallet.Recipients.{
  Row, Recipient, RowError, validate_recipients, SendCall, build_send_call,
}

pub record Estimate (F : Type 0) : Type 0 where
  pub feerate : Option F
  pub blocks : Option ℕ
  pub errors : Option (List Text)

pub record Preview (F : Type 0) : Type 0 where
  pub feerate : Option F
  pub blocks : ℕ
  pub errors : Option (List Text)
  pub vsize : ℕ
  pub fee : Option ℕ
  pub rbf : Bool
  pub sffo : Bool

-- The answer of a spend: the transaction's id, or the text of the error.
abbrev pub SendResult : Type 0
SendResult = Outcome Text Text

-- `built` are the calls that were built, the last one first; `send_error` is what `sendError` shows.
pub record Compose (F : Type 0) : Type 0 where
  pub recipients : List Row
  pub conf_target : ℕ
  pub rbf : Bool
  pub sffo : Bool
  pub preview : Option (Preview F)
  pub result : Option SendResult
  pub reviewing : Bool
  pub row_refs : List Row
  pub cleaned : List Recipient
  pub send_error : Option (List RowError)
  pub built : List SendCall

-- The controls of the form: the target as a number (`none` for NaN), and the two check boxes.
pub record Controls : Type 0 where
  pub target : Option ℕ
  pub rbf_checked : Bool
  pub sffo_checked : Bool

abbrev pub blank : List Row
blank = record { address = []; amount = [] } ∷ []

-- `estimateVsize` with one input.
unfoldable pub estimate_vsize : ℕ → ℕ
estimate_vsize outputs = 11 + 68 + (outputs + 1) * 31

-- The rows with the values of their inputs; a row without an input keeps its own.
unfoldable pub overlay : List Row → List Row → List Row
overlay [] refs = []
overlay (r ∷ rows) [] = r ∷ rows
overlay (r ∷ rows) (ref ∷ refs) = ref ∷ overlay rows refs

-- `Number(value) || DEFAULT_CONF_TARGET`
unfoldable pub target_of : Option ℕ → ℕ
target_of none = 6
target_of (some zero) = 6
target_of (some (suc n)) = suc n

-- `splice(index, 1)`
unfoldable pub remove_at : ℕ → List Row → List Row
remove_at i [] = []
remove_at zero (r ∷ rows) = rows
remove_at (suc i) (r ∷ rows) = r ∷ remove_at i rows

abbrev or_blank : List Row → List Row
or_blank [] = blank
or_blank (r ∷ rows) = r ∷ rows

-- The recipients of a list without `null`.
unfoldable pub present : List (Option Recipient) → List Recipient
present [] = []
present (none ∷ rs) = present rs
present (some r ∷ rs) = r ∷ present rs

module _ {F : Type 0} where
  unfoldable pub sync : Controls → Compose F → Compose F
  sync c s = record s {
    recipients = overlay s.recipients s.row_refs;
    conf_target = target_of c.target;
    rbf = c.rbf_checked;
    sffo = c.sffo_checked;
  }

  -- `renderRecipients`: an input for each row.
  abbrev pub show_rows : List Row → Compose F → Compose F
  show_rows rows s = record s { recipients = rows; row_refs = rows }

  unfoldable pub add_recipient : Controls → Compose F → Compose F
  add_recipient c s = let t = sync c s in show_rows (t.recipients ++ blank) t

  unfoldable pub remove_recipient : ℕ → Controls → Compose F → Compose F
  remove_recipient i c s = let t = sync c s in show_rows (or_blank (remove_at i t.recipients)) t

  unfoldable pub checked : Outcome (List RowError) (List (Option Recipient)) → Compose F → Compose F
  checked (err errors) s = record s { send_error = some errors; reviewing = false; preview = none }
  checked (ok cleaned) s = record s { cleaned = present cleaned }

  unfoldable pub begin_review : Controls → Compose F → Compose F
  begin_review c s =
      let t = record (sync c s) { send_error = none; result = none } in
      checked (validate_recipients t.recipients) t

  -- The three fields of an answer, and those of an estimate that failed.
  abbrev estimated : Outcome Text (Estimate F) → Estimate F
  estimated (ok e) = e
  estimated (err message) = record { feerate = none; blocks = none; errors = some (message ∷ []) }

  -- An estimate without `blocks` shows the target that the form has by then.
  abbrev blocks_of : ℕ → ℕ → Outcome Text (Estimate F) → ℕ
  blocks_of asked now (ok e) = or_else e.blocks now
  blocks_of asked now (err message) = asked

  module _ (fee_sats : F → ℕ → ℕ) where
    abbrev fee_of : Option F → ℕ → Option ℕ
    fee_of none vsize = none
    fee_of (some rate) vsize = some (fee_sats rate vsize)

    -- `target` is `send.confTarget` when the estimate was asked for.
    unfoldable pub finish_review : ℕ → Outcome Text (Estimate F) → Compose F → Compose F
    finish_review target answer s =
        let e = estimated answer in
        let vsize = estimate_vsize (length s.cleaned) in
        record s {
          preview = some (record {
            feerate = e.feerate;
            blocks = blocks_of target s.conf_target answer;
            errors = e.errors;
            vsize = vsize;
            fee = fee_of e.feerate vsize;
            rbf = s.rbf;
            sffo = s.sffo;
          });
          reviewing = true;
        }

  unfoldable pub begin_confirm : Compose F → Compose F
  begin_confirm s = record s {
    send_error = none;
    built = build_send_call s.cleaned s.conf_target s.rbf s.sffo ∷ s.built;
  }

  unfoldable pub finish_confirm : SendResult → Compose F → Compose F
  finish_confirm (ok txid) s = record s {
    result = some (ok txid);
    recipients = blank;
    row_refs = blank;
    cleaned = [];
    reviewing = false;
    preview = none;
  }
  finish_confirm (err message) s = record s { result = some (err message) }

-- What happens on the tab. `confirm` is possible only while the review is on the screen, `typed` is the
-- inputs' new values; answers come whenever they come.
pub data Event (F : Type 0) : Type 0 where
  typed : List Row → Event F
  add review : Controls → Event F
  remove : ℕ → Controls → Event F
  estimate : ℕ → Outcome Text (Estimate F) → Event F
  edit confirm : Event F
  answer : SendResult → Event F

module _ {F : Type 0} (fee_sats : F → ℕ → ℕ) where
  unfoldable pub handle : Event F → Compose F → Compose F
  handle (typed refs) s = record s { row_refs = refs }
  handle (add c) s = add_recipient c s
  handle (remove i c) s = remove_recipient i c s
  handle (review c) s = begin_review c s
  handle (estimate target e) s = finish_review fee_sats target e s
  handle edit s = record s { reviewing = false }
  handle confirm s = if s.reviewing then begin_confirm s else s
  handle (answer result) s = finish_confirm result s

  unfoldable pub handle_all : List (Event F) → Compose F → Compose F
  handle_all [] s = s
  handle_all (e ∷ events) s = handle_all events (handle e s)
