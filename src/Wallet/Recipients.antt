-- ===== src/Wallet/Recipients.antt =====
-- ui/js/wallet.js: `validateRecipients` and `buildSendCall`.
pub mod Payable
use bitcoin_lisp.Prelude.{
  ℕ, zero, suc, ◌+◌, List, [], ◌∷◌, ◌++◌, map, Bool, true, false, not, ◌==◌, if◌then◌else◌, Option,
  none, some, Outcome, ok, err, length, some_of, Text, codes, text_eq,
}
use bitcoin_lisp.Wallet.Address.{AddressError, validate_address}
use bitcoin_lisp.Wallet.Amount.{AmountError, Amount, normalize_amount}

-- A row of the form, as text.
pub record Row : Type 0 where
  pub address : Text
  pub amount : Text

pub record Recipient : Type 0 where
  pub address : Text
  pub amount : Text
  pub sats : ℕ

-- The number is the row's index; `no_rows` is the error of the whole form.
pub data RowError : Type 0 where
  no_rows : RowError
  bad_address : ℕ → AddressError → RowError
  bad_amount : ℕ → AmountError → RowError
  duplicate_address : ℕ → RowError

-- What the loop keeps: the addresses seen, the errors, and for each row a recipient or `null`.
pub record Check : Type 0 where
  pub seen : List Text
  pub errors : List RowError
  pub cleaned : List (Option Recipient)

abbrev report : RowError → Check → Check
report e k = record k { errors = k.errors ++ e ∷ [] }

abbrev clean : Option Recipient → Check → Check
clean r k = record k { cleaned = k.cleaned ++ r ∷ [] }

-- The `seen` test of a row with a good address.
abbrev see : ℕ → Text → Check → Check
see i a k =
    if some_of (text_eq a) k.seen
    then report (duplicate_address i) k
    else record k { seen = a ∷ k.seen }

unfoldable pub check_row :
    ℕ → Outcome AddressError Text → Outcome AmountError Amount → Check → Check
check_row i (ok a) (ok m) k =
    clean (some (record { address = a; amount = m.value; sats = m.sats })) (see i a k)
check_row i (ok a) (err e) k = clean none (see i a (report (bad_amount i e) k))
check_row i (err e) (ok m) k = clean none (report (bad_address i e) k)
check_row i (err e) (err f) k = clean none (report (bad_amount i f) (report (bad_address i e) k))

unfoldable pub check_rows : ℕ → List Row → Check → Check
check_rows i [] k = k
check_rows i (r ∷ rows) k =
    check_rows (suc i) rows (check_row i (validate_address r.address) (normalize_amount r.amount) k)

abbrev pub no_check : Check
no_check = record { seen = []; errors = []; cleaned = [] }

abbrev pub verdict :
    List RowError → List (Option Recipient) → Outcome (List RowError) (List (Option Recipient))
verdict [] cleaned = ok cleaned
verdict (e ∷ errors) cleaned = err (e ∷ errors)

unfoldable pub validate_recipients : List Row → Outcome (List RowError) (List (Option Recipient))
validate_recipients [] = err (no_rows ∷ [])
validate_recipients (r ∷ rows) =
    let k = check_rows 0 (r ∷ rows) no_check in verdict k.errors k.cleaned

-- `feeModeForRbf`
pub data FeeMode : Type 0 where
  economical conservative : FeeMode

abbrev pub fee_mode_for_rbf : Bool → FeeMode
fee_mode_for_rbf rbf = if rbf then economical else conservative

-- The two calls of a spend, with their positional parameters (the empty comments and the `null` fee rate
-- are constants of the constructor). The last one of `send` is `subtract_fee_from_outputs`, when given.
pub data SendCall : Type 0 where
  sendtoaddress : Text → Text → Bool → Bool → ℕ → FeeMode → SendCall
  send : List (Text × Text) → ℕ → FeeMode → Bool → Option (List ℕ) → SendCall

-- `recipients.map((_, i) => i)`
abbrev pub indices : ℕ → List Recipient → List ℕ
indices i [] = []
indices i (r ∷ rs) = i ∷ indices (suc i) rs

unfoldable pub build_send_call : List Recipient → ℕ → Bool → Bool → SendCall
build_send_call (r ∷ []) target rbf subtract =
    sendtoaddress r.address r.amount subtract rbf target (fee_mode_for_rbf rbf)
build_send_call rs target rbf subtract =
    send (map (λ r. (r.address, r.amount)) rs) target (fee_mode_for_rbf rbf) rbf
      (if subtract then some (indices 0 rs) else none)

-- The target and the mode of estimatesmartfee.
unfoldable pub estimate_fee_params : ℕ → Bool → ℕ × FeeMode
estimate_fee_params target rbf = (target, fee_mode_for_rbf rbf)
