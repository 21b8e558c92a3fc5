-- ===== src/Wallet/Forms.antt =====
-- The forms of the security tab of ui/js/wallet.js, and the checks of ui/js/wallet-crypt.js that only they use.
-- What a form sends is a request as a value.
use bitcoin_lisp.Prelude.{ℕ, List, [], ◌∷◌, Bool, false, Option, none, some, Outcome, ok, err, Text}
use bitcoin_lisp.Wallet.Amount.{ℤ, pos, negsuc}
use bitcoin_lisp.Wallet.Unlock.{
  FormError, validate_passphrase_pair, validate_create, CreateParams, create_params,
}

-- The panels. An unlock panel may be that of a promise.
pub data Form : Type 0 where
  encrypt change backup restore create : Form
  unlock : Option ℕ → Form

-- The values of the inputs at a submit; `timeout` is `Number(raw)`, `none` for what is not an integer.
pub record Inputs : Type 0 where
  pub old_pass : Text
  pub pass : Text
  pub confirm : Text
  pub timeout : Option ℤ
  pub destination : Text
  pub name : Text
  pub file : Text
  pub disable_private_keys : Bool
  pub blank : Bool

pub data Complaint : Type 0 where
  form_error : FormError → Complaint
  no_passphrase not_an_integer negative no_destination no_name_or_file : Complaint
  rpc_error : Text → Complaint

pub data Request : Type 0 where
  encryptwallet : Text → Request
  walletpassphrase : Text → ℤ → Request
  walletpassphrasechange : Text → Text → Request
  backupwallet : Text → Request
  restorewallet : Text → Text → Request
  createwallet : CreateParams → Request

unfoldable pub validate_timeout : Option ℤ → Outcome Complaint ℤ
validate_timeout none = err not_an_integer
validate_timeout (some (negsuc n)) = err negative
validate_timeout (some (pos n)) = ok (pos n)

abbrev pub unless : Option FormError → Request → Outcome Complaint Request
unless (some e) request = err (form_error e)
unless none request = ok request

abbrev pub with_timeout : Text → Outcome Complaint ℤ → Outcome Complaint Request
with_timeout pass (err e) = err e
with_timeout pass (ok n) = ok (walletpassphrase pass n)

-- The checks of each form's `onSubmit`, and the call that it makes when they pass.
abbrev pub encrypt_request : Inputs → Outcome Complaint Request
encrypt_request inputs =
    unless (validate_passphrase_pair inputs.pass inputs.confirm) (encryptwallet inputs.pass)

abbrev pub unlock_request : Text → Option ℤ → Outcome Complaint Request
unlock_request [] timeout = err no_passphrase
unlock_request (c ∷ cs) timeout = with_timeout (c ∷ cs) (validate_timeout timeout)

abbrev pub change_request : Inputs → Outcome Complaint Request
change_request inputs =
    unless (validate_passphrase_pair inputs.pass inputs.confirm)
      (walletpassphrasechange inputs.old_pass inputs.pass)

abbrev pub backup_request : Text → Outcome Complaint Request
backup_request [] = err no_destination
backup_request (c ∷ cs) = ok (backupwallet (c ∷ cs))

abbrev pub restore_request : Text → Text → Outcome Complaint Request
restore_request (c ∷ name) (d ∷ file) = ok (restorewallet (c ∷ name) (d ∷ file))
restore_request [] file = err no_name_or_file
restore_request (c ∷ name) [] = err no_name_or_file

abbrev pub create_request : Inputs → Outcome Complaint Request
create_request inputs =
    unless (validate_create inputs.name inputs.disable_private_keys inputs.pass inputs.confirm) (
      createwallet
        (create_params inputs.name inputs.disable_private_keys inputs.blank inputs.pass false))

unfoldable pub request_of : Form → Inputs → Outcome Complaint Request
request_of encrypt inputs = encrypt_request inputs
request_of (unlock prompt) inputs = unlock_request inputs.pass inputs.timeout
request_of change inputs = change_request inputs
request_of backup inputs = backup_request inputs.destination
request_of restore inputs = restore_request inputs.name inputs.file
request_of create inputs = create_request inputs

pub data Note : Type 0 where
  still_locked wallet_encrypted wallet_unlocked passphrase_changed wallet_locked : Note
  said : Text → Note
  backed_up unloaded : Text → Note
  restored created : Text → List Text → Note

-- What a call returned: encryptwallet a text or not, restorewallet and createwallet their warnings.
pub data FormAnswer : Type 0 where
  a_text : Text → FormAnswer
  warnings : List Text → FormAnswer
  other : FormAnswer

abbrev pub warnings_of : FormAnswer → List Text
warnings_of (warnings ws) = ws
warnings_of (a_text t) = []
warnings_of other = []

abbrev pub encrypted_note : FormAnswer → Option Note
encrypted_note (a_text []) = none
encrypted_note (a_text (c ∷ cs)) = some (said (c ∷ cs))
encrypted_note (warnings ws) = some wallet_encrypted
encrypted_note other = some wallet_encrypted

-- The note that `onSubmit` returns.
unfoldable pub note_of : Form → Inputs → FormAnswer → Option Note
note_of encrypt inputs reply = encrypted_note reply
note_of (unlock prompt) inputs reply = some wallet_unlocked
note_of change inputs reply = some passphrase_changed
note_of backup inputs reply = some (backed_up inputs.destination)
note_of restore inputs reply = some (restored inputs.name (warnings_of reply))
note_of create inputs reply = some (created inputs.name (warnings_of reply))
