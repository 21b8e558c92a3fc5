-- ===== src/Wallet/Security.antt =====
-- ui/js/wallet.js: the panel of the Security tab, its forms, and `promptUnlock`, and the checks of
-- ui/js/wallet-crypt.js that only the forms use. What a form sends is a request as a value; the node's answer to
-- it and the end of the reload behind it are passed in. A promise of `promptUnlock` is its number, and `settled`
-- holds what was passed to `resolve`, the latest first.
pub mod Earned
pub mod Prompts
mod Tests
use bitcoin_lisp.Prelude.{
  ℕ, zero, suc, ◌==◌, List, [], ◌∷◌, ◌++◌, Bool, true, false, if◌then◌else◌, Option, none, some,
  Outcome, ok, err, Text,
}
use bitcoin_lisp.Wallet.Amount.{ℤ, pos, negsuc}
use bitcoin_lisp.Wallet.Unlock.{
  EncryptionState, unencrypted, locked, unlocked, is_encrypted, FormError, validate_passphrase_pair,
  validate_create, CreateParams, create_params,
}
use bitcoin_lisp.Wallet.Forms.{
  Form, Inputs, Complaint, Request, validate_timeout, unless, with_timeout, encrypt_request,
  unlock_request, change_request, backup_request, restore_request, create_request, request_of, Note,
  FormAnswer, warnings_of, encrypted_note, note_of, a_text, backed_up, backup, backupwallet, change,
  create, created, createwallet, encrypt, encryptwallet, form_error, negative, no_destination,
  no_name_or_file, no_passphrase, not_an_integer, other, passphrase_changed, restore, restored,
  restorewallet, rpc_error, said, still_locked, unloaded, unlock, wallet_encrypted, wallet_locked,
  wallet_unlocked, walletpassphrase, walletpassphrasechange, warnings,
}

pub data Tab : Type 0 where
  overview send receive history addresses psbt security : Tab

abbrev is_security : Tab → Bool
is_security security = true
is_security tab = false

-- `secError` and `secNote`; `secMessage` shows at most one of the two.
pub data Message : Type 0 where
  quiet : Message
  complaint : Complaint → Message
  note : Note → Message

-- The closures of `promptUnlock`.
pub record Prompt : Type 0 where
  pub id : ℕ
  pub came_from : Tab
  pub was_unlocked : Bool

-- `owed` is `state.secPanelOnClose`, `panel` what stands in the panel, or `none` while it is hidden.
pub record SecurityTab : Type 0 where
  pub tab : Tab
  pub panel : Option Form
  pub owed : Option Prompt
  pub raised : ℕ
  pub settled : List (ℕ × Bool)
  pub message : Message

abbrev back_to : Tab → Tab → Tab
back_to came_from tab = if is_security came_from then tab else came_from

abbrev call_back : Option Prompt → SecurityTab → SecurityTab
call_back none s = s
call_back (some p) s = record s {
  tab = back_to p.came_from s.tab;
  settled = (p.id, p.was_unlocked) ∷ s.settled;
}

unfoldable pub close_sec_panel : SecurityTab → SecurityTab
close_sec_panel s = call_back s.owed (record s { owed = none; panel = none })

unfoldable pub open_sec_panel : Form → Option Prompt → SecurityTab → SecurityTab
open_sec_panel form on_close s = record (close_sec_panel s) { owed = on_close; panel = some form }

unfoldable pub prompt_unlock : SecurityTab → SecurityTab
prompt_unlock s =
    let p : Prompt = record { id = s.raised; came_from = s.tab; was_unlocked = false } in
    let opened =
      open_sec_panel (unlock (some s.raised)) (some p)
        (record s { tab = security; raised = suc s.raised }) in
    record opened { message = note still_locked }

-- `onDone(true)`; it changes nothing that is still read when the promise is settled.
abbrev done_for : Option ℕ → Option Prompt → Option Prompt
done_for none owed = owed
done_for (some id) none = none
done_for (some id) (some p) = some (if id == p.id then record p { was_unlocked = true } else p)

abbrev on_done : Form → SecurityTab → SecurityTab
on_done (unlock prompt) s = record s { owed = done_for prompt s.owed }
on_done form s = s

abbrev say : Option Note → SecurityTab → SecurityTab
say none s = s
say (some n) s = record s { message = note n }

abbrev submit_with : Outcome Complaint Request → SecurityTab → SecurityTab × Option Request
submit_with (err c) s = (record s { message = complaint c }, none)
submit_with (ok request) s = (record s { message = quiet }, some request)

-- A submit: a form that fails its checks stays open under the message.
unfoldable pub submit_form : Form → Inputs → SecurityTab → SecurityTab × Option Request
submit_form form inputs s = submit_with (request_of form inputs) s

-- `refresh` and `selectWallet` can throw; the other forms await neither.
abbrev reload_error : Form → Option Text → Option Text
reload_error encrypt e = e
reload_error restore e = e
reload_error create e = e
reload_error (unlock prompt) e = none
reload_error change e = none
reload_error backup e = none

abbrev finish_reload : Form → Inputs → FormAnswer → Option Text → SecurityTab → SecurityTab
finish_reload form inputs reply (some e) s = record s { message = complaint (rpc_error e) }
finish_reload form inputs reply none s =
    say (note_of form inputs reply) (close_sec_panel (on_done form s))

-- The rest of a submit; `reload` is the error of what is awaited behind the call, if there is one.
unfoldable pub finish_form :
    Form → Inputs → Outcome Text FormAnswer → Option Text → SecurityTab → SecurityTab
finish_form form inputs (err e) reload s = record s { message = complaint (rpc_error e) }
finish_form form inputs (ok reply) reload s =
    finish_reload form inputs reply (reload_error form reload) s

pub data Event : Type 0 where
  open_form : Form → Event
  cancel prompted : Event
  submit : Form → Inputs → Event
  answered : Form → Inputs → Outcome Text FormAnswer → Option Text → Event
  locked_now : Option Text → Event
  unloaded_now : Text → Option Text → Option Text → Event
  choose_tab : Tab → Event

abbrev lock_note : Option Text → Message
lock_note none = note wallet_locked
lock_note (some e) = complaint (rpc_error e)

-- `unloadCurrent`, with the error of its call and that of the reload behind it.
abbrev unload_message : Text → Option Text → Message
unload_message name none = note (unloaded name)
unload_message name (some e) = complaint (rpc_error e)

abbrev finish_unload : Text → Option Text → Option Text → SecurityTab → SecurityTab
finish_unload name (some e) reload s = record s { message = complaint (rpc_error e) }
finish_unload name none reload s = record (close_sec_panel s) {
  message = unload_message name reload;
}

unfoldable pub handle : Event → SecurityTab → SecurityTab
handle (open_form form) s = open_sec_panel form none s
handle cancel s = record (close_sec_panel s) { message = quiet }
handle prompted s = prompt_unlock s
handle (submit form inputs) s = (submit_form form inputs s).0
handle (answered form inputs reply reload) s = finish_form form inputs reply reload s
handle (locked_now e) s = record s { message = lock_note e }
handle (unloaded_now name e reload) s = finish_unload name e reload s
handle (choose_tab tab) s = record s { tab = tab }

unfoldable pub handle_all : List Event → SecurityTab → SecurityTab
handle_all [] s = s
handle_all (e ∷ events) s = handle_all events (handle e s)
