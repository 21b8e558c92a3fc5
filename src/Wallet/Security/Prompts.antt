-- ===== src/Wallet/Security/Prompts.antt =====
-- What the promises of `promptUnlock` are settled with, and when.
use bitcoin_lisp.Prelude.{
  ℕ, zero, suc, ◌==◌, List, [], ◌∷◌, ◌++◌, Bool, true, false, if◌then◌else◌, Option, none, some,
  Outcome, ok, err, Text, ◌≡◌, refl, ◌∙◌,
}
use bitcoin_lisp.Wallet.Security.{
  Prompt, SecurityTab, Event, close_sec_panel, open_sec_panel, prompt_unlock, handle, handle_all,
  submit_form, finish_form, security, open_form, cancel, prompted, submit, answered, locked_now,
  unloaded_now, choose_tab, call_back, done_for, on_done, finish_reload, security, say,
  reload_error, overview, quiet, submit_with,
}
use bitcoin_lisp.Wallet.Forms.{
  Form, Inputs, Complaint, Request, FormAnswer, request_of, encrypt, change, backup, restore,
  create, unlock, Note, unlock, note_of,
}

abbrev owed_ids : Option Prompt → List ℕ
owed_ids none = []
owed_ids (some p) = p.id ∷ []

unfoldable pub settled_ids : List (ℕ × Bool) → List ℕ
settled_ids [] = []
settled_ids (r ∷ rs) = r.0 ∷ settled_ids rs

abbrev raised_ids : SecurityTab → List ℕ
raised_ids s = owed_ids s.owed ++ settled_ids s.settled

unfoldable pub count_down : ℕ → List ℕ
count_down zero = []
count_down (suc n) = n ∷ count_down n

-- The promises that were raised, the latest first, are those that are owed an answer and those that were settled.
abbrev IsAnswered : SecurityTab → Type 0
IsAnswered s = raised_ids s ≡ count_down s.raised

call_back-ids :
    (owed : Option Prompt) (s : SecurityTab)
    → settled_ids (call_back owed s).settled ≡ owed_ids owed ++ settled_ids s.settled
unfolding settled_ids
call_back-ids none s = refl
call_back-ids (some p) s = refl

call_back-owed : (owed : Option Prompt) (s : SecurityTab) → (call_back owed s).owed ≡ s.owed
call_back-owed none s = refl
call_back-owed (some p) s = refl

call_back-raised : (owed : Option Prompt) (s : SecurityTab) → (call_back owed s).raised ≡ s.raised
call_back-raised none s = refl
call_back-raised (some p) s = refl

close-owed : (s : SecurityTab) → (close_sec_panel s).owed ≡ none
unfolding close_sec_panel
close-owed s = call_back-owed s.owed (record s { owed = none; panel = none })

close-raised : (s : SecurityTab) → (close_sec_panel s).raised ≡ s.raised
unfolding close_sec_panel
close-raised s = call_back-raised s.owed (record s { owed = none; panel = none })

close-settled : (s : SecurityTab) → settled_ids (close_sec_panel s).settled ≡ raised_ids s
unfolding close_sec_panel
close-settled s = call_back-ids s.owed (record s { owed = none; panel = none })

close-IsAnswered :
    (s : SecurityTab)
    → IsAnswered s
    → settled_ids (close_sec_panel s).settled ≡ count_down (close_sec_panel s).raised
close-IsAnswered s h = rw (close-settled s, close-raised s) h

closed-IsAnswered : (s : SecurityTab) → IsAnswered s → IsAnswered (close_sec_panel s)
closed-IsAnswered s h = rw (close-owed s) (close-IsAnswered s h)

done_for-ids :
    (prompt : Option ℕ) (owed : Option Prompt) → owed_ids (done_for prompt owed) ≡ owed_ids owed
done_for-ids none owed = refl
done_for-ids (some id) none = refl
done_for-ids (some id) (some p) = go (id == p.id)
  where
    go : (b : Bool) → (if b then record p { was_unlocked = true } else p).id ∷ [] ≡ p.id ∷ []
    go true = refl
    go false = refl

on_done-IsAnswered : (form : Form) (s : SecurityTab) → IsAnswered s → IsAnswered (on_done form s)
on_done-IsAnswered (unlock prompt) s h = rw (done_for-ids prompt s.owed) h
on_done-IsAnswered encrypt s h = h
on_done-IsAnswered change s h = h
on_done-IsAnswered backup s h = h
on_done-IsAnswered restore s h = h
on_done-IsAnswered create s h = h

say-IsAnswered : (n : Option Note) (s : SecurityTab) → IsAnswered s → IsAnswered (say n s)
say-IsAnswered none s h = h
say-IsAnswered (some n) s h = h

finish_form-IsAnswered :
    (form : Form) (inputs : Inputs) (reply : Outcome Text FormAnswer) (reload : Option Text)
    (s : SecurityTab)
    → IsAnswered s
    → IsAnswered (finish_form form inputs reply reload s)
unfolding finish_form
finish_form-IsAnswered form inputs (err e) reload s h = h
finish_form-IsAnswered form inputs (ok reply) reload s h = go (reload_error form reload)
  where
    go : (e : Option Text) → IsAnswered (finish_reload form inputs reply e s)
    go (some e) = h
    go none =
        say-IsAnswered (note_of form inputs reply) (close_sec_panel (on_done form s))
          (closed-IsAnswered (on_done form s) (on_done-IsAnswered form s h))

prompt_unlock-IsAnswered : (s : SecurityTab) → IsAnswered s → IsAnswered (prompt_unlock s)
unfolding prompt_unlock open_sec_panel count_down
prompt_unlock-IsAnswered s h =
    let raised : SecurityTab = record s { tab = security; raised = suc s.raised } in
    rw (close-settled raised, close-raised raised, h) refl

submit_with-IsAnswered :
    (r : Outcome Complaint Request) (s : SecurityTab)
    → IsAnswered s
    → IsAnswered (submit_with r s).0
submit_with-IsAnswered (err c) s h = h
submit_with-IsAnswered (ok r) s h = h

submit_form-IsAnswered :
    (form : Form) (inputs : Inputs) (s : SecurityTab)
    → IsAnswered s
    → IsAnswered (submit_form form inputs s).0
unfolding submit_form
submit_form-IsAnswered form inputs s h = submit_with-IsAnswered (request_of form inputs) s h

handle-IsAnswered : (e : Event) (s : SecurityTab) → IsAnswered s → IsAnswered (handle e s)
unfolding handle open_sec_panel
handle-IsAnswered (open_form form) s h = close-IsAnswered s h
handle-IsAnswered cancel s h = closed-IsAnswered s h
handle-IsAnswered prompted s h = prompt_unlock-IsAnswered s h
handle-IsAnswered (submit form inputs) s h = submit_form-IsAnswered form inputs s h
handle-IsAnswered (answered form inputs reply reload) s h =
    finish_form-IsAnswered form inputs reply reload s h
handle-IsAnswered (locked_now e) s h = h
handle-IsAnswered (unloaded_now name none reload) s h = closed-IsAnswered s h
handle-IsAnswered (unloaded_now name (some e) reload) s h = h
handle-IsAnswered (choose_tab tab) s h = h

abbrev pub fresh : SecurityTab
fresh = record {
  tab = overview;
  panel = none;
  owed = none;
  raised = 0;
  settled = [];
  message = quiet;
}

handle_all-IsAnswered :
    (events : List Event) (s : SecurityTab) → IsAnswered s → IsAnswered (handle_all events s)
unfolding handle_all
handle_all-IsAnswered [] s h = h
handle_all-IsAnswered (e ∷ events) s h =
    handle_all-IsAnswered events (handle e s) (handle-IsAnswered e s h)

-- After any events from a fresh page, the promises of promptUnlock that are settled once the panel is closed are all
-- that were ever raised, each of them settled exactly once, in the order in which they were raised.
pub handle_all-Settles :
    (events : List Event)
    → settled_ids (close_sec_panel (handle_all events fresh)).settled
      ≡ count_down (handle_all events fresh).raised
unfolding settled_ids count_down
handle_all-Settles events =
    close-settled (handle_all events fresh) ∙ handle_all-IsAnswered events fresh refl
