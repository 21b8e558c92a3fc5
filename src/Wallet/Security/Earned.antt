-- ===== src/Wallet/Security/Earned.antt =====
-- Who is told by `promptUnlock` that the wallet was unlocked.
use bitcoin_lisp.Prelude.{
  ℕ, ◌==◌, List, [], ◌∷◌, Bool, true, false, if◌then◌else◌, Option, none, some, Outcome, ok, err,
  Text, ◌≡◌, refl, ap, sym, In, first, later, some_of, arith, ◌||◌, suc,
}
use bitcoin_lisp.Wallet.Security.{
  Prompt, SecurityTab, Event, close_sec_panel, open_sec_panel, prompt_unlock, handle, handle_all,
  submit_form, finish_form, open_form, cancel, prompted, submit, answered, locked_now, unloaded_now,
  choose_tab, call_back, done_for, on_done, submit_with, security, say, finish_reload, reload_error,
}
use bitcoin_lisp.Wallet.Forms.{
  Form, Inputs, Complaint, Request, FormAnswer, request_of, encrypt, change, backup, restore,
  create, unlock, Note, note_of,
}
use bitcoin_lisp.Wallet.Security.Prompts.{fresh}

-- A call of walletpassphrase that a form of the promise `id` sent and that ended well.
unfoldable pub unlocks : ℕ → Event → Bool
unlocks id (answered (unlock (some n)) inputs (ok reply) reload) = n == id
unlocks id other = false

id_eq : (n m : ℕ) → (n == m) ≡ true → n ≡ m
id_eq n m h = ground arith

id_same : (n : ℕ) → (n == n) ≡ true
id_same n = ground arith

or_left : {a : Bool} (b : Bool) → a ≡ true → (a || b) ≡ true
or_left b h = rw h refl

or_right : (a : Bool) {b : Bool} → b ≡ true → (a || b) ≡ true
or_right true h = refl
or_right false h = h

module _ (Q : ℕ → Type 0) where
  -- Who was told that the wallet is unlocked has `Q`.
  abbrev IsEarned : List (ℕ × Bool) → Type 0
  IsEarned settled = (id : ℕ) → In (id, true) settled → Q id

  -- Who will be told so has `Q`.
  abbrev IsOwed : Option Prompt → Type 0
  IsOwed none = Unit
  IsOwed (some p) = p.was_unlocked ≡ true → Q p.id

  abbrev IsHonest : SecurityTab → Type 0
  IsHonest s = IsEarned s.settled × IsOwed s.owed

  settled_one :
      (p : Prompt) (settled : List (ℕ × Bool))
      → IsEarned settled
      → IsOwed (some p)
      → IsEarned ((p.id, p.was_unlocked) ∷ settled)
  settled_one p settled earned owed id (first e) =
      rw (ap (λ r. r.0) e) (owed (sym (ap (λ r. r.1) e)))
  settled_one p settled earned owed id (later h) = earned id h

  call_back-IsHonest :
      (owed : Option Prompt) (s : SecurityTab)
      → IsHonest s
      → IsOwed owed
      → IsHonest (call_back owed s)
  call_back-IsHonest none s h o = h
  call_back-IsHonest (some p) s h o = (settled_one p s.settled h.0 o, h.1)

  close-IsHonest : (s : SecurityTab) → IsHonest s → IsHonest (close_sec_panel s)
  unfolding close_sec_panel
  close-IsHonest s h =
      call_back-IsHonest s.owed (record s { owed = none; panel = none }) (h.0, tt) h.1

  say-IsHonest : (n : Option Note) (s : SecurityTab) → IsHonest s → IsHonest (say n s)
  say-IsHonest none s h = h
  say-IsHonest (some n) s h = h

  done_for-IsOwed :
      (id : ℕ) (owed : Option Prompt) → Q id → IsOwed owed → IsOwed (done_for (some id) owed)
  done_for-IsOwed id none q o = tt
  done_for-IsOwed id (some p) q o = go (id == p.id) refl
    where
      go :
          (b : Bool)
          → (id == p.id) ≡ b
          → IsOwed (some (if b then record p { was_unlocked = true } else p))
      go true e h = rw⁻¹ (id_eq id p.id e) q
      go false e h = o h

  unlock-IsHonest :
      (prompt : Option ℕ) (s : SecurityTab)
      → ((id : ℕ) → prompt ≡ some id → Q id)
      → IsHonest s
      → IsHonest (on_done (unlock prompt) s)
  unlock-IsHonest none s q h = h
  unlock-IsHonest (some id) s q h = (h.0, done_for-IsOwed id s.owed (q id refl) h.1)

  on_done-IsHonest :
      (form : Form) (s : SecurityTab)
      → ((id : ℕ) → form ≡ unlock (some id) → Q id)
      → IsHonest s
      → IsHonest (on_done form s)
  on_done-IsHonest (unlock prompt) s q h = unlock-IsHonest prompt s (λ id e. q id (ap unlock e)) h
  on_done-IsHonest encrypt s q h = h
  on_done-IsHonest change s q h = h
  on_done-IsHonest backup s q h = h
  on_done-IsHonest restore s q h = h
  on_done-IsHonest create s q h = h

  submit_with-IsHonest :
      (r : Outcome Complaint Request) (s : SecurityTab) → IsHonest s → IsHonest (submit_with r s).0
  submit_with-IsHonest (err c) s h = h
  submit_with-IsHonest (ok r) s h = h

  finish_form-IsHonest :
      (form : Form) (inputs : Inputs) (reply : Outcome Text FormAnswer) (reload : Option Text)
      (s : SecurityTab)
      → ((id : ℕ) → unlocks id (answered form inputs reply reload) ≡ true → Q id)
      → IsHonest s
      → IsHonest (finish_form form inputs reply reload s)
  unfolding finish_form unlocks
  finish_form-IsHonest form inputs (err e) reload s q h = h
  finish_form-IsHonest form inputs (ok reply) reload s q h = go (reload_error form reload)
    where
      done : IsHonest (on_done form s)
      done = on_done-IsHonest form s (λ id e. q id (rw e (id_same id))) h

      go : (e : Option Text) → IsHonest (finish_reload form inputs reply e s)
      go (some e) = h
      go none =
          say-IsHonest (note_of form inputs reply) (close_sec_panel (on_done form s))
            (close-IsHonest (on_done form s) done)

  handle-IsHonest :
      (e : Event) (s : SecurityTab)
      → ((id : ℕ) → unlocks id e ≡ true → Q id)
      → IsHonest s
      → IsHonest (handle e s)
  unfolding handle open_sec_panel prompt_unlock submit_form
  handle-IsHonest (open_form form) s q h = ((close-IsHonest s h).0, tt)
  handle-IsHonest cancel s q h = close-IsHonest s h
  handle-IsHonest prompted s q h =
      ((close-IsHonest (record s { tab = security; raised = suc s.raised }) h).0, λ e. absurd (cc))
  handle-IsHonest (submit form inputs) s q h = submit_with-IsHonest (request_of form inputs) s h
  handle-IsHonest (answered form inputs reply reload) s q h =
      finish_form-IsHonest form inputs reply reload s q h
  handle-IsHonest (locked_now e) s q h = h
  handle-IsHonest (unloaded_now name none reload) s q h = close-IsHonest s h
  handle-IsHonest (unloaded_now name (some e) reload) s q h = h
  handle-IsHonest (choose_tab tab) s q h = h

  handle_all-IsHonest :
      (events : List Event) (s : SecurityTab)
      → ((id : ℕ) → some_of (unlocks id) events ≡ true → Q id)
      → IsHonest s
      → IsHonest (handle_all events s)
  unfolding handle_all
  handle_all-IsHonest [] s q h = h
  handle_all-IsHonest (e ∷ events) s q h =
      handle_all-IsHonest events (handle e s) (λ id t. q id (or_right (unlocks id e) t))
        (handle-IsHonest e s (λ id t. q id (or_left (some_of (unlocks id) events) t)) h)

-- After any events from a fresh page, a promise of promptUnlock that was settled with true belongs to a form whose
-- call of walletpassphrase ended well.
pub handle_all-unlocks :
    (events : List Event) (id : ℕ)
    → In (id, true) (handle_all events fresh).settled
    → some_of (unlocks id) events ≡ true
handle_all-unlocks events id h =
    (handle_all-IsHonest (λ n. some_of (unlocks n) events ≡ true) events fresh (λ n t. t)
        ((λ n k. elim k [ ]), tt)).0
      id h
