-- ===== src/App/Polling.antt =====
-- What the timer may start.
use bitcoin_lisp.Prelude.{
  ℕ, List, [], ◌∷◌, Bool, true, false, not, ◌&&◌, ◌||◌, ◌==◌, if◌then◌else◌, Option, none, some,
  ◌≡◌, refl, subst, arith,
}
use bitcoin_lisp.App.{
  Poller, PollEnd, polled, auth_failed, failed, stop_polling, begin_poll, reschedule, show_login,
  finish_poll, fire, idle, live, down, start_polling, on_visibility, Event, visibility, login,
  logout, fired, ended, handle, handle_all,
}

-- A timer that is set is that of the current epoch, on a visible page with a session.
unfoldable pub timer_current : Option ℕ → Poller → Bool
timer_current none s = true
timer_current (some e) s = (e == s.epoch) && not s.hidden && s.logged_in

abbrev pub is_current : Poller → Bool
is_current s = timer_current s.timer s

either_current :
    (b : Bool) (s t : Poller)
    → is_current s ≡ true
    → is_current t ≡ true
    → is_current (if b then s else t) ≡ true
either_current true s t h k = h
either_current false s t h k = k

with_current :
    (s t : Poller)
    → s.epoch ≡ t.epoch
    → s.hidden ≡ t.hidden
    → s.logged_in ≡ t.logged_in
    → s.timer ≡ t.timer
    → is_current s ≡ true
    → is_current t ≡ true
unfolding timer_current
with_current s t e h l m c = go s.timer t.timer m c
  where
    go : (a b : Option ℕ) → a ≡ b → timer_current a s ≡ true → timer_current b t ≡ true
    go a none m c = refl
    go none (some x) m c = absurd cc
    go (some y) (some x) m c =
        rw (← e) (rw (← h) (rw (← l) (subst (λ o. timer_current o s ≡ true) m c)))

begin_poll-current : (n : ℕ) (s : Poller) → is_current s ≡ true → is_current (begin_poll n s) ≡ true
unfolding begin_poll
begin_poll-current n s h =
    either_current (not (n == s.epoch) || s.hidden || not s.logged_in) s
      (record s { started = n ∷ s.started }) h
      (with_current s (record s { started = n ∷ s.started }) refl refl refl refl h)

guarded_current :
    (b : Bool) (s t : Poller)
    → is_current s ≡ true
    → (b ≡ true → is_current t ≡ true)
    → is_current (if b then t else s) ≡ true
guarded_current true s t h k = k refl
guarded_current false s t h k = h

reschedule-current : (n : ℕ) (s : Poller) → is_current s ≡ true → is_current (reschedule n s) ≡ true
unfolding reschedule timer_current
reschedule-current n s h =
    guarded_current ((n == s.epoch) && not s.hidden && s.logged_in) s (record s { timer = some n })
      h (λ e. e)

start_polling-current : (s : Poller) → is_current (start_polling s) ≡ true
unfolding start_polling stop_polling timer_current
start_polling-current s =
    let t = record (stop_polling s) { status = idle } in begin_poll-current t.epoch t refl

visible_current :
    (a : Option ℕ) (s : Poller)
    → timer_current a s ≡ true
    → timer_current a (record s { hidden = false }) ≡ true
unfolding timer_current
visible_current none s h = refl
visible_current (some e) s h = ground arith

visibility-current :
    (b : Bool) (s : Poller) → is_current s ≡ true → is_current (on_visibility b s) ≡ true
unfolding on_visibility stop_polling timer_current
visibility-current true s h = refl
visibility-current false s h =
    either_current s.logged_in (start_polling (record s { hidden = false }))
      (record s { hidden = false }) (start_polling-current (record s { hidden = false }))
      (visible_current s.timer s h)

finish_poll-current :
    (n : ℕ) (e : PollEnd) (s : Poller) → is_current s ≡ true → is_current (finish_poll n e s) ≡ true
unfolding finish_poll show_login stop_polling timer_current
finish_poll-current n polled s h =
    let t = record s { status = live; banner = false } in
    reschedule-current n t (with_current s t refl refl refl refl h)
finish_poll-current n auth_failed s h = refl
finish_poll-current n failed s h =
    let t = record s { status = down; banner = true } in
    reschedule-current n t (with_current s t refl refl refl refl h)

fire-current : (a : Option ℕ) (s : Poller) → is_current s ≡ true → is_current (fire a s) ≡ true
unfolding timer_current
fire-current none s h = h
fire-current (some n) s h = begin_poll-current n (record s { timer = none }) refl

handle-current : (e : Event) (s : Poller) → is_current s ≡ true → is_current (handle e s) ≡ true
unfolding handle show_login stop_polling timer_current
handle-current (visibility b) s h = visibility-current b s h
handle-current login s h = start_polling-current (record s { logged_in = true })
handle-current logout s h = refl
handle-current fired s h = fire-current s.timer s h
handle-current (ended n e) s h = finish_poll-current n e s h

-- After any sequence of logins, logouts, changes of the page's visibility, timers and ends of polls of any
-- epoch, from a scheduler whose timer is so: a timer that is set starts a poll of the current epoch, and
-- only while the page is visible and there is a session.
pub handle_all-current :
    (events : List Event) (s : Poller)
    → is_current s ≡ true
    → is_current (handle_all events s) ≡ true
unfolding handle_all
handle_all-current [] s h = h
handle_all-current (e ∷ events) s h = handle_all-current events (handle e s) (handle-current e s h)
