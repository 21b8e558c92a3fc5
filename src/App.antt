-- ===== src/App.antt =====
-- ui/js/app.js: the poll scheduler and the login form. A poll is cut at its `await`: `begin_poll` is the test in
-- front, `finish_poll` what follows when the batch is answered. `timer` is the epoch of the poll that the
-- timer starts.
pub mod Polling
pub mod Routes
mod Tests
use bitcoin_lisp.Prelude.{
  ℕ, suc, ◌+◌, List, [], ◌∷◌, ◌++◌, Bool, true, false, not, ◌&&◌, ◌||◌, ◌==◌, if◌then◌else◌, Option,
  none, some, Outcome, ok, err, Text, codes, trim,
}

pub data Connection : Type 0 where
  idle live down : Connection

pub record Poller : Type 0 where
  pub epoch : ℕ
  pub timer : Option ℕ
  pub hidden : Bool
  pub logged_in : Bool
  pub status : Connection
  pub banner : Bool
  pub started : List ℕ

-- What a poll ends with.
pub data PollEnd : Type 0 where
  polled auth_failed failed : PollEnd

unfoldable pub stop_polling : Poller → Poller
stop_polling s = record s { epoch = s.epoch + 1; timer = none }

-- `if (epoch !== pollEpoch || document.hidden || !loggedIn) return`
unfoldable pub begin_poll : ℕ → Poller → Poller
begin_poll epoch s =
    if not (epoch == s.epoch) || s.hidden || not s.logged_in
    then s
    else record s { started = epoch ∷ s.started }

-- The end of `poll`: the next one is scheduled.
unfoldable pub reschedule : ℕ → Poller → Poller
reschedule epoch s =
    if (epoch == s.epoch) && not s.hidden && s.logged_in then record s { timer = some epoch } else s

-- `showLogin` stops the polling and ends the session.
unfoldable pub show_login : Poller → Poller
show_login s = stop_polling (record s { logged_in = false })

unfoldable pub finish_poll : ℕ → PollEnd → Poller → Poller
finish_poll epoch polled s = reschedule epoch (record s { status = live; banner = false })
finish_poll epoch auth_failed s = show_login s
finish_poll epoch failed s = reschedule epoch (record s { status = down; banner = true })

unfoldable pub start_polling : Poller → Poller
start_polling s = let t = record (stop_polling s) { status = idle } in begin_poll t.epoch t

unfoldable pub on_visibility : Bool → Poller → Poller
on_visibility hidden s =
    let t = record s { hidden = hidden } in
    if hidden then stop_polling t else if s.logged_in then start_polling t else t

-- `cookie.indexOf(':')`: the text in front of the first colon and that behind it.
unfoldable pub split_colon : Text → Option (Text × Text)
split_colon [] = none
split_colon (c ∷ cs) = if c == b':' then some ([], cs) else behind (split_colon cs)
  where
    behind : Option (Text × Text) → Option (Text × Text)
    behind none = none
    behind (some parts) = some (c ∷ parts.0, parts.1)

abbrev from_cookie : Text → Option (Text × Text) → Text × Text
from_cookie cookie none = (codes "__cookie__", cookie)
from_cookie cookie (some parts) = parts

-- The user and the password that the login form gives.
unfoldable pub login_pair : Text → Text → Text → Text × Text
login_pair cookie user pass = chosen (trim cookie)
  where
    chosen : Text → Text × Text
    chosen [] = (trim user, pass)
    chosen (c ∷ cs) = from_cookie (c ∷ cs) (split_colon (c ∷ cs))

-- What happens to the scheduler: `fired` is the timer, `ended` the end of the poll of an epoch, whichever that is.
pub data Event : Type 0 where
  visibility : Bool → Event
  login logout fired : Event
  ended : ℕ → PollEnd → Event

abbrev pub fire : Option ℕ → Poller → Poller
fire none s = s
fire (some epoch) s = begin_poll epoch (record s { timer = none })

unfoldable pub handle : Event → Poller → Poller
handle (visibility hidden) s = on_visibility hidden s
handle login s = start_polling (record s { logged_in = true })
handle logout s = show_login s
handle fired s = fire s.timer s
handle (ended epoch e) s = finish_poll epoch e s

unfoldable pub handle_all : List Event → Poller → Poller
handle_all [] s = s
handle_all (e ∷ events) s = handle_all events (handle e s)
