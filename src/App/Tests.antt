-- ===== src/App/Tests.antt =====
-- ui/js/app.js: the login form on a cookie, and the scheduler's theorem on a run.
use bitcoin_lisp.Prelude.{◌≡◌, refl, List, [], ◌∷◌, true, false, none, codes, trim}
use bitcoin_lisp.App.{
  Poller, polled, idle, Event, visibility, login, logout, fired, ended, handle_all, login_pair,
  split_colon,
}
use bitcoin_lisp.App.Polling.{timer_current, is_current, handle_all-current}

login_cookie : login_pair (codes "__cookie__:ab ") [] [] ≡ (codes "__cookie__", codes "ab")
unfolding login_pair trim split_colon
login_cookie = refl

abbrev at_boot : Poller
at_boot = record {
  epoch = 0;
  timer = none;
  hidden = false;
  logged_in = false;
  status = idle;
  banner = false;
  started = [];
}

abbrev session : List Event
session =
    login
    ∷ ended 1 polled
    ∷ fired
    ∷ visibility true
    ∷ ended 1 polled
    ∷ visibility false
    ∷ logout
    ∷ []

handle_all-current_example : is_current (handle_all session at_boot) ≡ true
unfolding timer_current
handle_all-current_example = handle_all-current session at_boot refl
