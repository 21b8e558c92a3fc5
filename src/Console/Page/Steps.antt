-- ===== src/Console/Page/Steps.antt =====
-- What holds of the page after any events.
use bitcoin_lisp.Prelude.{
  ℕ, zero, suc, ◌<◌, List, [], ◌∷◌, Bool, true, false, not, ltb, ◌≡◌, arith, Option, none, some,
  or_else, Outcome, ok, err, length, get_elem?, if◌then◌else◌, Text, trim, Bool-cases, inl, inr,
  ltb→lt,
}
use bitcoin_lisp.Console.Args.{CommandError, Command}
use bitcoin_lisp.Console.History.{browse, browsed}
use bitcoin_lisp.Console.History.Laws.{distinct, push-IsValid}
use bitcoin_lisp.Console.Page.{
  Page, Key, Event, handle, handle_all, on_key, begin_submit, finish_submit, start_command,
  command_in, accept_suggestion, hide_suggestions, update_suggestions, toggle_json_mode, typed,
  pressed_key, clicked, toggled, run, answered, below, above, taken, or_first, arrow_down, arrow_up,
  tab, escape, enter, other, enter_key, submit_line,
}

abbrev pub InRange : Option ℕ → ℕ → Type 0
InRange none n = Unit
InRange (some i) n = i < n

-- The active suggestion is one of those on the screen, and no line stands twice in the history.
pub record IsSound {J : Type 0} (p : Page J) : Type 0 where
  pub active : InRange p.active (length p.suggestions)
  pub once : distinct p.history.items ≡ true

below-InRange : (a : Option ℕ) (n : ℕ) → 0 < n → InRange (below a n) n
below-InRange none n h = omega arith
below-InRange (some i) n h = omega arith

above-InRange : (a : Option ℕ) (n : ℕ) → InRange a n → InRange (above a) n
above-InRange none n h = tt
above-InRange (some zero) n h = tt
above-InRange (some (suc i)) n h = omega arith

module _ {J : Type 0} where
  either-IsSound : (b : Bool) (p q : Page J) → IsSound p → IsSound q → IsSound (if b then p else q)
  either-IsSound true p q s r = s
  either-IsSound false p q s r = r

  hide-IsSound : (p : Page J) → distinct p.history.items ≡ true → IsSound (hide_suggestions p)
  unfolding hide_suggestions
  hide-IsSound p once = record { active = tt; once = once }

  accept-IsSound : (i : ℕ) (p : Page J) → IsSound p → IsSound (accept_suggestion i p)
  unfolding accept_suggestion
  accept-IsSound i p s = go (or_first (get_elem? p.suggestions i) (get_elem? p.suggestions 0))
    where
      go : (word : Option Text) → IsSound (taken p word)
      go none = s
      go (some word) = hide-IsSound (record p { input = word }) s.once

  module _ (json : Text → Option J) (array : J → Option (List J)) where
    start-IsSound :
        (line : Text) (c : Outcome CommandError (Option (Command J))) (p : Page J)
        → IsSound p
        → IsSound (start_command json array line c p)
    unfolding start_command
    start-IsSound line (err e) p s = record { active = s.active; once = s.once }
    start-IsSound line (ok none) p s = s
    start-IsSound line (ok (some c)) p s = record {
      active = s.active;
      once = (push-IsValid 50 p.history line s.once).once;
    }

    submit-IsSound : (p : Page J) → IsSound p → IsSound (begin_submit json array p)
    unfolding begin_submit
    submit-IsSound p s =
        either-IsSound p.executing p (submit_line json array (trim p.input) shut) s
          (go (trim p.input))
      where
        shut : Page J
        shut = hide_suggestions (record p { input_error = none })

        shut-IsSound : IsSound shut
        shut-IsSound = hide-IsSound (record p { input_error = none }) s.once

        go : (line : Text) → IsSound (submit_line json array line shut)
        go [] = shut-IsSound
        go (c ∷ cs) = start-IsSound (c ∷ cs) (command_in json array shut (c ∷ cs)) shut shut-IsSound

    key-IsSound : (key : Key) (p : Page J) → IsSound p → IsSound (on_key json array key p)
    unfolding on_key browse browsed
    key-IsSound arrow_down p s = elim (Bool-cases (ltb 0 (length p.suggestions))) [
      | inl t ↦ rw t (record {
        active = below-InRange p.active (length p.suggestions) (ltb→lt _ _ t);
        once = s.once;
      })
      | inr f ↦ rw f (record { active = s.active; once = s.once })
    ]
    key-IsSound arrow_up p s = elim (Bool-cases (ltb 0 (length p.suggestions))) [
      | inl t ↦ rw t (record {
        active = above-InRange p.active (length p.suggestions) s.active;
        once = s.once;
      })
      | inr f ↦ rw f (record { active = s.active; once = s.once })
    ]
    key-IsSound tab p s = elim (Bool-cases (ltb 0 (length p.suggestions))) [
      | inl t ↦ rw t (accept-IsSound (or_else p.active 0) p s)
      | inr f ↦ rw f s
    ]
    key-IsSound escape p s = elim (Bool-cases (ltb 0 (length p.suggestions))) [
      | inl t ↦ rw t (hide-IsSound p s.once)
      | inr f ↦ rw f s
    ]
    key-IsSound enter p s = elim (Bool-cases (ltb 0 (length p.suggestions))) [
      | inl t ↦ rw t (entered p.active)
      | inr f ↦ rw f (submit-IsSound p s)
    ]
      where
        entered : (a : Option ℕ) → IsSound (enter_key json array a p)
        entered none = submit-IsSound p s
        entered (some i) = accept-IsSound i p s
    key-IsSound other p s = s

    handle-IsSound : (e : Event) (p : Page J) → IsSound p → IsSound (handle json array e p)
    unfolding handle update_suggestions toggle_json_mode finish_submit
    handle-IsSound (typed text) p s = record { active = tt; once = s.once }
    handle-IsSound (pressed_key key) p s = key-IsSound key p s
    handle-IsSound (clicked i) p s = accept-IsSound i p s
    handle-IsSound toggled p s = hide-IsSound (record p { json_mode = not p.json_mode }) s.once
    handle-IsSound run p s = submit-IsSound p s
    handle-IsSound answered p s = elim (Bool-cases p.executing) [
      | inl t ↦ rw t (record { active = s.active; once = s.once })
      | inr f ↦ rw f (record { active = s.active; once = s.once })
    ]

    -- After any sequence of typed text, keys, clicks, submits and answers, from a page whose active suggestion
    -- is on the screen and whose history has no line twice, the same holds again.
    pub handle_all-IsSound :
        (events : List Event) (p : Page J) → IsSound p → IsSound (handle_all json array events p)
    unfolding handle_all
    handle_all-IsSound [] p s = s
    handle_all-IsSound (e ∷ events) p s =
        handle_all-IsSound events (handle json array e p) (handle-IsSound e p s)
