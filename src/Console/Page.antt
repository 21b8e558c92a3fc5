-- ===== src/Console/Page.antt =====
-- ui/js/console.js: the page state behind the input: the suggestions, the JSON mode, and `submit`, which is cut
-- at its `await`: `begin_submit` runs up to the call, `finish_submit` when its answer is there. `J` is
-- the type of JSON values, `json` and `array` the browser's parser and the test for an array. What the page only
-- shows (placeholder, focus, rendering) is left out.
pub mod Steps
use bitcoin_lisp.Prelude.{
  ℕ, zero, suc, ◌+◌, ◌-◌, min, List, [], ◌∷◌, map, Bool, true, false, not, ◌&&◌, ◌||◌, ltb, ◌==◌,
  if◌then◌else◌, Option, none, some, or_else, Outcome, ok, err, ◌>>=◌, length, get_elem?, take,
  Text, trim,
}
use bitcoin_lisp.Console.Args.{
  Param, CommandError, bad_method, Command, is_method, parse_command_line, parse_json_params,
}
use bitcoin_lisp.Console.Complete.{filter_completions}
use bitcoin_lisp.Console.History.{History, push, Offset, older, newer, browse}

-- `active` is `activeSuggestion`: `none` is -1. `log` holds the calls that were started.
pub record Page (J : Type 0) : Type 0 where
  pub word_list : List Text
  pub suggestions : List Text
  pub active : Option ℕ
  pub json_mode : Bool
  pub executing : Bool
  pub history : History
  pub input : Text
  pub params_area : Text
  pub input_error : Option CommandError
  pub log : List (Command J)

pub data Key : Type 0 where
  arrow_down arrow_up tab escape enter other : Key

pub data Event : Type 0 where
  typed : Text → Event
  pressed_key : Key → Event
  clicked : ℕ → Event
  toggled run answered : Event

abbrev max_suggestions : ℕ
max_suggestions = 10

abbrev console_history : ℕ
console_history = 50

abbrev pub or_first : Option Text → Option Text → Option Text
or_first none first = first
or_first (some w) first = some w

abbrev pub below : Option ℕ → ℕ → Option ℕ
below none n = some (min 0 (n - 1))
below (some i) n = some (min (i + 1) (n - 1))

abbrev pub above : Option ℕ → Option ℕ
above none = none
above (some zero) = none
above (some (suc i)) = some i

module _ {J : Type 0} where
  unfoldable pub hide_suggestions : Page J → Page J
  hide_suggestions p = record p { suggestions = []; active = none }

  unfoldable pub update_suggestions : Page J → Page J
  update_suggestions p = record p {
    suggestions = take max_suggestions (filter_completions p.word_list p.input);
    active = none;
  }

  abbrev pub taken : Page J → Option Text → Page J
  taken p none = p
  taken p (some word) = hide_suggestions (record p { input = word })

  -- `state.suggestions[index] ?? state.suggestions[0]`; no suggestion is an empty text.
  unfoldable pub accept_suggestion : ℕ → Page J → Page J
  accept_suggestion index p =
      taken p (or_first (get_elem? p.suggestions index) (get_elem? p.suggestions 0))

  unfoldable pub toggle_json_mode : Page J → Page J
  toggle_json_mode p = hide_suggestions (record p { json_mode = not p.json_mode })

  abbrev pub browsing : Offset → Page J → Page J
  browsing offset p =
      let at = browse offset p.history p.input in record p { history = at.0; input = at.1 }

  module _ (json : Text → Option J) (array : J → Option (List J)) where
    abbrev method_only :
        Text → Outcome CommandError (List (Param J)) → Outcome CommandError (Option (Command J))
    method_only line params =
        if not (is_method line)
        then err bad_method
        else (do ps ← params; ok (some (record { method = line; params = ps })))

    unfoldable pub command_in : Page J → Text → Outcome CommandError (Option (Command J))
    command_in p line =
        if p.json_mode
        then method_only line (parse_json_params json array p.params_area)
        else parse_command_line json line

    unfoldable pub start_command :
        Text → Outcome CommandError (Option (Command J)) → Page J → Page J
    start_command line (err e) p = record p { input_error = some e }
    start_command line (ok none) p = p
    start_command line (ok (some c)) p = record p {
      history = push console_history p.history line;
      executing = true;
      log = c ∷ p.log;
    }

    abbrev pub submit_line : Text → Page J → Page J
    submit_line [] p = p
    submit_line (c ∷ cs) p = start_command (c ∷ cs) (command_in p (c ∷ cs)) p

    unfoldable pub begin_submit : Page J → Page J
    begin_submit p =
        if p.executing
        then p
        else (let shut = hide_suggestions (record p { input_error = none }) in
            submit_line (trim p.input) shut)

    -- The `finally` of `submit`, after either answer.
    unfoldable pub finish_submit : Page J → Page J
    finish_submit p = record p { executing = false; input = [] }

    abbrev pub enter_key : Option ℕ → Page J → Page J
    enter_key none p = begin_submit p
    enter_key (some i) p = accept_suggestion i p

    -- `onInputKeydown`; with suggestions on the screen the arrows move among them.
    unfoldable pub on_key : Key → Page J → Page J
    on_key key p = pressed key (ltb 0 (length p.suggestions))
      where
        pressed : Key → Bool → Page J
        pressed arrow_down true = record p { active = below p.active (length p.suggestions) }
        pressed arrow_down false = browsing newer p
        pressed arrow_up true = record p { active = above p.active }
        pressed arrow_up false = browsing older p
        pressed tab true = accept_suggestion (or_else p.active 0) p
        pressed escape true = hide_suggestions p
        pressed enter true = enter_key p.active p
        pressed enter false = begin_submit p
        pressed key is_open = p

    -- What happens on the page. `typed` is the `input` event with the new text, `clicked` a click on a
    -- suggestion, `run` the form's submit, `answered` the end of the call that is being executed.
    unfoldable pub handle : Event → Page J → Page J
    handle (typed text) p = update_suggestions (record p { input = text })
    handle (pressed_key key) p = on_key key p
    handle (clicked index) p = accept_suggestion index p
    handle toggled p = toggle_json_mode p
    handle run p = begin_submit p
    handle answered p = if p.executing then finish_submit p else p

    unfoldable pub handle_all : List Event → Page J → Page J
    handle_all [] p = p
    handle_all (e ∷ events) p = handle_all events (handle e p)
