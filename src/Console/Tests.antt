-- ===== src/Console/Tests.antt =====
-- ui/js/console.js: runs of the parser and of the history, and their theorems at concrete inputs.
use bitcoin_lisp.Prelude.{
  ℕ, List, [], ◌∷◌, ◌++◌, ◌≡◌, refl, arith, ok, err, Option, some, none, codes, Text, map, is_space,
}
use bitcoin_lisp.Console.Tokens.{tokenize, unterminated_quote, scan, step_in, finish}
use bitcoin_lisp.Console.Tokens.Quoting.{quote_all, quoted_token, tokenize-quote_all}
use bitcoin_lisp.Console.Args.{str, parse_command_line, is_method, method_char}
use bitcoin_lisp.Console.Args.Calls.{parse_command_line-quoted}
use bitcoin_lisp.Console.History.{History, push, older, newer}
use bitcoin_lisp.Console.History.Laws.{distinct}
use bitcoin_lisp.Console.History.Keys.{press_times, newer-older, recent, older-recent}
use bitcoin_lisp.Console.History.Recent.{remember, push-recent}
use bitcoin_lisp.Prelude.{get_or}
use bitcoin_lisp.Console.Page.{
  Page, Event, typed, pressed_key, run, answered, arrow_down, arrow_up, enter, handle_all,
}
use bitcoin_lisp.Console.Page.Steps.{IsSound, handle_all-IsSound}
use bitcoin_lisp.Prelude.{false}

abbrev arguments : List Text
arguments = codes "a b" ∷ codes "say \"hi\" \\" ∷ [] ∷ []

abbrev no_json : Text → Option ℕ
no_json t = none

abbrev two_lines : History
two_lines = record {
  items = codes "help" ∷ codes "stop" ∷ [];
  ptr = 2;
  pending = none;
  saved = none;
}

tokenize_open : tokenize (codes "say \"hi") ≡ err unterminated_quote
unfolding tokenize scan step_in is_space finish
tokenize_open = refl

tokenize-quote_all_example : tokenize (quote_all arguments) ≡ ok (map quoted_token arguments)
tokenize-quote_all_example = tokenize-quote_all arguments

parse_command_line-quoted_example :
    parse_command_line no_json (codes "getblock" ++ quote_all arguments)
    ≡ ok (some (record { method = codes "getblock"; params = map str arguments }))
unfolding is_method method_char
parse_command_line-quoted_example =
    parse_command_line-quoted no_json (codes "getblock") arguments refl

newer-older_example :
    (press_times 2 newer (press_times 2 older (two_lines, codes "draft"))).1 ≡ codes "draft"
newer-older_example = newer-older two_lines 1 (codes "draft") refl (omega arith)

abbrev no_array : ℕ → Option (List ℕ)
no_array n = none

abbrev fresh_page : Page ℕ
fresh_page = record {
  word_list = codes "help" ∷ codes "help stop" ∷ codes "stop" ∷ [];
  suggestions = [];
  active = none;
  json_mode = false;
  executing = false;
  history = two_lines;
  input = [];
  params_area = [];
  input_error = none;
  log = [];
}

abbrev some_events : List Event
some_events =
    typed (codes "he")
    ∷ pressed_key arrow_down
    ∷ pressed_key enter
    ∷ pressed_key enter
    ∷ run
    ∷ answered
    ∷ pressed_key arrow_up
    ∷ []

fresh_page-IsSound : IsSound fresh_page
unfolding distinct
fresh_page-IsSound = record { active = tt; once = refl }

handle_all-IsSound_example : IsSound (handle_all no_json no_array some_events fresh_page)
handle_all-IsSound_example =
    handle_all-IsSound no_json no_array some_events fresh_page fresh_page-IsSound

older-recent_example :
    (press_times 2 older (two_lines, codes "draft")).1 ≡ get_or (recent two_lines) 1 []
older-recent_example = older-recent two_lines 1 (codes "draft") refl (omega arith)

push-recent_example :
    recent (push 2 two_lines (codes "help")) ≡ remember 2 (codes "help") (recent two_lines)
unfolding distinct
push-recent_example = push-recent 2 two_lines (codes "help") refl
