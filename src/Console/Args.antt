-- ===== src/Console/Args.antt =====
-- ui/js/console.js: `convertArg`, `parseCommandLine`, `parseJsonParams` and the two regular expressions.
-- `JSON.parse` and `Number` belong to the browser: a parameter gives the value that a text has, if any.
pub mod Calls
use bitcoin_lisp.Prelude.{
  ℕ, List, [], ◌∷◌, map, Bool, true, false, not, ◌&&◌, ◌||◌, leb, ◌==◌, if◌then◌else◌, Option, none,
  some, Outcome, ok, err, ◌>>=◌, every_of, is_digit, Text, codes, text_eq, trim,
}
use bitcoin_lisp.Console.Tokens.{Token, TokenError, tokenize}

-- A JSON value as far as this file looks at it: whatever the browser's parser gives is `parsed`.
pub data Param (J : Type 0) : Type 0 where
  str : Text → Param J
  bool : Bool → Param J
  null : Param J
  number : Text → Param J
  parsed : J → Param J

pub data CommandError : Type 0 where
  bad_token : TokenError → CommandError
  not_json : Text → CommandError
  method_expected not_array bad_method : CommandError

pub record Command (J : Type 0) : Type 0 where
  pub method : Text
  pub params : List (Param J)

unfoldable pub method_char : ℕ → Bool
unfolding is_digit
method_char c =
    leb b'a' c && leb c b'z' || leb b'A' c && leb c b'Z' || is_digit c || c == b'_' || c == b'-'

-- METHOD_RE: one letter, digit, `_` or `-`, or more.
unfoldable pub is_method : Text → Bool
is_method [] = false
is_method (c ∷ cs) = every_of method_char (c ∷ cs)

-- NUMBER_RE in its parts: each takes what it may from the front and goes on, or refuses.
skip_digits : Text → Text
skip_digits [] = []
skip_digits (c ∷ cs) = let rest = skip_digits cs in if is_digit c then rest else c ∷ cs

some_digits : Text → Option Text
some_digits [] = none
some_digits (c ∷ cs) = if is_digit c then some (skip_digits cs) else none

abbrev after_sign : Text → Text
after_sign [] = []
after_sign (c ∷ cs) = if c == b'+' || c == b'-' then cs else c ∷ cs

abbrev at_end : Option Text → Bool
at_end none = false
at_end (some []) = true
at_end (some (c ∷ cs)) = false

-- `([eE][+-]?\d+)?$`.
exponent : Text → Bool
exponent [] = true
exponent (c ∷ cs) = (c == b'e' || c == b'E') && at_end (some_digits (after_sign cs))

exponent_of : Option Text → Bool
exponent_of none = false
exponent_of (some rest) = exponent rest

-- `(\.\d+)?` and the exponent.
fraction : Text → Bool
fraction [] = true
fraction (c ∷ cs) = if c == b'.' then exponent_of (some_digits cs) else exponent (c ∷ cs)

-- `(0|[1-9]\d*)` and what follows.
abbrev whole : Text → Bool
whole [] = false
whole (c ∷ cs) = if c == b'0' then fraction cs else is_digit c && fraction (skip_digits cs)

unfoldable pub is_number : Text → Bool
unfolding fraction skip_digits exponent_of some_digits exponent
is_number [] = false
is_number (c ∷ cs) = if c == b'-' then whole cs else whole (c ∷ cs)

module _ {J : Type 0} (json : Text → Option J) where
  abbrev json_param : Text → Option J → Outcome CommandError (Param J)
  json_param t none = err (not_json t)
  json_param t (some value) = ok (parsed value)

  unfoldable pub starts_json : Text → Bool
  starts_json [] = false
  starts_json (c ∷ cs) = c == b'[' || c == b'{'

  unfoldable pub convert_arg : Token → Outcome CommandError (Param J)
  convert_arg token =
      let t = token.text in
      if token.quoted
      then ok (str t)
      else if text_eq t (codes "true")
      then ok (bool true)
      else if text_eq t (codes "false")
      then ok (bool false)
      else if text_eq t (codes "null")
      then ok null
      else if is_number t
      then ok (number t)
      else if starts_json t
      then json_param t (json t)
      else ok (str t)

  unfoldable pub convert_all : List Token → Outcome CommandError (List (Param J))
  convert_all [] = ok []
  convert_all (token ∷ tokens) = do p ← convert_arg token; ps ← convert_all tokens; ok (p ∷ ps)

  unfoldable pub command_of : List Token → Outcome CommandError (Option (Command J))
  command_of [] = ok none
  command_of (head ∷ rest) =
      if head.quoted || not (is_method head.text) then err method_expected else (do
        params ← convert_all rest
        ok (some (record { method = head.text; params = params })))

  abbrev tokens_or : Outcome TokenError (List Token) → Outcome CommandError (List Token)
  tokens_or (ok tokens) = ok tokens
  tokens_or (err e) = err (bad_token e)

  unfoldable pub parse_command_line : Text → Outcome CommandError (Option (Command J))
  parse_command_line line = tokens_or (tokenize line) >>= command_of

  -- `parseJsonParams`: `array` gives a value's elements when it is an array.
  unfoldable pub parse_json_params :
      (J → Option (List J)) → Text → Outcome CommandError (List (Param J))
  parse_json_params array text = json_params (trim text)
    where
      elements : Option (List J) → Outcome CommandError (List (Param J))
      elements none = err not_array
      elements (some values) = ok (map parsed values)

      value_of : Text → Option J → Outcome CommandError (List (Param J))
      value_of t none = err (not_json t)
      value_of t (some value) = elements (array value)

      json_params : Text → Outcome CommandError (List (Param J))
      json_params [] = ok []
      json_params (c ∷ cs) = value_of (c ∷ cs) (json (c ∷ cs))
