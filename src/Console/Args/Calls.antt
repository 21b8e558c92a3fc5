-- ===== src/Console/Args/Calls.antt =====
-- A command line that names a method and quotes its arguments calls that method with those texts.
use bitcoin_lisp.Prelude.{
  ℕ, List, [], ◌∷◌, ◌++◌, map, Bool, true, false, ◌==◌, ◌||◌, not, Option, some, ok, Text, ◌≡◌,
  refl, arith, append-nil, append_assoc, is_digit, is_space, every_of,
}
use bitcoin_lisp.Console.Tokens.{Token, Scan, start, normal, step_in, scan, finish, tokenize}
use bitcoin_lisp.Console.Tokens.Quoting.{
  escape, quote, quote_all, quoted_token, inside, read, scan-escape, read-quote_all,
}
use bitcoin_lisp.Console.Args.{
  str, method_char, is_method, convert_arg, convert_all, command_of, parse_command_line,
}

module _ {J : Type 0} (json : Text → Option J) where
  convert_all-quoted :
      (args : List Text) → convert_all json (map quoted_token args) ≡ ok (map str args)
  unfolding convert_all convert_arg
  convert_all-quoted [] = refl
  convert_all-quoted (a ∷ args) = rw (convert_all-quoted args) refl

abbrev word : Text → Scan
word cur = record {
  tokens = [];
  cur = cur;
  quoted = false;
  started = true;
  depth = 0;
  mode = normal;
  skip = false;
}

abbrev plain_unit : ℕ → Bool
plain_unit c =
    not (c == b'"' || c == b'\'' || c == b'[' || c == b'{' || c == b']' || c == b'}' || is_space c)

method_char-plain : (c : ℕ) → method_char c ≡ true → plain_unit c ≡ true
unfolding method_char is_digit is_space
method_char-plain c m = ground arith

scan-unit :
    (c : ℕ) (cur rest : Text)
    → plain_unit c ≡ true
    → scan (word cur) (c ∷ rest) ≡ scan (word (cur ++ c ∷ [])) rest
unfolding scan step_in
scan-unit c cur rest p =
    let a : c == b'"' ≡ false = ground arith in
    let b : c == b'\'' ≡ false = ground arith in
    let d : c == b'[' ≡ false = ground arith in
    let e : c == b'{' ≡ false = ground arith in
    let f : c == b']' ≡ false = ground arith in
    let g : c == b'}' ≡ false = ground arith in
    let h : is_space c ≡ false = ground arith in rw a (rw b (rw d (rw e (rw f (rw g (rw h refl))))))

scan-method :
    (m cur rest : Text)
    → every_of method_char m ≡ true
    → scan (word cur) (m ++ rest) ≡ scan (word (cur ++ m)) rest
scan-method [] cur rest all = rw append-nil refl
scan-method (c ∷ m) cur rest all =
    rw (scan-unit c cur (m ++ rest) (method_char-plain c (ground arith)))
      (rw (scan-method m (cur ++ c ∷ []) rest (ground arith)) (rw append_assoc refl))

scan-start :
    (c : ℕ) (rest : Text) → plain_unit c ≡ true → scan start (c ∷ rest) ≡ scan (word (c ∷ [])) rest
unfolding scan step_in
scan-start c rest p =
    let a : c == b'"' ≡ false = ground arith in
    let b : c == b'\'' ≡ false = ground arith in
    let d : c == b'[' ≡ false = ground arith in
    let e : c == b'{' ≡ false = ground arith in
    let f : c == b']' ≡ false = ground arith in
    let g : c == b'}' ≡ false = ground arith in
    let h : is_space c ≡ false = ground arith in rw a (rw b (rw d (rw e (rw f (rw g (rw h refl))))))

abbrev name_token : Text → Token
name_token m = record { text = m; quoted = false }

scan-first_quote :
    (m rest : Text) → scan (word m) (b' ' ∷ b'"' ∷ rest) ≡ scan (inside (name_token m ∷ []) []) rest
unfolding scan step_in is_space
scan-first_quote m rest = refl

read-arguments :
    (m : Text) (args : List Text)
    → read (word m) (quote_all args) ≡ ok (name_token m ∷ map quoted_token args)
unfolding quote_all quote scan finish
read-arguments m [] = refl
read-arguments m (a ∷ args) = rw append_assoc (
    rw (scan-first_quote m (escape a ++ b'"' ∷ quote_all args)) (
      rw (scan-escape a [] (quote_all args) (name_token m ∷ []))
        (read-quote_all a args (name_token m ∷ []))))

tokenize-call :
    (m : Text) (args : List Text)
    → is_method m ≡ true
    → tokenize (m ++ quote_all args) ≡ ok (name_token m ∷ map quoted_token args)
unfolding tokenize is_method
tokenize-call [] args name = ground arith
tokenize-call (c ∷ m) args name =
    rw (scan-start c (m ++ quote_all args) (method_char-plain c (ground arith)))
      (rw (scan-method m (c ∷ []) (quote_all args) (ground arith)) (read-arguments (c ∷ m) args))

-- A line that is a method's name (letters, digits, `_` and `-`, not empty) followed by any texts,
-- each written between double quotes as `quote_all` does, is the call of that method with exactly
-- these texts, as strings, whatever the JSON parser does.
pub parse_command_line-quoted :
    {J : Type 0} (json : Text → Option J) (m : Text) (args : List Text)
    → is_method m ≡ true
    → parse_command_line json (m ++ quote_all args)
      ≡ ok (some (record { method = m; params = map str args }))
unfolding parse_command_line command_of
parse_command_line-quoted json m args name =
    rw (tokenize-call m args name) (rw name (rw (convert_all-quoted json args) refl))
