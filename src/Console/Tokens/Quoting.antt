-- ===== src/Console/Tokens/Quoting.antt =====
-- Arguments written between double quotes are read back, whatever they hold.
use bitcoin_lisp.Prelude.{
  ℕ, List, [], ◌∷◌, ◌++◌, true, false, ◌==◌, ◌||◌, if◌then◌else◌, ok, Text, ◌≡◌, refl, ◌∙◌, map,
  append-nil, append_assoc, arith, Outcome, ◌>>=◌, is_space, inl, inr, Bool-cases,
}
use bitcoin_lisp.Console.Tokens.{
  TokenError, Token, Scan, start, normal, double, step_in, scan, finish, tokenize,
}

-- A quote or a backslash behind a backslash.
unfoldable pub escape : Text → Text
escape [] = []
escape (c ∷ s) = if c == b'"' || c == b'\\' then b'\\' ∷ c ∷ escape s else c ∷ escape s

unfoldable pub quote : Text → Text
unfolding escape
quote s = b'"' ∷ (escape s ++ b'"' ∷ [])

-- Each argument quoted, with a space in front.
unfoldable pub quote_all : List Text → Text
quote_all [] = []
quote_all (a ∷ args) = b' ' ∷ (quote a ++ quote_all args)

abbrev pub quoted_token : Text → Token
quoted_token s = record { text = s; quoted = true }

abbrev pub inside : List Token → Text → Scan
inside tokens cur = record {
  tokens = tokens;
  cur = cur;
  quoted = true;
  started = true;
  depth = 0;
  mode = double;
  skip = false;
}

scan-special :
    (c : ℕ) (cur rest : Text) (tokens : List Token)
    → (c == b'"' || c == b'\\') ≡ true
    → scan (inside tokens cur) (b'\\' ∷ c ∷ rest) ≡ scan (inside tokens (cur ++ c ∷ [])) rest
unfolding scan step_in
scan-special c cur rest tokens special = rw special refl

scan-other :
    (c : ℕ) (cur rest : Text) (tokens : List Token)
    → (c == b'"' || c == b'\\') ≡ false
    → scan (inside tokens cur) (c ∷ rest) ≡ scan (inside tokens (cur ++ c ∷ [])) rest
unfolding scan step_in
scan-other c cur rest tokens other =
    let quote : c == b'"' ≡ false = ground arith in
    let slash : c == b'\\' ≡ false = ground arith in rw quote (rw slash refl)

scan-end :
    (cur rest : Text) (tokens : List Token)
    → scan (inside tokens cur) (b'"' ∷ rest)
      ≡ scan (record (inside tokens cur) { mode = normal }) rest
unfolding scan step_in
scan-end cur rest tokens = refl

pub scan-escape :
    (s cur rest : Text) (tokens : List Token)
    → scan (inside tokens cur) (escape s ++ b'"' ∷ rest)
      ≡ scan (record (inside tokens (cur ++ s)) { mode = normal }) rest
unfolding escape
scan-escape [] cur rest tokens = rw append-nil (scan-end cur rest tokens)
scan-escape (c ∷ s) cur rest tokens =
    let further : scan (inside tokens (cur ++ c ∷ [])) (escape s ++ b'"' ∷ rest)
        ≡ scan (record (inside tokens (cur ++ c ∷ s)) { mode = normal }) rest =
      rw (scan-escape s (cur ++ c ∷ []) rest tokens) (rw append_assoc refl) in
    elim (Bool-cases (c == b'"' || c == b'\\')) [
      | inl special ↦
          rw special (scan-special c cur (escape s ++ b'"' ∷ rest) tokens special ∙ further)
      | inr other ↦ rw other (scan-other c cur (escape s ++ b'"' ∷ rest) tokens other ∙ further)
    ]

-- The first code units of a quoted argument, behind a token and at the start of the line.
scan-next :
    (cur rest : Text) (tokens : List Token)
    → scan (record (inside tokens cur) { mode = normal }) (b' ' ∷ b'"' ∷ rest)
      ≡ scan (inside (tokens ++ quoted_token cur ∷ []) []) rest
unfolding scan step_in is_space
scan-next cur rest tokens = refl

scan-first : (rest : Text) → scan start (b' ' ∷ b'"' ∷ rest) ≡ scan (inside [] []) rest
unfolding scan step_in is_space
scan-first rest = refl

abbrev pub read : Scan → Text → Outcome TokenError (List Token)
read s line = do t ← scan s line; finish t.mode t

pub read-quote_all :
    (cur : Text) (args : List Text) (tokens : List Token)
    → read (record (inside tokens cur) { mode = normal }) (quote_all args)
      ≡ ok (tokens ++ quoted_token cur ∷ map quoted_token args)
unfolding quote_all quote scan finish
read-quote_all cur [] tokens = refl
read-quote_all cur (a ∷ args) tokens = rw append_assoc (
    rw (scan-next cur (escape a ++ b'"' ∷ quote_all args) tokens) (
      rw (scan-escape a [] (quote_all args) (tokens ++ quoted_token cur ∷ []))
        (rw (read-quote_all a args (tokens ++ quoted_token cur ∷ [])) (rw append_assoc refl))))

-- For every list of arguments, the line that writes each of them between double quotes, with a
-- backslash before every quote and backslash and a space in front, is read as exactly those
-- arguments, in order, each one a quoted token.
pub tokenize-quote_all : (args : List Text) → tokenize (quote_all args) ≡ ok (map quoted_token args)
unfolding tokenize quote_all quote scan finish
tokenize-quote_all [] = refl
tokenize-quote_all (a ∷ args) = rw append_assoc (
    rw (scan-first (escape a ++ b'"' ∷ quote_all args))
      (rw (scan-escape a [] (quote_all args) []) (read-quote_all a args [])))
