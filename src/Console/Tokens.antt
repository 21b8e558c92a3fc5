-- ===== src/Console/Tokens.antt =====
-- ui/js/console.js: `tokenize`. A look at `line[i + 1]` is the argument `next`, and `i += 1` inside the
-- body is the flag `skip`, by which the loop passes over one code unit.
pub mod Quoting
use bitcoin_lisp.Prelude.{
  ℕ, suc, ◌-◌, ◌+◌, List, [], ◌∷◌, ◌++◌, Bool, true, false, not, ◌&&◌, ◌||◌, ltb, ◌==◌,
  if◌then◌else◌, Option, none, some, Outcome, ok, err, ◌>>=◌, Text, is_space,
}

pub data TokenError : Type 0 where
  unbalanced : ℕ → TokenError
  unterminated_quote unbalanced_brackets : TokenError

pub record Token : Type 0 where
  pub text : Text
  pub quoted : Bool

pub data Mode : Type 0 where
  normal double single jstring : Mode

pub record Scan : Type 0 where
  pub tokens : List Token
  pub cur : Text
  pub quoted : Bool
  pub started : Bool
  pub depth : ℕ
  pub mode : Mode
  pub skip : Bool

abbrev pub start : Scan
start = record {
  tokens = [];
  cur = [];
  quoted = false;
  started = false;
  depth = 0;
  mode = normal;
  skip = false;
}

abbrev pub push : Scan → Text → Scan
push s text = record s { cur = s.cur ++ text }

abbrev pub opt : Option ℕ → Text
opt none = []
opt (some c) = c ∷ []

abbrev is_at : Option ℕ → ℕ → Bool
is_at none c = false
is_at (some d) c = d == c

abbrev pub emit : Scan → Scan
emit s = record s { tokens = s.tokens ++ record { text = s.cur; quoted = s.quoted } ∷ [] }

-- The last branch of the loop: any other code unit in mode `normal`.
plain : Scan → ℕ → Outcome TokenError Scan
plain s ch =
    if ch == b'[' || ch == b'{'
    then ok (record (push s (ch ∷ [])) { depth = s.depth + 1; started = true })
    else if ch == b']' || ch == b'}'
    then (if s.depth == 0
        then err (unbalanced ch)
        else ok (record (push s (ch ∷ [])) { depth = s.depth - 1; started = true }))
    else ok (record (push s (ch ∷ [])) { started = true })

unfoldable pub step_in : Mode → Scan → ℕ → Option ℕ → Outcome TokenError Scan
unfolding plain
step_in double s ch next =
    if ch == b'\\' && (is_at next b'"' || is_at next b'\\')
    then ok (record (push s (opt next)) { skip = true })
    else if ch == b'"'
    then ok (record s { mode = normal })
    else ok (push s (ch ∷ []))
step_in single s ch next = ok (if ch == b'\'' then record s { mode = normal } else push s (ch ∷ []))
step_in jstring s ch next =
    if ch == b'\\'
    then ok (record (push s (ch ∷ opt next)) { skip = true })
    else if ch == b'"'
    then ok (record (push s (ch ∷ [])) { mode = normal })
    else ok (push s (ch ∷ []))
step_in normal s ch next =
    if ch == b'"' && ltb 0 s.depth
    then ok (record (push s (ch ∷ [])) { mode = jstring })
    else if ch == b'"' || ch == b'\''
    then ok
        (record s { mode = if ch == b'"' then double else single; quoted = true; started = true })
    else if is_space ch && s.depth == 0
    then ok (if s.started then record (emit s) { cur = []; quoted = false; started = false } else s)
    else plain s ch

abbrev pub head? : Text → Option ℕ
head? [] = none
head? (c ∷ cs) = some c

unfoldable pub scan : Scan → Text → Outcome TokenError Scan
scan s [] = ok s
scan s (ch ∷ rest) =
    (if s.skip then ok (record s { skip = false }) else step_in s.mode s ch (head? rest)) >>= λ s'.
    scan s' rest

-- What stands behind the loop.
unfoldable pub finish : Mode → Scan → Outcome TokenError (List Token)
finish double s = err unterminated_quote
finish single s = err unterminated_quote
finish jstring s = err unbalanced_brackets
finish normal s =
    if not (s.depth == 0)
    then err unbalanced_brackets
    else ok (if s.started then (emit s).tokens else s.tokens)

unfoldable pub tokenize : Text → Outcome TokenError (List Token)
tokenize line = do s ← scan start line; finish s.mode s
