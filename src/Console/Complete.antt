-- ===== src/Console/Complete.antt =====
-- ui/js/console.js: `parseHelpText`, `buildWordList`, `filterCompletions`.
use bitcoin_lisp.Prelude.{
  List, [], ◌∷◌, ◌++◌, map, Bool, false, not, ◌&&◌, ◌==◌, if◌then◌else◌, Text, codes, text_eq,
  text_lt, starts_with, is_space, trim, trim_start, keep, sort_by, add_name,
}

-- `text.split(/\r?\n/)`: the line so far, and the lines.
split_lines : Text → Text → List Text
split_lines cur [] = cur ∷ []
split_lines cur (c ∷ []) = if c == b'\n' then cur ∷ [] ∷ [] else (cur ++ c ∷ []) ∷ []
split_lines cur (c ∷ d ∷ cs) =
    let skip_two = cur ∷ split_lines [] cs in
    let skip_one = cur ∷ split_lines [] (d ∷ cs) in
    let on = split_lines (cur ++ c ∷ []) (d ∷ cs) in
    if c == b'\r' && d == b'\n' then skip_two else if c == b'\n' then skip_one else on

-- `line.trim().split(/\s/, 1)[0]`
first_word : Text → Text
first_word [] = []
first_word (c ∷ cs) = let rest = first_word cs in if is_space c then [] else c ∷ rest

abbrev is_name : Text → Bool
is_name [] = false
is_name (c ∷ cs) = not (c == b'=')

unfoldable pub add_lines : List Text → List Text → List Text
unfolding first_word
add_lines names [] = names
add_lines names (line ∷ lines) =
    let word = first_word (trim line) in
    add_lines (if is_name word then add_name names word else names) lines

unfoldable pub parse_help_text : Text → List Text
unfolding split_lines
parse_help_text text = add_lines [] (split_lines [] text)

-- `.sort()` on strings: the order of the code units, stable.
unfoldable pub sort_words : List Text → List Text
sort_words = sort_by (λ w v. text_lt v w)

unfoldable pub build_word_list : List Text → List Text
build_word_list methods = sort_words (methods ++ map (λ m. codes "help " ++ m) methods)

abbrev completes : Text → Text → Bool
completes q w = starts_with w q && not (text_eq w q)

unfoldable pub filter_completions : List Text → Text → List Text
filter_completions words input = filtered (trim_start input)
  where
    filtered : Text → List Text
    filtered [] = []
    filtered (c ∷ cs) = keep (completes (c ∷ cs)) words
