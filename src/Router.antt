-- ===== src/Router.antt =====
-- ui/js/router.js: `parse` of the location's hash. The query is the text that URLSearchParams is given.
pub mod Permalink
mod Tests
use bitcoin_lisp.Prelude.{
  ℕ, ◌==◌, List, [], ◌∷◌, ◌++◌, Bool, true, false, not, ◌&&◌, if◌then◌else◌, Option, none, some,
  keep, every_of, Text, codes, ◌≡◌, refl,
}

pub record Route : Type 0 where
  pub name : Text
  pub args : List Text
  pub query : Text

abbrev pub after_hash : Text → Text
after_hash [] = []
after_hash (c ∷ cs) = if c == b'#' then cs else c ∷ cs

abbrev pub before : ℕ → Text × Text → Text × Text
before c (path, query) = (c ∷ path, query)

-- The text up to the first question mark and the text behind it, which is empty when there is none.
unfoldable pub cut_query : Text → Text × Text
cut_query [] = ([], [])
cut_query (c ∷ cs) = let rest = cut_query cs in if c == b'?' then ([], cs) else before c rest

abbrev pub onto_first : ℕ → List Text → List Text
onto_first c [] = (c ∷ []) ∷ []
onto_first c (t ∷ ts) = (c ∷ t) ∷ ts

-- `split('/')`
unfoldable pub split_path : Text → List Text
split_path [] = [] ∷ []
split_path (c ∷ cs) = let rest = split_path cs in if c == b'/' then [] ∷ rest else onto_first c rest

abbrev pub is_filled : Text → Bool
is_filled [] = false
is_filled (c ∷ cs) = true

abbrev pub route_of : List Text → Text → Route
route_of [] query = record { name = codes "dashboard"; args = []; query = query }
route_of (name ∷ args) query = record { name = name; args = args; query = query }

unfoldable pub parse : Text → Route
parse raw_hash =
    let parts = cut_query (after_hash raw_hash) in
    route_of (keep is_filled (split_path parts.0)) parts.1
