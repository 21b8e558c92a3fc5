-- ===== src/Router/Permalink.antt =====
-- The permalinks that the pages write, read by the router.
use bitcoin_lisp.Prelude.{
  ℕ, ◌==◌, List, [], ◌∷◌, ◌++◌, Bool, true, false, not, ◌&&◌, Option, none, some, keep, every_of,
  Text, ◌≡◌, refl, ap, append_assoc,
}
use bitcoin_lisp.Router.{cut_query, split_path, is_filled, parse}

-- A segment that a path can hold.
unfoldable pub is_plain : ℕ → Bool
is_plain c = not (c == b'/') && not (c == b'?')

abbrev pub is_segment : Text → Bool
is_segment t = is_filled t && every_of is_plain t

abbrev path_of : List Text → Text
path_of [] = []
path_of (t ∷ ts) = b'/' ∷ (t ++ path_of ts)

abbrev with_query : Option Text → Text
with_query none = []
with_query (some query) = b'?' ∷ query

abbrev pub or_empty : Option Text → Text
or_empty none = []
or_empty (some query) = query

-- '#/name/arg1/arg2?query'
unfoldable pub permalink : List Text → Option Text → Text
permalink segments query = b'#' ∷ (path_of segments ++ with_query query)

both : (a b : Bool) → a && b ≡ true → (a ≡ true) × (b ≡ true)
both true b h = (refl, h)
both false b h = absurd (cc)

not-true : (a : Bool) → not a ≡ true → a ≡ false
not-true true h = absurd (cc)
not-true false h = refl

is_plain-slash : (c : ℕ) → is_plain c ≡ true → (c == b'/') ≡ false
unfolding is_plain
is_plain-slash c h = not-true (c == b'/') (both (not (c == b'/')) (not (c == b'?')) h).0

is_plain-question : (c : ℕ) → is_plain c ≡ true → (c == b'?') ≡ false
unfolding is_plain
is_plain-question c h = not-true (c == b'?') (both (not (c == b'/')) (not (c == b'?')) h).1

split_path-segment :
    (t rest : Text) (ts : List Text)
    → every_of is_plain t ≡ true
    → split_path rest ≡ [] ∷ ts
    → split_path (t ++ rest) ≡ t ∷ ts
unfolding split_path
split_path-segment [] rest ts plain h = h
split_path-segment (c ∷ t) rest ts plain h =
    let (p, q) = both (is_plain c) (every_of is_plain t) plain in
    rw (is_plain-slash c p, split_path-segment t rest ts q h) refl

split_path-path_of :
    (ts : List Text) → every_of is_segment ts ≡ true → split_path (path_of ts) ≡ [] ∷ ts
unfolding split_path
split_path-path_of [] h = refl
split_path-path_of (t ∷ ts) h =
    let (p, q) = both (is_segment t) (every_of is_segment ts) h in
    ap (λ r. [] ∷ r)
      (split_path-segment t (path_of ts) ts (both (is_filled t) (every_of is_plain t) p).1
        (split_path-path_of ts q))

keep-segments : (ts : List Text) → every_of is_segment ts ≡ true → keep is_filled ts ≡ ts
keep-segments [] h = refl
keep-segments (t ∷ ts) h =
    let (p, q) = both (is_segment t) (every_of is_segment ts) h in
    rw ((both (is_filled t) (every_of is_plain t) p).0, keep-segments ts q) refl

cut_query-with_query : (query : Option Text) → cut_query (with_query query) ≡ ([], or_empty query)
unfolding cut_query
cut_query-with_query none = refl
cut_query-with_query (some query) = refl

cut_query-segment :
    (t rest path query : Text)
    → every_of is_plain t ≡ true
    → cut_query rest ≡ (path, query)
    → cut_query (t ++ rest) ≡ (t ++ path, query)
unfolding cut_query
cut_query-segment [] rest path query plain h = h
cut_query-segment (c ∷ t) rest path query plain h =
    let (p, q) = both (is_plain c) (every_of is_plain t) plain in
    rw (is_plain-question c p, cut_query-segment t rest path query q h) refl

cut_query-path_of :
    (ts : List Text) (query : Option Text)
    → every_of is_segment ts ≡ true
    → cut_query (path_of ts ++ with_query query) ≡ (path_of ts, or_empty query)
unfolding cut_query
cut_query-path_of [] query h = cut_query-with_query query
cut_query-path_of (t ∷ ts) query h =
    let (p, q) = both (is_segment t) (every_of is_segment ts) h in
    rw
      (
        append_assoc t (path_of ts) (with_query query),
        cut_query-segment t (path_of ts ++ with_query query) (path_of ts) (or_empty query)
            (both (is_filled t) (every_of is_plain t) p).1 (cut_query-path_of ts query q),
      )
      refl

-- A permalink of a name, any arguments and a query or none, whose name and arguments are not empty and hold neither a
-- slash nor a question mark, is read back as that name, these arguments in order, and the query, empty when there is none.
pub parse-permalink :
    (name : Text) (args : List Text) (query : Option Text)
    → every_of is_segment (name ∷ args) ≡ true
    → parse (permalink (name ∷ args) query)
      ≡ record { name = name; args = args; query = or_empty query }
unfolding parse permalink
parse-permalink name args query h =
    rw
      (
        cut_query-path_of (name ∷ args) query h,
        split_path-path_of (name ∷ args) h,
        keep-segments (name ∷ args) h,
      )
      refl
