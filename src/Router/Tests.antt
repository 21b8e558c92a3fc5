-- ===== src/Router/Tests.antt =====
-- The empty hash, and the second page of a block.
use bitcoin_lisp.Prelude.{[], ◌∷◌, Text, List, some, codes, every_of, true, ◌≡◌, refl}
use bitcoin_lisp.Router.{parse, cut_query, split_path}
use bitcoin_lisp.Router.Permalink.{permalink, is_segment, is_plain, parse-permalink}

dashboard_hash : parse (codes "#/") ≡ record { name = codes "dashboard"; args = []; query = [] }
unfolding parse cut_query split_path
dashboard_hash = refl

abbrev block_args : List Text
block_args = codes "00ab" ∷ []

block-IsPath : every_of is_segment (codes "block" ∷ block_args) ≡ true
unfolding is_plain
block-IsPath = refl

parse-permalink_example :
    parse (permalink (codes "block" ∷ block_args) (some (codes "page=2")))
    ≡ record { name = codes "block"; args = block_args; query = codes "page=2" }
parse-permalink_example =
    parse-permalink (codes "block") block_args (some (codes "page=2")) block-IsPath
