-- ===== src/App/Routes/Links.antt =====
-- The permalinks of blocks and transactions, from the text of the location to the visit.
use bitcoin_lisp.Prelude.{
  ℕ, [], ◌∷◌, true, Option, none, some, every_of, Text, codes, ◌≡◌, refl, ap, ◌∙◌,
}
use bitcoin_lisp.Router.{parse}
use bitcoin_lisp.Router.Permalink.{permalink, is_segment, or_empty, parse-permalink, is_plain}
use bitcoin_lisp.Explorer.Visits.{Visit, to_block, to_tx}
use bitcoin_lisp.App.Routes.{
  Shell, View, block, tx, explorer, explore, page_named, handle_route, show_view,
}

-- A link of the explorer: what stands in front of its argument, and the visit it is to make.
pub data Kind : Type 0 where
  block_link height_link tx_link : Kind

unfoldable pub name_of : Kind → Text
name_of block_link = codes "block"
name_of height_link = codes "block-height"
name_of tx_link = codes "tx"

unfoldable pub visit_of : Kind → Text → ℕ → Visit
visit_of block_link arg page = to_block (record { hash = some arg; height = none }) page
visit_of height_link arg page = to_block (record { hash = none; height = some arg }) page
visit_of tx_link arg page = to_tx (some arg)

unfoldable pub view_of : Kind → View
view_of block_link = block
view_of height_link = block
view_of tx_link = tx

segments :
    (k : Kind) (arg : Text)
    → is_segment arg ≡ true
    → every_of is_segment (name_of k ∷ arg ∷ []) ≡ true
unfolding name_of is_plain
segments block_link arg h = rw h refl
segments height_link arg h = rw h refl
segments tx_link arg h = rw h refl

module _ (query_get : Text → Text → Option Text) (page_of : Option Text → ℕ) where
  open_link :
      (k : Kind) (arg query : Text) (s : Shell)
      → s.logged_in ≡ true
      → handle_route query_get page_of
          (record { name = name_of k; args = arg ∷ []; query = query })
          s
        ≡ (
          record s { view = view_of k; nav = explorer; search_error = none },
          explore (visit_of k arg (page_of (query_get query (codes "page")))),
        )
  unfolding handle_route page_named show_view name_of visit_of view_of
  open_link block_link arg query s h = rw h refl
  open_link height_link arg query s h = rw h refl
  open_link tx_link arg query s h = rw h refl

  -- When somebody is logged in, the permalink of a block, a height or a transaction, whose argument is not empty and holds
  -- neither a slash nor a question mark, with a query or none, shows the view of its kind under the explorer, clears the
  -- error of the search, and starts the visit of exactly that argument, with the page that the query names.
  pub handle_route-permalink :
      (k : Kind) (arg : Text) (query : Option Text) (s : Shell)
      → is_segment arg ≡ true
      → s.logged_in ≡ true
      → handle_route query_get page_of (parse (permalink (name_of k ∷ arg ∷ []) query)) s ≡ (
        record s { view = view_of k; nav = explorer; search_error = none },
        explore (visit_of k arg (page_of (query_get (or_empty query) (codes "page")))),
      )
  handle_route-permalink k arg query s good h =
      ap (λ r. handle_route query_get page_of r s)
        (parse-permalink (name_of k) (arg ∷ []) query (segments k arg good))
      ∙ open_link k arg (or_empty query) s h
