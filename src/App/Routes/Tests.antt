-- ===== src/App/Routes/Tests.antt =====
-- The second page of a block.
use bitcoin_lisp.Prelude.{ℕ, [], ◌∷◌, true, Option, none, some, Text, codes, ◌≡◌, refl}
use bitcoin_lisp.Router.{parse}
use bitcoin_lisp.Router.Permalink.{permalink, is_plain, is_segment}
use bitcoin_lisp.App.Routes.{Shell, dashboard, explorer, explore, handle_route}
use bitcoin_lisp.App.Routes.Links.{block_link, name_of, visit_of, view_of, handle_route-permalink}

abbrev at_home : Shell
at_home = record {
  logged_in = true;
  view = dashboard;
  nav = dashboard;
  search_error = some (codes "not found");
}

abbrev second : Option Text → ℕ
second page = 2

plain_hash : is_segment (codes "00ab") ≡ true
unfolding is_plain
plain_hash = refl

handle_route-permalink_example :
    handle_route
      (λ query key. some (codes "2"))
      second
      (parse (permalink (name_of block_link ∷ codes "00ab" ∷ []) (some (codes "page=2"))))
      at_home
    ≡ (
      record at_home { view = view_of block_link; nav = explorer; search_error = none },
      explore (visit_of block_link (codes "00ab") 2),
    )
handle_route-permalink_example =
    handle_route-permalink (λ query key. some (codes "2")) second block_link (codes "00ab")
      (some (codes "page=2")) at_home plain_hash refl
