-- ===== src/App/Routes.antt =====
-- ui/js/app.js: `showView`, `handleRoute` and `showApp`: which view a route shows and what it starts.
-- `query_get` is URLSearchParams.get, and `page_of` the parsed page parameter.
pub mod Links
mod Tests
use bitcoin_lisp.Prelude.{
  ℕ, List, [], ◌∷◌, Bool, true, false, not, ◌==◌, if◌then◌else◌, Option, none, some, get_elem?,
  Text, codes, text_eq,
}
use bitcoin_lisp.Router.{Route}
use bitcoin_lisp.Explorer.Visits.{Visit, to_block, to_tx}

pub data View : Type 0 where
  dashboard explorer block tx peers console wallet : View

abbrev pub view_number : View → ℕ
view_number dashboard = 0
view_number explorer = 1
view_number block = 2
view_number tx = 3
view_number peers = 4
view_number console = 5
view_number wallet = 6

-- What a route starts.
pub data Start : Type 0 where
  nothing peers_page console_page : Start
  explore : Visit → Start
  wallet_page : Option Text → Start

-- `view` is the view that is not hidden, `nav` the entry of the navigation that is marked.
pub record Shell : Type 0 where
  pub logged_in : Bool
  pub view : View
  pub nav : View
  pub search_error : Option Text

unfoldable pub show_view : View → View → Shell → Shell
show_view view nav s = record s { view = view; nav = nav }

-- `$('view-' + v).hidden`
unfoldable pub is_hidden : Shell → View → Bool
is_hidden s v = not (view_number v == view_number s.view)

pub data RoutePage : Type 0 where
  dashboard_route block_route height_route tx_route peers_route console_route wallet_route
        other_route :
      RoutePage

-- The cases of the switch.
unfoldable pub page_named : Text → RoutePage
page_named name =
    if text_eq name (codes "dashboard")
    then dashboard_route
    else if text_eq name (codes "block")
    then block_route
    else if text_eq name (codes "block-height")
    then height_route
    else if text_eq name (codes "tx")
    then tx_route
    else if text_eq name (codes "peers")
    then peers_route
    else if text_eq name (codes "console")
    then console_route
    else if text_eq name (codes "wallet")
    then wallet_route
    else other_route

module _ (query_get : Text → Text → Option Text) (page_of : Option Text → ℕ) where
  abbrev pub first_arg : Route → Option Text
  first_arg r = get_elem? r.args 0

  abbrev pub page_param : Route → ℕ
  page_param r = page_of (query_get r.query (codes "page"))

  abbrev pub open_page : RoutePage → Route → Shell → Shell × Start
  open_page dashboard_route r s = (show_view dashboard dashboard s, nothing)
  open_page block_route r s = (
    show_view block explorer s,
    explore (to_block (record { hash = first_arg r; height = none }) (page_param r)),
  )
  open_page height_route r s = (
    show_view block explorer s,
    explore (to_block (record { hash = none; height = first_arg r }) (page_param r)),
  )
  open_page tx_route r s = (show_view tx explorer s, explore (to_tx (first_arg r)))
  open_page peers_route r s = (show_view peers peers s, peers_page)
  open_page console_route r s = (show_view console console s, console_page)
  open_page wallet_route r s = (show_view wallet wallet s, wallet_page (first_arg r))
  open_page other_route r s = (show_view explorer explorer s, nothing)

  -- The gate of the login, then the switch.
  unfoldable pub handle_route : Route → Shell → Shell × Start
  handle_route r s =
      if not s.logged_in
      then (s, nothing)
      else open_page (page_named r.name) r (record s { search_error = none })

  -- `showApp`, with the route that stands in the location.
  unfoldable pub show_app : Route → Shell → Shell × Start
  show_app r s = handle_route r (record s { logged_in = true })
