-- ===== src/Explorer/Visits/Tests.antt =====
-- A block by its height, left for a transaction before its answers came.
use bitcoin_lisp.Prelude.{ℕ, [], ◌∷◌, map, none, some, ok, codes, replicate, ◌≡◌, refl, is_digit}
use bitcoin_lisp.Explorer.{is_hash64}
use bitcoin_lisp.Explorer.Visits.{
  Outside, Visit, to_block, to_tx, go_to, arrive, tx_shown, visit, begin_block, begin_tx, answer,
  deliver, handle, handle_all,
}
use bitcoin_lisp.Explorer.Visits.Kept.{IsLatest}
use bitcoin_lisp.Explorer.Visits.Latest.{blank, handle_all-IsLatest}

abbrev lengths : Outside ℕ ℕ
lengths = record {
  to_lower = λ t. t;
  get_block_hash = λ t. ok (codes "ab");
  get_block = λ t. ok 5;
  get_tx = λ t. ok 7;
}

abbrev at_height : Visit
at_height = to_block (record { hash = none; height = some (codes "12") }) 1

abbrev at_tx : Visit
at_tx = to_tx (some (replicate 64 b'a'))

late_block :
    (handle_all lengths
      (map arrive (1 ∷ 0 ∷ 0 ∷ []))
      (visit lengths at_tx (handle_all lengths (go_to at_height ∷ []) (blank lengths)))).display
    ≡ tx_shown 7
unfolding handle_all handle visit begin_block begin_tx is_hash64 answer deliver is_digit
late_block = refl

handle_all-IsLatest_example : IsLatest lengths at_tx (
    handle_all lengths
      (map arrive (1 ∷ 0 ∷ 0 ∷ []))
      (visit lengths at_tx (handle_all lengths (go_to at_height ∷ []) (blank lengths))))
handle_all-IsLatest_example =
    handle_all-IsLatest lengths (go_to at_height ∷ []) at_tx (1 ∷ 0 ∷ 0 ∷ [])
