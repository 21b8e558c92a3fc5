-- ===== src/Explorer/Tests.antt =====
-- ui/js/explorer.js: a search, and the theorem on the pages at a block of 30 transactions.
use bitcoin_lisp.Prelude.{
  ℕ, List, ◌/◌, ◌%◌, ◌+◌, get_elem?, replicate, ◌≡◌, refl, arith, none, err, codes, is_digit, trim,
  Option,
}
use bitcoin_lisp.Explorer.{block_tx_page, search, unrecognized, is_hash64}
use bitcoin_lisp.Explorer.Paging.{block_tx_page-get_elem?}
use bitcoin_lisp.Prelude.{
  ◌≤◌, ◌∷◌, [], true, false, Option, some, map, text_eq, if◌then◌else◌, length, refl,
}
use bitcoin_lisp.Explorer.Tx.{
  Out, Entry, fee, txids_from, resolve_prevouts, fee_verdict, in_sats, max_prevout_txs,
}
use bitcoin_lisp.Explorer.Tx.Resolve.{entry, settle}
use bitcoin_lisp.Explorer.Tx.Funding.{resolve_prevouts-settle}

search_words : search (codes "hello") none none ≡ err unrecognized
unfolding search trim is_digit is_hash64
search_words = refl

abbrev thirty : List ℕ
thirty = replicate 30 7

block_tx_page-get_elem?_example :
    get_elem? (block_tx_page thirty (28 / 25 + 1)).1 (28 % 25) ≡ get_elem? thirty 28
block_tx_page-get_elem?_example = block_tx_page-get_elem? thirty 28 (omega arith)

abbrev paid_by : List ℕ → Option (List Out)
paid_by id =
    if text_eq id (codes "a") then some (record { sats = 50 } ∷ record { sats = 70 } ∷ []) else none

abbrev row : List ℕ → ℕ → Entry
row id n = entry false id n 0 none false

abbrev two_rows : List Entry
two_rows = row (codes "a") 1 ∷ entry true [] 0 0 none false ∷ row (codes "a") 0 ∷ []

two_rows-few : length (txids_from [] two_rows) ≤ max_prevout_txs
unfolding txids_from
two_rows-few = omega arith

resolve_prevouts-settle_example :
    resolve_prevouts (λ ids. some (map paid_by ids)) (λ k. true) two_rows 100
    ≡ (map (settle paid_by) two_rows, fee_verdict 100 (map (settle paid_by) two_rows))
resolve_prevouts-settle_example =
    resolve_prevouts-settle paid_by (λ ids. some (map paid_by ids)) (λ k. true) two_rows 100
      (λ ids. refl) (λ k. refl) two_rows-few

two_rows_fee : fee_verdict 100 (map (settle paid_by) two_rows) ≡ fee 20
unfolding fee_verdict in_sats settle
two_rows_fee = refl
