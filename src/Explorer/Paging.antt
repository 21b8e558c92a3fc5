-- ===== src/Explorer/Paging.antt =====
-- Every transaction of a block is on one of its pages.
use bitcoin_lisp.Prelude.{
  ℕ, zero, suc, ◌+◌, ◌-◌, ◌*◌, ◌/◌, ◌%◌, ◌<◌, min, max, List, [], ◌∷◌, length, take, drop,
  get_elem?, ◌≡◌, refl, arith, ◌∙◌, ap, sym,
}
use bitcoin_lisp.Explorer.{page_count, clamp_page, block_tx_page}

module _ {T : Type 0} where
  get_elem?-take : (n i : ℕ) (xs : List T) → i < n → get_elem? (take n xs) i ≡ get_elem? xs i
  get_elem?-take zero i xs h = absurd (omega arith)
  get_elem?-take (suc n) i [] h = refl
  get_elem?-take (suc n) zero (x ∷ xs) h = refl
  get_elem?-take (suc n) (suc i) (x ∷ xs) h = get_elem?-take n i xs (omega arith)

  get_elem?-drop : (n i : ℕ) (xs : List T) → get_elem? (drop n xs) i ≡ get_elem? xs (n + i)
  get_elem?-drop zero i xs = let e : i ≡ 0 + i = omega arith in ap (get_elem? xs) e
  get_elem?-drop (suc n) i [] = refl
  get_elem?-drop (suc n) i (x ∷ xs) =
      let e : suc n + i ≡ suc (n + i) = omega arith in
      get_elem?-drop n i xs ∙ ap (get_elem? (x ∷ xs)) (sym e)

  -- The transaction with index `k` of a block stands on page `k / 25 + 1`, at the place `k % 25` of that page.
  pub block_tx_page-get_elem? :
      (txids : List T) (k : ℕ)
      → k < length txids
      → get_elem? (block_tx_page txids (k / 25 + 1)).1 (k % 25) ≡ get_elem? txids k
  unfolding block_tx_page clamp_page page_count
  block_tx_page-get_elem? txids k h =
      let n = length txids in
      let page : min (max 1 (k / 25 + 1)) (max 1 ((n + 24) / 25)) ≡ k / 25 + 1 = omega arith in
      let start : (k / 25 + 1 - 1) * 25 ≡ k / 25 * 25 = omega arith in
      let whole : k / 25 * 25 + k % 25 ≡ k = omega arith in
      rw page (
        rw start (
          get_elem?-take 25 (k % 25) (drop (k / 25 * 25) txids) (omega arith)
          ∙ (get_elem?-drop (k / 25 * 25) (k % 25) txids ∙ ap (get_elem? txids) whole)))
