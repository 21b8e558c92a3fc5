-- ===== src/Explorer.antt =====
-- ui/js/explorer.js: the pages of a block's transactions, the prevouts of a transaction, and the search.
pub mod Paging
pub mod Tx
pub mod Visits
mod Tests
use bitcoin_lisp.Prelude.{
  ℕ, zero, suc, ◌+◌, ◌-◌, ◌*◌, ◌/◌, ◌<◌, min, max, List, [], ◌∷◌, Bool, true, false, not, ◌&&◌,
  ◌||◌, leb, ltb, ◌==◌, if◌then◌else◌, Option, none, some, Outcome, ok, err, length, take, drop,
  every_of, some_of, Text, is_digit, trim, map,
}

abbrev pub txs_per_page : ℕ
txs_per_page = 25

-- `Math.ceil(n / TXS_PER_PAGE)`, and one page for an empty block.
unfoldable pub page_count : ℕ → ℕ
page_count n = max 1 ((n + 24) / 25)

unfoldable pub clamp_page : ℕ → ℕ → ℕ
clamp_page raw n = min (max 1 raw) (page_count n)

-- The rows of `renderBlockTxPage`: the first index, and the transactions of the page.
unfoldable pub block_tx_page : {T : Type 0} → List T → ℕ → ℕ × List T
block_tx_page txids raw =
    let start = (clamp_page raw (length txids) - 1) * txs_per_page in
    (start, take txs_per_page (drop start txids))

abbrev is_hex : ℕ → Bool
is_hex c = is_digit c || (leb b'a' c && leb c b'f') || (leb b'A' c && leb c b'F')

-- HASH64
unfoldable pub is_hash64 : Text → Bool
is_hash64 q = (length q == 64) && every_of is_hex q

-- Where a search leads, and its messages.
pub data Found : Type 0 where
  block tx : Text → Found

pub data SearchError : Type 0 where
  enter_query no_block_at_height unreachable not_found unrecognized : SearchError

abbrev lower_hex : ℕ → ℕ
lower_hex c = if leb b'A' c && leb c b'Z' then c + 32 else c

-- The two answers of the batch, each well or an error.
abbrev found_hash : Text → Option (Bool × Bool) → Outcome SearchError Found
found_hash h none = err unreachable
found_hash h (some answers) =
    if answers.0 then ok (block h) else if answers.1 then ok (tx h) else err not_found

abbrev found_height : Option Text → Outcome SearchError Found
found_height none = err no_block_at_height
found_height (some hash) = ok (block hash)

-- `search`: the node's answer to getblockhash for a height, and to the batch for a hash.
unfoldable pub search : Text → Option Text → Option (Bool × Bool) → Outcome SearchError Found
search raw at_height by_hash = query (trim raw)
  where
    query : Text → Outcome SearchError Found
    query [] = err enter_query
    query (c ∷ cs) =
        if every_of is_digit (c ∷ cs) && not (is_hash64 (c ∷ cs))
        then found_height at_height
        else if is_hash64 (c ∷ cs)
        then found_hash (map lower_hex (c ∷ cs)) by_hash
        else err unrecognized
