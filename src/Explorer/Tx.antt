-- ===== src/Explorer/Tx.antt =====
-- ui/js/explorer.js: the status of a transaction, the rows shown at a time, and `resolvePrevouts`. A value is
-- its number of satoshis, which the source rounds from a float. `batch` gives the answers to one call of
-- rpc.batch (`none` when it throws), as many as calls, each the outputs of a funding transaction or `none` for an error, and
-- `current k` says whether the page still shows the transaction after the call number `k`.
pub mod Funding
pub mod Resolve
use bitcoin_lisp.Prelude.{
  ℕ, zero, suc, ◌+◌, ◌-◌, min, List, [], ◌∷◌, map, Bool, true, false, not, ◌&&◌, ◌||◌, ltb, ◌==◌,
  if◌then◌else◌, Option, none, some, and_then, length, take, drop, get_elem?, keep, some_of, Text,
  text_eq, add_name,
}

pub record Vin : Type 0 where
  pub coinbase : Bool
  pub txid : Text
  pub vout : ℕ
  pub sequence : ℕ

pub record Out : Type 0 where
  pub sats : ℕ

unfoldable pub tx_is_coinbase : List Vin → Bool
tx_is_coinbase [] = false
tx_is_coinbase (v ∷ []) = v.coinbase
tx_is_coinbase (v ∷ w ∷ vin) = false

unfoldable pub tx_signals_rbf : List Vin → Bool
tx_signals_rbf vin = some_of (λ v. not v.coinbase && ltb v.sequence 0xfffffffe) vin

pub data TxStatus : Type 0 where
  in_mempool unknown_block stale_block : TxStatus
  confirmed : ℕ → TxStatus

unfoldable pub tx_status : Bool → Option ℕ → TxStatus
tx_status false confirmations = in_mempool
tx_status true none = unknown_block
tx_status true (some zero) = stale_block
tx_status true (some (suc n)) = confirmed (suc n)

abbrev io_chunk : ℕ
io_chunk = 100

-- `appendChunked`: how many entries are shown after each call of `showNext`.
unfoldable pub show_next : ℕ → ℕ → ℕ
show_next total shown = min total (shown + io_chunk)

-- `resolved`: `none` is undefined, `some none` is null. `too_many` is the reason that is set at the end.
pub record Entry : Type 0 where
  pub vin : Vin
  pub resolved : Option (Option Out)
  pub too_many : Bool

abbrev pub is_spend : Entry → Bool
is_spend e = not e.vin.coinbase

-- The keys of `byTxid`, in their order.
unfoldable pub txids_from : List Text → List Entry → List Text
txids_from ids [] = ids
txids_from ids (e ∷ entries) =
    txids_from (if is_spend e then add_name ids e.vin.txid else ids) entries

abbrev pub prevout_in : Option (List Out) → ℕ → Option Out
prevout_in none n = none
prevout_in (some outs) n = get_elem? outs n

-- The rows that the funding transaction `id` funds.
unfoldable pub patch : Text → Option (List Out) → Entry → Entry
patch id prev e =
    if is_spend e && text_eq id e.vin.txid
    then record e { resolved = some (prevout_in prev e.vin.vout) }
    else e

unfoldable pub patch_all : List Text → List (Option (List Out)) → List Entry → List Entry
patch_all [] answers entries = entries
patch_all (id ∷ ids) [] entries = patch_all ids [] (map (patch id none) entries)
patch_all (id ∷ ids) (a ∷ answers) entries = patch_all ids answers (map (patch id a) entries)

abbrev pub or_unreachable : Option (List (Option (List Out))) → List (Option (List Out))
or_unreachable none = []
or_unreachable (some answers) = answers

pub data Verdict : Type 0 where
  left only_first unresolved inconsistent : Verdict
  fee : ℕ → Verdict

abbrev pub max_prevout_txs : ℕ
max_prevout_txs = 200

abbrev pub prevout_batch : ℕ
prevout_batch = 25

module _ (batch : List Text → Option (List (Option (List Out)))) (current : ℕ → Bool) where
  -- The loop over the chunks; `false` says that the page was left. The fuel is the number of ids.
  unfoldable pub resolve_chunks : ℕ → ℕ → List Text → List Entry → Bool × List Entry
  resolve_chunks zero k ids entries = (true, entries)
  resolve_chunks (suc fuel) k [] entries = (true, entries)
  resolve_chunks (suc fuel) k (id ∷ ids) entries =
      let chunk = take prevout_batch (id ∷ ids) in
      let patched = patch_all chunk (or_unreachable (batch chunk)) entries in
      let further = resolve_chunks fuel (suc k) (drop prevout_batch (id ∷ ids)) patched in
      if current k then further else (false, entries)

-- `entry.resolved === undefined` behind the loop, when not all were asked for.
unfoldable pub give_up : Entry → Entry
give_up e = go e.resolved
  where
    go : Option (Option Out) → Entry
    go none = if is_spend e then record e { resolved = some none; too_many = true } else e
    go (some r) = e

abbrev pub sats_of : Option (Option Out) → ℕ
sats_of none = 0
sats_of (some none) = 0
sats_of (some (some out)) = out.sats

abbrev pub is_null : Option (Option Out) → Bool
is_null (some none) = true
is_null none = false
is_null (some (some out)) = false

unfoldable pub in_sats : List Entry → ℕ
in_sats [] = 0
in_sats (e ∷ entries) = (if is_spend e then sats_of e.resolved else 0) + in_sats entries

unfoldable pub fee_verdict : ℕ → List Entry → Verdict
fee_verdict out_sats entries =
    if some_of (λ e. is_spend e && is_null e.resolved) entries
    then unresolved
    else if ltb (in_sats entries) out_sats
    then inconsistent
    else fee (in_sats entries - out_sats)

unfoldable pub resolve_prevouts :
    (List Text → Option (List (Option (List Out))))
    → (ℕ → Bool)
    → List Entry
    → ℕ
    → List Entry × Verdict
resolve_prevouts batch current entries out_sats =
    let uniq = txids_from [] entries in
    let capped = take max_prevout_txs uniq in
    let loop = resolve_chunks batch current (length capped) 0 capped entries in
    if not loop.0
    then (loop.1, left)
    else if ltb max_prevout_txs (length uniq)
    then (map give_up loop.1, only_first)
    else (loop.1, fee_verdict out_sats loop.1)
