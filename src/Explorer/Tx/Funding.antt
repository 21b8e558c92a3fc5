-- ===== src/Explorer/Tx/Funding.antt =====
-- The funding transactions that `resolvePrevouts` asks for, and its result when each of them is answered.
use bitcoin_lisp.Prelude.{
  text-In, ℕ, zero, suc, ◌≤◌, List, [], ◌∷◌, map, Bool, true, false, not, ◌||◌, ltb, if◌then◌else◌,
  Option, some, length, take, some_of, Text, text_eq, text_eq_iff, add_name, ◌≡◌, refl, ap, sym,
  arith, Bool-cases, inl, inr, In, first, later, In-append_left, In-append_right,
}
use bitcoin_lisp.Explorer.Tx.{
  Out, Entry, is_spend, txids_from, resolve_prevouts, fee_verdict, max_prevout_txs,
}
use bitcoin_lisp.Explorer.Tx.Resolve.{if_same, entry, settle, settle_of, resolve_chunks-settle}

or_true : (b : Bool) → b || true ≡ true
or_true true = refl
or_true false = refl

add_name-In : (word : Text) (names : List Text) → In word (add_name names word)
add_name-In word names = elim (Bool-cases (some_of (text_eq word) names)) [
  | inl t ↦ rw t (text-In word names t)
  | inr f ↦ rw f (In-append_right word names (word ∷ []) (first refl))
]

add_name-keeps : (id word : Text) (names : List Text) → In id names → In id (add_name names word)
add_name-keeps id word names h = elim (Bool-cases (some_of (text_eq word) names)) [
  | inl t ↦ rw t h
  | inr f ↦ rw f (In-append_left id names (word ∷ []) h)
]

next-keeps :
    (b : Bool) (id word : Text) (names : List Text)
    → In id names
    → In id (if b then add_name names word else names)
next-keeps true id word names h = add_name-keeps id word names h
next-keeps false id word names h = h

txids_from-keeps :
    (id : Text) (ids : List Text) (entries : List Entry)
    → In id ids
    → In id (txids_from ids entries)
unfolding txids_from
txids_from-keeps id ids [] h = h
txids_from-keeps id ids (e ∷ entries) h =
    txids_from-keeps id (if is_spend e then add_name ids e.vin.txid else ids) entries
      (next-keeps (is_spend e) id e.vin.txid ids h)

spend-In :
    (b : Bool) (word : Text) (names : List Text)
    → b ≡ true
    → In word (if b then add_name names word else names)
spend-In true word names h = add_name-In word names
spend-In false word names h = absurd (cc)

txids_from-In :
    (e : Entry) (ids : List Text) (entries : List Entry)
    → In e entries
    → is_spend e ≡ true
    → In e.vin.txid (txids_from ids entries)
unfolding txids_from
txids_from-In e ids [] h spend = elim h [ ]
txids_from-In e ids (d ∷ entries) (first same) spend =
    txids_from-keeps e.vin.txid (if is_spend d then add_name ids d.vin.txid else ids) entries
      (rw (sym same) (spend-In (is_spend e) e.vin.txid ids spend))
txids_from-In e ids (d ∷ entries) (later h) spend =
    txids_from-In e (if is_spend d then add_name ids d.vin.txid else ids) entries h spend

In-some_of :
    (word : Text) (names : List Text) → In word names → some_of (λ id. text_eq id word) names ≡ true
In-some_of word [] h = elim h [ ]
In-some_of word (n ∷ names) (first e) = rw ((text_eq_iff n word).1 (sym e)) refl
In-some_of word (n ∷ names) (later h) = rw (In-some_of word names h) (or_true (text_eq n word))

take_all : {A : Type 0} (n : ℕ) (xs : List A) → length xs ≤ n → take n xs ≡ xs
take_all zero [] h = refl
take_all zero (x ∷ xs) h = absurd (omega arith)
take_all (suc n) [] h = refl
take_all (suc n) (x ∷ xs) h = ap (λ r. x ∷ r) (take_all n xs (omega arith))

ltb-false : (n m : ℕ) → m ≤ n → ltb n m ≡ false
ltb-false n m h = ground arith

module _ (funding : Text → Option (List Out)) where
  settle_of-settle :
      (ids : List Text) (coinbase : Bool) (txid : Text) (vout sequence : ℕ)
      (resolved : Option (Option Out)) (too_many : Bool)
      → (not coinbase ≡ true → In txid ids)
      → settle_of funding ids (entry coinbase txid vout sequence resolved too_many)
        ≡ settle funding (entry coinbase txid vout sequence resolved too_many)
  unfolding settle_of settle
  settle_of-settle ids true txid vout sequence resolved too_many h =
      if_same (some_of (λ (x : Text). text_eq x txid) ids) _
  settle_of-settle ids false txid vout sequence resolved too_many h =
      rw (In-some_of txid ids (h refl)) refl

  map-settle_of-settle :
      (ids : List Text) (entries : List Entry)
      → ((e : Entry) → In e entries → is_spend e ≡ true → In e.vin.txid ids)
      → map (settle_of funding ids) entries ≡ map (settle funding) entries
  map-settle_of-settle ids [] h = refl
  map-settle_of-settle ids (e ∷ entries) h =
      rw
        (settle_of-settle ids e.vin.coinbase e.vin.txid e.vin.vout e.vin.sequence e.resolved
          e.too_many (h e (first refl)))
        (ap (λ r. settle funding e ∷ r) (map-settle_of-settle ids entries (λ d k. h d (later k))))

  -- When every batch is answered by the funding transactions, the page keeps showing the transaction and its inputs
  -- name at most 200 funding transactions, each row of a spend ends with exactly the output that it spends (or with
  -- null where there is none), each coinbase row is unchanged, and the fee is judged on these rows.
  pub resolve_prevouts-settle :
      (batch : List Text → Option (List (Option (List Out)))) (current : ℕ → Bool)
      (entries : List Entry) (out_sats : ℕ)
      → ((ids : List Text) → batch ids ≡ some (map funding ids))
      → ((k : ℕ) → current k ≡ true)
      → length (txids_from [] entries) ≤ max_prevout_txs
      → resolve_prevouts batch current entries out_sats
        ≡ (map (settle funding) entries, fee_verdict out_sats (map (settle funding) entries))
  unfolding resolve_prevouts
  resolve_prevouts-settle batch current entries out_sats answered shown few =
      rw
        (
          take_all max_prevout_txs (txids_from [] entries) few,
          resolve_chunks-settle funding batch current answered shown
              (length (txids_from [] entries)) 0 (txids_from [] entries) entries (omega arith),
          map-settle_of-settle (txids_from [] entries) entries
              (λ e h spend. txids_from-In e [] entries h spend),
          ltb-false max_prevout_txs (length (txids_from [] entries)) few,
        )
        refl
