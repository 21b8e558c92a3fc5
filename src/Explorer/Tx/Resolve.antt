-- ===== src/Explorer/Tx/Resolve.antt =====
-- What the rows of a transaction's inputs hold when all funding transactions were asked for.
use bitcoin_lisp.Prelude.{
  ℕ, zero, suc, ◌≤◌, List, [], ◌∷◌, ◌++◌, map, Bool, true, false, ◌||◌, if◌then◌else◌, Option, some,
  length, take, drop, take-append-drop, some_of, Text, text_eq, text_eq_iff, ◌≡◌, refl, ap, sym,
  ◌∙◌, arith, Bool-cases, inl, inr, length-drop,
}
use bitcoin_lisp.Explorer.Tx.{
  Out, Entry, is_spend, prevout_in, patch, patch_all, resolve_chunks, prevout_batch,
}

abbrev pub entry : Bool → Text → ℕ → ℕ → Option (Option Out) → Bool → Entry
entry coinbase txid vout sequence resolved too_many = record {
  vin = record { coinbase = coinbase; txid = txid; vout = vout; sequence = sequence };
  resolved = resolved;
  too_many = too_many;
}

pub if_same : {A : Type 0} (b : Bool) (x : A) → (if b then x else x) ≡ x
if_same true x = refl
if_same false x = refl

module _ (funding : Text → Option (List Out)) where
  -- A row with the output that it spends.
  unfoldable pub settle : Entry → Entry
  settle e =
      if is_spend e
      then record e { resolved = some (prevout_in (funding e.vin.txid) e.vin.vout) }
      else e

  -- A row whose funding transaction is among `ids` is settled.
  unfoldable pub settle_of : List Text → Entry → Entry
  settle_of ids e = if some_of (λ id. text_eq id e.vin.txid) ids then settle e else e

  or_assoc : (a b c : Bool) → (a || b) || c ≡ a || (b || c)
  or_assoc true b c = refl
  or_assoc false b c = refl

  some_of-append :
      {A : Type 0} (p : A → Bool) (xs ys : List A)
      → some_of p (xs ++ ys) ≡ some_of p xs || some_of p ys
  some_of-append p [] ys = refl
  some_of-append p (x ∷ xs) ys =
      rw (some_of-append p xs ys) (sym (or_assoc (p x) (some_of p xs) (some_of p ys)))

  patch-settle :
      (id : Text) (ids : List Text) (coinbase : Bool) (txid : Text) (vout sequence : ℕ)
      (resolved : Option (Option Out)) (too_many : Bool)
      → settle_of ids (patch id (funding id) (entry coinbase txid vout sequence resolved too_many))
        ≡ settle_of (id ∷ ids) (entry coinbase txid vout sequence resolved too_many)
  unfolding settle_of settle patch
  patch-settle id ids true txid vout sequence resolved too_many =
      let r = some_of (λ (x : Text). text_eq x txid) ids in
      let e = entry true txid vout sequence resolved too_many in
      if_same r e ∙ sym (if_same (text_eq id txid || r) e)
  patch-settle id ids false txid vout sequence resolved too_many =
      elim (Bool-cases (text_eq id txid)) [
        | inl t ↦
            let same : funding id ≡ funding txid = ap funding ((text_eq_iff id txid).0 t) in
            rw t (rw same (if_same (some_of (λ (x : Text). text_eq x txid) ids) _))
        | inr f ↦ rw f refl
      ]

  map-cong :
      (f g : Entry → Entry) (xs : List Entry) → ((e : Entry) → f e ≡ g e) → map f xs ≡ map g xs
  map-cong f g [] h = refl
  map-cong f g (x ∷ xs) h = rw (h x) (ap (λ r. g x ∷ r) (map-cong f g xs h))

  map-map : (f g : Entry → Entry) (xs : List Entry) → map f (map g xs) ≡ map (λ e. f (g e)) xs
  map-map f g [] = refl
  map-map f g (x ∷ xs) = ap (λ r. f (g x) ∷ r) (map-map f g xs)

  map_id : (f : Entry → Entry) (xs : List Entry) → ((e : Entry) → f e ≡ e) → map f xs ≡ xs
  map_id f [] h = refl
  map_id f (x ∷ xs) h = rw (h x) (ap (λ r. x ∷ r) (map_id f xs h))

  patch_all-settle :
      (ids : List Text) (entries : List Entry)
      → patch_all ids (map funding ids) entries ≡ map (settle_of ids) entries
  unfolding patch_all settle_of
  patch_all-settle [] entries = sym (map_id (settle_of []) entries (λ e. refl))
  patch_all-settle (id ∷ ids) entries =
      patch_all-settle ids (map (patch id (funding id)) entries)
      ∙ (map-map (settle_of ids) (patch id (funding id)) entries
          ∙ map-cong (λ e. settle_of ids (patch id (funding id) e)) (settle_of (id ∷ ids)) entries
              (λ e.
                patch-settle id ids e.vin.coinbase e.vin.txid e.vin.vout e.vin.sequence e.resolved
                  e.too_many))

  settle_of-append :
      (ids more : List Text) (coinbase : Bool) (txid : Text) (vout sequence : ℕ)
      (resolved : Option (Option Out)) (too_many : Bool)
      → settle_of more (settle_of ids (entry coinbase txid vout sequence resolved too_many))
        ≡ settle_of (ids ++ more) (entry coinbase txid vout sequence resolved too_many)
  unfolding settle_of settle
  settle_of-append ids more true txid vout sequence resolved too_many =
      let e = entry true txid vout sequence resolved too_many in
      rw
        (
          if_same (some_of (λ (x : Text). text_eq x txid) ids) e,
          if_same (some_of (λ (x : Text). text_eq x txid) more) e,
          if_same (some_of (λ (x : Text). text_eq x txid) (ids ++ more)) e,
        )
        refl
  settle_of-append ids more false txid vout sequence resolved too_many =
      rw (some_of-append (λ (x : Text). text_eq x txid) ids more)
        (elim (Bool-cases (some_of (λ (x : Text). text_eq x txid) ids)) [
          | inl t ↦ rw t (if_same (some_of (λ (x : Text). text_eq x txid) more) _)
          | inr f ↦ rw f refl
        ])

  map-settle_of-append :
      (ids more : List Text) (entries : List Entry)
      → map (settle_of more) (map (settle_of ids) entries) ≡ map (settle_of (ids ++ more)) entries
  map-settle_of-append ids more entries =
      map-map (settle_of more) (settle_of ids) entries
      ∙ map-cong (λ e. settle_of more (settle_of ids e)) (settle_of (ids ++ more)) entries
          (λ e.
            settle_of-append ids more e.vin.coinbase e.vin.txid e.vin.vout e.vin.sequence e.resolved
              e.too_many)

  map-settle_of-nil : (entries : List Entry) → map (settle_of []) entries ≡ entries
  unfolding settle_of
  map-settle_of-nil entries = map_id (settle_of []) entries (λ e. refl)

  -- The rows whose funding transaction is among the ids are settled when every batch is answered.
  pub resolve_chunks-settle :
      (batch : List Text → Option (List (Option (List Out)))) (current : ℕ → Bool)
      → ((ids : List Text) → batch ids ≡ some (map funding ids))
      → ((k : ℕ) → current k ≡ true)
      → (fuel k : ℕ) (ids : List Text) (entries : List Entry) → length ids ≤ fuel
      → resolve_chunks batch current fuel k ids entries ≡ (true, map (settle_of ids) entries)
  unfolding resolve_chunks
  resolve_chunks-settle batch current answered shown zero k [] entries le =
      ap (λ r. (true, r)) (sym (map-settle_of-nil entries))
  resolve_chunks-settle batch current answered shown zero k (id ∷ ids) entries le =
      absurd (omega (arith, le))
  resolve_chunks-settle batch current answered shown (suc fuel) k [] entries le =
      ap (λ r. (true, r)) (sym (map-settle_of-nil entries))
  resolve_chunks-settle batch current answered shown (suc fuel) k (id ∷ ids) entries le =
      let few : length (drop prevout_batch (id ∷ ids)) ≤ fuel =
        rw (length-drop prevout_batch (id ∷ ids)) (omega (arith, le)) in
      rw
        (
          shown k,
          answered (take prevout_batch (id ∷ ids)),
          patch_all-settle (take prevout_batch (id ∷ ids)) entries,
          resolve_chunks-settle batch current answered shown fuel (suc k)
              (drop prevout_batch (id ∷ ids))
              (map (settle_of (take prevout_batch (id ∷ ids))) entries) few,
        )
        (ap (λ r. (true, r))
          (map-settle_of-append (take prevout_batch (id ∷ ids)) (drop prevout_batch (id ∷ ids))
              entries
            ∙ ap (λ l. map (settle_of l) entries) (take-append-drop prevout_batch (id ∷ ids))))
