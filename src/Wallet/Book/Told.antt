-- ===== src/Wallet/Book/Told.antt =====
-- What the node tells of the address book, and the rows that `refreshBook` makes of it.
use bitcoin_lisp.Prelude.{
  ℕ, zero, suc, ◌+◌, List, [], ◌∷◌, ◌++◌, map, Option, none, some, length, get_elem?, length-map,
  In, In-append, In-append_left, In-append_right, In-map, map-In, Text, codes, ◌≡◌, ◌↔◌, refl, ap,
  sym, subst, ◌∙◌, inl, inr, arith,
}
use bitcoin_lisp.Wallet.Book.{BookRow, rows_of, row_of, entries_of, purpose_or}

-- `shown` is how the purpose of an address is shown.
abbrev pub IsPurpose : Text → Text → Type 0
IsPurpose [] shown = shown ≡ codes "unknown"
IsPurpose (c ∷ purpose) shown = shown ≡ c ∷ purpose

-- The node told of the address under this label, with a purpose that is shown so, and without an error.
abbrev pub Told : List Text → List (Option (List (Text × Text))) → Text → Text → Text → Type 0
Told labels answers label address shown =
    (n : ℕ) × (entries : List (Text × Text)) × (purpose : Text) × (get_elem? labels n ≡ some label)
    × (get_elem? answers n ≡ some (some entries))
    × In (address, purpose) entries
    × IsPurpose purpose shown

-- How many addresses the node told of.
abbrev pub told_count : List Text → List (Option (List (Text × Text))) → ℕ
told_count [] answers = 0
told_count (l ∷ labels) [] = 0
told_count (l ∷ labels) (none ∷ answers) = told_count labels answers
told_count (l ∷ labels) (some entries ∷ answers) = length entries + told_count labels answers

purpose_or-IsPurpose : (p : Text) → IsPurpose p (purpose_or p)
purpose_or-IsPurpose [] = refl
purpose_or-IsPurpose (c ∷ p) = refl

IsPurpose-purpose_or : (p shown : Text) → IsPurpose p shown → purpose_or p ≡ shown
IsPurpose-purpose_or [] shown e = sym e
IsPurpose-purpose_or (c ∷ p) shown e = sym e

module _ {I : Type 0} where
  -- The table has a row with this label, address and purpose.
  abbrev pub Shows : List (BookRow I) → Text → Text → Text → Type 0
  Shows rows label address shown =
      (r : BookRow I) × In r rows × (r.label ≡ label) × (r.address ≡ address) × (r.purpose ≡ shown)

  entries-Shows :
      (l label address shown : Text) (entries : List (Text × Text))
      → Shows (map (row_of l) entries) label address shown
      → (purpose : Text) × (l ≡ label) × In (address, purpose) entries × IsPurpose purpose shown
  entries-Shows l label address shown entries (r, h, el, ea, ep) =
      let (entry, k, e) = map-In (row_of l) r entries h in
      (
        entry.1,
        ap (λ x. x.label) (sym e) ∙ el,
        subst (λ a. In (a, entry.1) entries) (ap (λ x. x.address) (sym e) ∙ ea) k,
        subst (IsPurpose entry.1) (ap (λ x. x.purpose) (sym e) ∙ ep) (purpose_or-IsPurpose entry.1),
      )

  Shows-entries :
      (label address shown purpose : Text) (entries : List (Text × Text))
      → In (address, purpose) entries
      → IsPurpose purpose shown
      → Shows (map (row_of label) entries) label address shown
  Shows-entries label address shown purpose entries h p = (
    row_of label (address, purpose),
    In-map (row_of label) (address, purpose) entries h,
    refl,
    refl,
    IsPurpose-purpose_or purpose shown p,
  )

  Shows-Told :
      (labels : List Text) (answers : List (Option (List (Text × Text))))
      (label address shown : Text)
      → Shows (rows_of labels answers) label address shown
      → Told labels answers label address shown
  unfolding rows_of
  Shows-Told [] answers label address shown (r, h, ls, ads, ps) = elim h [ ]
  Shows-Told (l ∷ labels) [] label address shown (r, h, ls, ads, ps) = elim h [ ]
  Shows-Told (l ∷ labels) (none ∷ answers) label address shown h =
      let (n, entries, purpose, e, f, k, p) = Shows-Told labels answers label address shown h in
      (suc n, entries, purpose, e, f, k, p)
  Shows-Told (l ∷ labels) (some es ∷ answers) label address shown (r, h, ls, ads, ps) =
      elim (In-append r (map (row_of l) es) (rows_of labels answers) h) [
        | inl k ↦
            let (purpose, same, i, p) =
              entries-Shows l label address shown es (r, k, ls, ads, ps) in
            (0, es, purpose, ap some same, refl, i, p)
        | inr k ↦
            let (n, entries, purpose, e, f, i, p) =
              Shows-Told labels answers label address shown (r, k, ls, ads, ps) in
            (suc n, entries, purpose, e, f, i, p)
      ]

  Told-Shows :
      (labels : List Text) (answers : List (Option (List (Text × Text))))
      (label address shown : Text)
      → Told labels answers label address shown
      → Shows (rows_of labels answers) label address shown
  unfolding rows_of
  Told-Shows [] answers label address shown (n, entries, purpose, e, f, i, p) = absurd (cc)
  Told-Shows (l ∷ labels) [] label address shown (n, entries, purpose, e, f, i, p) = absurd (cc)
  Told-Shows (l ∷ labels) (a ∷ answers) label address shown (zero, entries, purpose, e, f, i, p) =
      let same : l ≡ label = cc in
      let told : a ≡ some entries = cc in
      let (r, h, ls, ads, ps) = Shows-entries label address shown purpose entries i p in
      rw (same, told)
        (r, In-append_left r (map (row_of label) entries) (rows_of labels answers) h, ls, ads, ps)
  Told-Shows (l ∷ labels) (a ∷ answers) label address shown (suc n, entries, purpose, e, f, i, p) =
      let (r, h, ls, ads, ps) =
        Told-Shows labels answers label address shown (n, entries, purpose, e, f, i, p) in
      (r, In-append_right r (map (row_of l) (entries_of a)) (rows_of labels answers) h, ls, ads, ps)

  length-append : (xs ys : List (BookRow I)) → length (xs ++ ys) ≡ length xs + length ys
  length-append [] ys = omega arith
  length-append (x ∷ xs) ys = omega (arith, length-append xs ys)

  pub rows_of-Told :
      (labels : List Text) (answers : List (Option (List (Text × Text))))
      (label address shown : Text)
      → Shows (rows_of labels answers) label address shown ↔ Told labels answers label address shown
  rows_of-Told labels answers label address shown =
      (Shows-Told labels answers label address shown, Told-Shows labels answers label address shown)

pub length-rows_of :
    (I : Type 0) (labels : List Text) (answers : List (Option (List (Text × Text))))
    → length (rows_of {I = I} labels answers) ≡ told_count labels answers
unfolding rows_of
length-rows_of I [] answers = refl
length-rows_of I (l ∷ labels) [] = refl
length-rows_of I (l ∷ labels) (none ∷ answers) = length-rows_of I labels answers
length-rows_of I (l ∷ labels) (some es ∷ answers) = omega (
  arith,
  length-append (map (row_of {I = I} l) es) (rows_of labels answers),
  length-map (row_of {I = I} l) es,
  length-rows_of I labels answers,
)
