-- ===== src/Wallet/Book/Sorted.antt =====
-- The table of the address book holds what the node told, in order.
use bitcoin_lisp.Prelude.{
  Bool, ◌↔◌, ◌⊎◌, inl, inr, Bool-cases, subst, length, length-map, In-map, map-In, sort_by-In,
  length-sort_by, Pairwise, Pairwise-map, InOrder-Pairwise, text_lt, text_lt-same, List, [], ◌∷◌,
  ◌++◌, map, true, false, Option, none, some, Outcome, ok, err, All, All-append, take, drop,
  take-append-drop, Text, text_lt-asym, text_lt-chain, sort_by, sort_by-InOrder, sort_by-All, ◌≡◌,
  refl, ap, sym, ◌∙◌, arith,
}
use bitcoin_lisp.Wallet.Book.{
  BookRow, BookNode, Book, rows_of, comes_first, sort_rows, decorate, decorated, with_infos,
  label_answers, book_of, refresh_book, row_address, book_info_limit, with_info, row_of, entries_of,
}
use bitcoin_lisp.Wallet.Book.Told.{Told, told_count, Shows, rows_of-Told, length-rows_of}

module _ {I : Type 0} where
  -- A row without what only decorates it.
  abbrev pub bare : BookRow I → BookRow I
  bare r = record r { info = none }

  first-one_way : (a b : BookRow I) → comes_first a b ≡ true → comes_first b a ≡ false
  first-one_way a b h = ground (
    arith,
    text_lt-asym a.label b.label,
    text_lt-asym b.label a.label,
    text_lt-asym a.address b.address,
  )

  first-chain :
      (a b c : BookRow I)
      → comes_first b a ≡ false
      → comes_first c b ≡ false
      → comes_first c a ≡ false
  first-chain a b c h k = ground (
    arith,
    text_lt-asym a.label b.label,
    text_lt-asym b.label c.label,
    text_lt-asym a.label c.label,
    text_lt-chain a.label b.label c.label,
    text_lt-chain a.label c.label b.label,
    text_lt-chain b.label a.label c.label,
    text_lt-chain b.label c.label a.label,
    text_lt-chain c.label a.label b.label,
    text_lt-chain c.label b.label a.label,
    text_lt-chain a.address b.address c.address,
  )

  map-append :
      (f : BookRow I → BookRow I) (xs ys : List (BookRow I))
      → map f (xs ++ ys) ≡ map f xs ++ map f ys
  map-append f [] ys = refl
  map-append f (x ∷ xs) ys = ap (λ r. f x ∷ r) (map-append f xs ys)

  IsBare : BookRow I → Type 0
  IsBare r = r.info ≡ none

  map-IsBare : (rows : List (BookRow I)) → All IsBare rows → map bare rows ≡ rows
  unfolding IsBare
  map-IsBare [] h = refl
  map-IsBare (r ∷ rows) h =
      ap (λ i. record r { info = i } ∷ map bare rows) (sym h.0)
      ∙ ap (λ rs. r ∷ rs) (map-IsBare rows h.1)

  bare-with_info : (r : BookRow I) (i : Option I) → bare (with_info r i) ≡ bare r
  bare-with_info r none = refl
  bare-with_info r (some i) = refl

  map-decorate :
      (rows : List (BookRow I)) (infos : List (Option I))
      → map bare (decorate rows infos) ≡ map bare rows
  unfolding decorate
  map-decorate [] infos = refl
  map-decorate (r ∷ rows) [] = refl
  map-decorate (r ∷ rows) (i ∷ infos) = rw (bare-with_info r i, map-decorate rows infos) refl

  map-decorated :
      (rows : List (BookRow I)) (r : Outcome Text (List (Option I)))
      → map bare (decorated rows r) ≡ map bare rows
  map-decorated rows (err e) = refl
  map-decorated rows (ok infos) = map-decorate rows infos

  map-with_infos :
      (node : BookNode I) (rows : List (BookRow I))
      → map bare (with_infos node rows) ≡ map bare rows
  unfolding with_infos
  map-with_infos node [] = refl
  map-with_infos node (r ∷ rows) =
      let targets = take book_info_limit (r ∷ rows) in
      map-append bare (decorated targets (node.infos (map row_address targets)))
        (drop book_info_limit (r ∷ rows))
      ∙ ap (λ front. front ++ map bare (drop book_info_limit (r ∷ rows)))
          (map-decorated targets (node.infos (map row_address targets)))
      ∙ sym (map-append bare targets (drop book_info_limit (r ∷ rows)))
      ∙ ap (map bare) (take-append-drop book_info_limit (r ∷ rows))

  row_of-IsBare :
      (node : BookNode I) (label : Text) (entries : List (Text × Text))
      → All IsBare (map (row_of label) entries)
  unfolding IsBare
  row_of-IsBare node label [] = tt
  row_of-IsBare node label (e ∷ entries) = (refl, row_of-IsBare node label entries)

  rows_of-IsBare :
      (node : BookNode I) (labels : List Text) (answers : List (Option (List (Text × Text))))
      → All IsBare (rows_of labels answers)
  unfolding rows_of
  rows_of-IsBare node [] answers = tt
  rows_of-IsBare node (l ∷ labels) [] = tt
  rows_of-IsBare node (l ∷ labels) (a ∷ answers) =
      All-append IsBare (map (row_of l) (entries_of a)) (rows_of labels answers)
        (row_of-IsBare node l (entries_of a)) (rows_of-IsBare node labels answers)

  -- By the label, and below one label by the address.
  abbrev pub StandsBefore : BookRow I → BookRow I → Type 0
  StandsBefore x y =
      (text_lt x.label y.label ≡ true)
      ⊎ ((x.label ≡ y.label) × (text_lt y.address x.address ≡ false))

  -- The table has a row for each address that the node told of, no others and no more, in order.
  abbrev pub IsBook : List Text → List (Option (List (Text × Text))) → Book I → Type 0
  IsBook labels answers b =
      (b.error ≡ none)
      × ((label address shown : Text)
          → Shows b.rows label address shown ↔ Told labels answers label address shown)
      × (length b.rows ≡ told_count labels answers)
      × Pairwise StandsBefore b.rows

  not_behind-StandsBefore : (x y : BookRow I) → comes_first y x ≡ false → StandsBefore x y
  not_behind-StandsBefore x y h = elim (Bool-cases (text_lt x.label y.label)) [
    | inl t ↦ inl t
    | inr f ↦
        let g : text_lt y.label x.label ≡ false = ground arith in
        inr (text_lt-same x.label y.label f g, ground arith)
  ]

  Shows-bare :
      (rows : List (BookRow I)) (label address shown : Text)
      → Shows rows label address shown ↔ Shows (map bare rows) label address shown
  Shows-bare rows label address shown = (
    λ (r, h, ls, ads, ps). (bare r, In-map bare r rows h, ls, ads, ps),
    λ (r, h, ls, ads, ps).
        (let (q, k, e) = map-In bare r rows h in
          (
            q,
            k,
            ap (λ x. x.label) (sym e) ∙ ls,
            ap (λ x. x.address) (sym e) ∙ ads,
            ap (λ x. x.purpose) (sym e) ∙ ps,
          )),
  )

  Shows-sorted :
      (behind : BookRow I → BookRow I → Bool) (rows : List (BookRow I)) (label address shown : Text)
      → Shows (sort_by behind rows) label address shown ↔ Shows rows label address shown
  Shows-sorted behind rows label address shown = (
    λ (r, h, ls, ads, ps). (r, (sort_by-In behind r rows).0 h, ls, ads, ps),
    λ (r, h, ls, ads, ps). (r, (sort_by-In behind r rows).1 h, ls, ads, ps),
  )

  with_infos-IsBook :
      (node : BookNode I) (labels : List Text) (answers : List (Option (List (Text × Text))))
      → IsBook labels answers
          (record { rows = with_infos node (sort_rows (rows_of labels answers)); error = none })
  unfolding sort_rows
  with_infos-IsBook node labels answers =
      let behind : BookRow I → BookRow I → Bool = λ x y. comes_first y x in
      let told = rows_of labels answers in
      let sorted = sort_by behind told in
      let shown = with_infos node sorted in
      let same : map bare shown ≡ sorted =
        map-with_infos node sorted
        ∙ map-IsBare sorted (sort_by-All behind IsBare told (rows_of-IsBare node labels answers)) in
      (
        refl,
        λ l a p.
            (let bared = Shows-bare shown l a p in
              let in_table = Shows-sorted behind told l a p in
              let of_node = rows_of-Told labels answers l a p in
              (
                λ h. of_node.0 (in_table.0 (subst (λ rows. Shows rows l a p) same (bared.0 h))),
                λ h.
                    bared.1
                      (subst (λ rows. Shows rows l a p) (sym same) (in_table.1 (of_node.1 h))),
              )),
        sym (length-map bare shown)
            ∙ ap length same
            ∙ length-sort_by behind told
            ∙ length-rows_of I labels answers,
        Pairwise-map bare StandsBefore shown (
            subst (Pairwise StandsBefore) (sym same) (
              InOrder-Pairwise behind StandsBefore not_behind-StandsBefore sorted (
                sort_by-InOrder behind (λ x y. first-one_way y x) (λ x y z. first-chain x y z)
                  told))),
      )

  abbrev Same : Outcome Text (Book I) → Outcome Text (Book I) → Type 0
  Same a b = a ≡ b

  ok-injective : (a b : Book I) → Same (ok a) (ok b) → a ≡ b
  ok-injective a b e = cc

  book_of-IsBook :
      (node : BookNode I) (labels : List Text)
      (r : Outcome Text (List (Option (List (Text × Text))))) (b c : Book I)
      (answers : List (Option (List (Text × Text))))
      → r ≡ ok answers
      → book_of node labels r b ≡ ok c
      → IsBook labels answers c
  book_of-IsBook node labels (err e) b c answers h k = absurd (cc)
  book_of-IsBook node labels (ok found) b c answers h k =
      let same : found ≡ answers = cc in
      rw (sym same, sym (ok-injective _ c k)) (with_infos-IsBook node labels found)

  -- When listlabels and the batch on the labels are answered, refreshBook leaves no error, and the table has a row exactly
  -- for the addresses of the labels whose answer is no error, with that label and that purpose ("unknown" for an empty
  -- one), as many rows as the node told of addresses, in the order of the labels and, below one label, of the addresses,
  -- whatever the batch that only decorates the rows gives.
  pub refresh_book-IsBook :
      (node : BookNode I) (b c : Book I) (labels : List Text)
      (answers : List (Option (List (Text × Text))))
      → node.list_labels ≡ ok labels
      → label_answers node labels ≡ ok answers
      → refresh_book node b ≡ ok c
      → IsBook labels answers c
  unfolding refresh_book with_infos
  refresh_book-IsBook node b c labels answers h k e =
      book_of-IsBook node labels (label_answers node labels) (record b { error = none }) c answers k
        (rw h at e)
