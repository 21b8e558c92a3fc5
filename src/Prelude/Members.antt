-- ===== src/Prelude/Members.antt =====
-- What it is to be in a list, and what a search finds.
use Prim.Native.Nat.{suc}
use mathlib.Core.Path.{◌≡◌, refl, sym, ap, ◌∙◌}
use mathlib.Core.Logic.{◌↔◌, ◌⊎◌, inl, inr}
use mathlib.Core.Bool.{Bool, true, false}
use mathlib.Core.List.{List, [], ◌∷◌, ◌++◌, map, reverse, reverse-cons}
use mathlib.Core.Option.{none, some}
use bitcoin_lisp.Prelude.Tests.{Bool-cases}
use bitcoin_lisp.Prelude.Lists.{find_first, length, some_of}
use bitcoin_lisp.Prelude.Texts.{Text, text_eq, text_eq_iff}
use bitcoin_lisp.Prelude.Sorting.{insert_by, sort_by}

module _ {ℓ} {A : Type ℓ} where
  pub data In (r : A) : List A → Type ℓ where
    first : {x : A} {xs : List A} → r ≡ x → In r (x ∷ xs)
    later : {x : A} {xs : List A} → In r xs → In r (x ∷ xs)

  pub In-append_left : (r : A) (xs ys : List A) → In r xs → In r (xs ++ ys)
  In-append_left r [] ys h = elim h [ ]
  In-append_left r (x ∷ xs) ys (first e) = first e
  In-append_left r (x ∷ xs) ys (later h) = later (In-append_left r xs ys h)

  pub In-append_right : (r : A) (xs ys : List A) → In r ys → In r (xs ++ ys)
  In-append_right r [] ys h = h
  In-append_right r (x ∷ xs) ys h = later (In-append_right r xs ys h)

  pub In-append : (r : A) (xs ys : List A) → In r (xs ++ ys) → In r xs ⊎ In r ys
  In-append r [] ys h = inr h
  In-append r (x ∷ xs) ys (first e) = inl (first e)
  In-append r (x ∷ xs) ys (later h) = elim (In-append r xs ys h) [
    | inl k ↦ inl (later k)
    | inr k ↦ inr k
  ]

  pub reverse-In : (r : A) (xs : List A) → In r xs → In r (reverse xs)
  reverse-In r [] h = elim h [ ]
  reverse-In r (x ∷ xs) (first e) =
      rw (reverse-cons x xs) (In-append_right r (reverse xs) (x ∷ []) (first e))
  reverse-In r (x ∷ xs) (later h) =
      rw (reverse-cons x xs) (In-append_left r (reverse xs) (x ∷ []) (reverse-In r xs h))

  pub In-reverse : (r : A) (xs : List A) → In r (reverse xs) → In r xs
  In-reverse r [] h = h
  In-reverse r (x ∷ xs) h =
      let split : In r (reverse xs ++ x ∷ []) = rw (reverse-cons x xs) at h in
      elim (In-append r (reverse xs) (x ∷ []) split) [
        | inl k ↦ later (In-reverse r xs k)
        | inr (first e) ↦ first e
        | inr (later k) ↦ elim k [ ]
      ]

  pub find_first-In :
      (p : A → Bool) (xs : List A) (r : A) → find_first p xs ≡ some r → In r xs × (p r ≡ true)
  find_first-In p [] r e = absurd (cc)
  find_first-In p (x ∷ xs) r e = elim (Bool-cases (p x)) [
    | inl t ↦
        let same : x ≡ r = (let s : some x ≡ some r = rw t at e in cc) in
        (first (sym same), rw (sym same) t)
    | inr f ↦ let (h, q) = find_first-In p xs r (rw f at e) in (later h, q)
  ]

  pub find_first-none :
      (p : A → Bool) (xs : List A) (r : A) → find_first p xs ≡ none → In r xs → p r ≡ false
  find_first-none p [] r e h = elim h [ ]
  find_first-none p (x ∷ xs) r e h = elim (Bool-cases (p x)) [
    | inl t ↦ absurd (let bad : some x ≡ none = rw t at e in cc)
    | inr f ↦ go h f (find_first-none p xs r (rw f at e))
  ]
    where
      go : In r (x ∷ xs) → p x ≡ false → (In r xs → p r ≡ false) → p r ≡ false
      go (first same) f rest = rw same f
      go (later k) f rest = rest k

  module _ (behind : A → A → Bool) where
    insert_by-In : (r x : A) (ys : List A) → In r (insert_by behind x ys) ↔ In r (x ∷ ys)
    insert_by-In r x [] = (λ h. h, λ h. h)
    insert_by-In r x (y ∷ ys) = elim (Bool-cases (behind x y)) [
      | inl t ↦ rw t (
        λ h. (elim h [ first e ↦ later (first e) | later k ↦ swap ((insert_by-In r x ys).0 k) ]),
        λ h. (elim h [
          | first e ↦ later ((insert_by-In r x ys).1 (first e))
          | later (first e) ↦ first e
          | later (later k) ↦ later ((insert_by-In r x ys).1 (later k))
        ]),
      )
      | inr f ↦ rw f (λ h. h, λ h. h)
    ]
      where
        swap : In r (x ∷ ys) → In r (x ∷ y ∷ ys)
        swap (first e) = first e
        swap (later k) = later (later k)

    pub sort_by-In : (r : A) (xs : List A) → In r (sort_by behind xs) ↔ In r xs
    sort_by-In r [] = (λ h. h, λ h. h)
    sort_by-In r (x ∷ xs) = (
      λ h. (elim ((insert_by-In r x (sort_by behind xs)).0 h) [
        | first e ↦ first e
        | later k ↦ later ((sort_by-In r xs).0 k)
      ]),
      λ h. (elim h [
        | first e ↦ (insert_by-In r x (sort_by behind xs)).1 (first e)
        | later k ↦ (insert_by-In r x (sort_by behind xs)).1 (later ((sort_by-In r xs).1 k))
      ]),
    )

    length-insert_by : (x : A) (ys : List A) → length (insert_by behind x ys) ≡ suc (length ys)
    length-insert_by x [] = refl
    length-insert_by x (y ∷ ys) = elim (Bool-cases (behind x y)) [
      | inl t ↦ rw t (ap suc (length-insert_by x ys))
      | inr f ↦ rw f refl
    ]

    pub length-sort_by : (xs : List A) → length (sort_by behind xs) ≡ length xs
    length-sort_by [] = refl
    length-sort_by (x ∷ xs) = length-insert_by x (sort_by behind xs) ∙ ap suc (length-sort_by xs)

module _ {ℓ κ} {A : Type ℓ} {B : Type κ} where
  pub In-map : (f : A → B) (x : A) (xs : List A) → In x xs → In (f x) (map f xs)
  In-map f x [] h = elim h [ ]
  In-map f x (y ∷ xs) (first e) = first (ap f e)
  In-map f x (y ∷ xs) (later h) = later (In-map f x xs h)

  pub map-In : (f : A → B) (y : B) (xs : List A) → In y (map f xs) → (x : A) × In x xs × (y ≡ f x)
  map-In f y [] h = elim h [ ]
  map-In f y (x ∷ xs) (first e) = (x, first refl, e)
  map-In f y (x ∷ xs) (later h) = let (z, k, e) = map-In f y xs h in (z, later k, e)

pub text-In :
    (word : Text) (names : List Text) → some_of (text_eq word) names ≡ true → In word names
text-In word [] h = absurd (cc)
text-In word (n ∷ names) h = elim (Bool-cases (text_eq word n)) [
  | inl t ↦ first ((text_eq_iff word n).0 t)
  | inr f ↦ later (text-In word names (rw f at h))
]
