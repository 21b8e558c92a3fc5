-- ===== src/Prelude/Sorting.antt =====
-- Insertion sort by a Boolean test `behind x y`, "x goes behind y": what it keeps, and when the result is in order.
use mathlib.Core.Path.{◌≡◌}
use mathlib.Core.Logic.{inl, inr}
use mathlib.Core.Bool.{Bool, true, false}
use mathlib.Core.List.{List, [], ◌∷◌, map}
use mathlib.Core.List.Perm
use mathlib.Core.List.{Perm}
use bitcoin_lisp.Prelude.Tests.{Bool-cases, if◌then◌else◌}
use bitcoin_lisp.Prelude.Lists.{All}

module _ {ℓ} {A : Type ℓ} where
  pub All-imp {κ μ} :
      (P : A → Type κ) (Q : A → Type μ) (ys : List A) → ((y : A) → P y → Q y) → All P ys → All Q ys
  All-imp P Q [] imp h = tt
  All-imp P Q (y ∷ ys) imp h = (imp y h.0, All-imp P Q ys imp h.1)

  -- Each element stands so to all that come behind it.
  abbrev pub Pairwise {κ} : (A → A → Type κ) → List A → Type κ
  Pairwise R [] = Unit
  Pairwise R (x ∷ xs) = All (R x) xs × Pairwise R xs

  All-of_map {κ} :
      (P : A → Type κ) (f : A → A) (xs : List A) → All P (map f xs) → All (λ x. P (f x)) xs
  All-of_map P f [] h = tt
  All-of_map P f (x ∷ xs) h = (h.0, All-of_map P f xs h.1)

  pub Pairwise-map {κ} :
      (f : A → A) (R : A → A → Type κ) (xs : List A)
      → Pairwise R (map f xs)
      → Pairwise (λ x y. R (f x) (f y)) xs
  Pairwise-map f R [] h = tt
  Pairwise-map f R (x ∷ xs) h = (All-of_map (R (f x)) f xs h.0, Pairwise-map f R xs h.1)

module _ {ℓ} {A : Type ℓ} (behind : A → A → Bool) where
  abbrev pub insert_by : A → List A → List A
  insert_by x [] = x ∷ []
  insert_by x (y ∷ ys) = let rest = insert_by x ys in if behind x y then y ∷ rest else x ∷ y ∷ ys

  abbrev pub sort_by : List A → List A
  sort_by [] = []
  sort_by (x ∷ xs) = insert_by x (sort_by xs)

  -- No element goes behind one that stands after it.
  abbrev pub InOrder : List A → Type ℓ
  InOrder [] = Unit
  InOrder (x ∷ xs) = All (λ y. behind x y ≡ false) xs × InOrder xs

  insert_by-Perm : (x : A) (ys : List A) → Perm (insert_by x ys) (x ∷ ys)
  insert_by-Perm x [] = Perm.refl (x ∷ [])
  insert_by-Perm x (y ∷ ys) = elim (Bool-cases (behind x y)) [
    | inl t ↦ rw t (Perm.trans (Perm.cons y (insert_by-Perm x ys)) (Perm.swap x y ys))
    | inr f ↦ rw f (Perm.refl (x ∷ y ∷ ys))
  ]

  pub sort_by-Perm : (xs : List A) → Perm (sort_by xs) xs
  sort_by-Perm [] = Perm.refl []
  sort_by-Perm (x ∷ xs) = Perm.trans (insert_by-Perm x (sort_by xs)) (Perm.cons x (sort_by-Perm xs))

  insert_by-All {κ} :
      (P : A → Type κ) (x : A) (ys : List A) → P x → All P ys → All P (insert_by x ys)
  insert_by-All P x [] px h = (px, h)
  insert_by-All P x (y ∷ ys) px h = elim (Bool-cases (behind x y)) [
    | inl t ↦ rw t (h.0, insert_by-All P x ys px h.1)
    | inr f ↦ rw f (px, h)
  ]

  pub sort_by-All {κ} : (P : A → Type κ) (xs : List A) → All P xs → All P (sort_by xs)
  sort_by-All P [] h = tt
  sort_by-All P (x ∷ xs) h = insert_by-All P x (sort_by xs) h.0 (sort_by-All P xs h.1)

  module _ (one_way : (x y : A) → behind x y ≡ true → behind y x ≡ false)
      (chain : (x y z : A) → behind x y ≡ false → behind y z ≡ false → behind x z ≡ false) where
    insert_by-InOrder : (x : A) (ys : List A) → InOrder ys → InOrder (insert_by x ys)
    insert_by-InOrder x [] h = (tt, tt)
    insert_by-InOrder x (y ∷ ys) h = elim (Bool-cases (behind x y)) [
      | inl t ↦ rw t (
        insert_by-All (λ z. behind y z ≡ false) x ys (one_way x y t) h.0,
        insert_by-InOrder x ys h.1,
      )
      | inr f ↦ rw f (
        (
          f,
          All-imp (λ z. behind y z ≡ false) (λ z. behind x z ≡ false) ys (λ z. chain x y z f) h.0,
        ),
        h,
      )
    ]

    pub sort_by-InOrder : (xs : List A) → InOrder (sort_by xs)
    sort_by-InOrder [] = tt
    sort_by-InOrder (x ∷ xs) = insert_by-InOrder x (sort_by xs) (sort_by-InOrder xs)

  pub InOrder-Pairwise {κ} :
      (R : A → A → Type κ)
      → ((x y : A) → behind x y ≡ false → R x y)
      → (xs : List A) → InOrder xs
      → Pairwise R xs
  InOrder-Pairwise R imp [] h = tt
  InOrder-Pairwise R imp (x ∷ xs) h =
      (All-imp (λ y. behind x y ≡ false) (R x) xs (imp x) h.0, InOrder-Pairwise R imp xs h.1)
