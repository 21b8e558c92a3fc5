-- ===== src/Qr/Matrix/Cells.antt =====
-- Square arrays of modules, `modules[r][c]`, and what a write leaves alone.
use bitcoin_lisp.Prelude.{
  ℕ, zero, suc, ◌≡◌, ◌≢◌, ◌⊎◌, inl, inr, refl, ap, arith, List, [], ◌∷◌, Bool, false, get_or, set,
  length, length-set, ◌==◌, Bool-cases, ==_iff,
}

abbrev pub Grid : Type 0
Grid = List (List Bool)

unfoldable pub cell : ℕ → ℕ → Grid → Bool
cell r c g = get_or (get_or g r []) c false

unfoldable pub set_cell : ℕ → ℕ → Bool → Grid → Grid
set_cell r c v g = set g r (set (get_or g r []) c v)

module _ {ℓ} {A : Type ℓ} where
  get_or-set_ne :
      (xs : List A) (i j : ℕ) (v d : A) → i ≢ j → get_or (set xs i v) j d ≡ get_or xs j d
  get_or-set_ne [] i j v d h = refl
  get_or-set_ne (x ∷ xs) zero zero v d h = absurd (h refl)
  get_or-set_ne (x ∷ xs) zero (suc j) v d h = refl
  get_or-set_ne (x ∷ xs) (suc i) zero v d h = refl
  get_or-set_ne (x ∷ xs) (suc i) (suc j) v d h = get_or-set_ne xs i j v d (λ e. h (ap suc e))

  get_or-set_self :
      (xs : List A) (i : ℕ) (v d : A) → (get_or (set xs i v) i d ≡ v) ⊎ (set xs i v ≡ xs)
  get_or-set_self [] i v d = inr refl
  get_or-set_self (x ∷ xs) zero v d = inl refl
  get_or-set_self (x ∷ xs) (suc i) v d = elim (get_or-set_self xs i v d) [
    | inl e ↦ inl e
    | inr e ↦ inr (ap (x ∷◌) e)
  ]

cell-set_cell_row :
    (r c c' : ℕ) (v : Bool) (g : Grid) → c' ≢ c → cell r c (set_cell r c' v g) ≡ cell r c g
unfolding cell set_cell
cell-set_cell_row r c c' v g h = elim (get_or-set_self g r (set (get_or g r []) c' v) []) [
  | inl e ↦ rw e (get_or-set_ne (get_or g r []) c' c v false h)
  | inr e ↦ rw e refl
]

cell-set_cell_other :
    (r c r' c' : ℕ) (v : Bool) (g : Grid) → r' ≢ r → cell r c (set_cell r' c' v g) ≡ cell r c g
unfolding cell set_cell
cell-set_cell_other r c r' c' v g h =
    ap (λ (l : List Bool). get_or l c false) (get_or-set_ne g r' r (set (get_or g r' []) c' v) [] h)

-- A write at another place changes nothing at (r, c).
pub cell-set_cell_ne :
    (r c r' c' : ℕ) (v : Bool) (g : Grid)
    → (r' ≢ r) ⊎ (c' ≢ c)
    → cell r c (set_cell r' c' v g) ≡ cell r c g
cell-set_cell_ne r c r' c' v g (inl other_row) = cell-set_cell_other r c r' c' v g other_row
cell-set_cell_ne r c r' c' v g (inr other_col) = elim (Bool-cases (r' == r)) [
  | inl same ↦ rw ((==_iff r' r).0 same) (cell-set_cell_row r c c' v g other_col)
  | inr other ↦ cell-set_cell_other r c r' c' v g (ground arith)
]

length-set_cell : (r c : ℕ) (v : Bool) (g : Grid) → length (set_cell r c v g) ≡ length g
unfolding set_cell
length-set_cell r c v g = length-set g r (set (get_or g r []) c v)
