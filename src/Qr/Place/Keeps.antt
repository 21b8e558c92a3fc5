-- ===== src/Qr/Place/Keeps.antt =====
-- `placeData` ends, and writes no module of a function pattern.
use mathlib.Core.Path.{ap₂}
use bitcoin_lisp.Prelude.{
  ℕ, zero, suc, ◌-◌, ◌<◌, ◌≤◌, ◌≡◌, inl, inr, refl, ap, ◌∙◌, arith, List, Bool, true, false, leb,
  ltb, ◌==◌, if◌then◌else◌, some, Bool-cases, ◌*◌,
}
use bitcoin_lisp.Qr.Matrix.Cells.{Grid, cell, set_cell, cell-set_cell_ne}
use bitcoin_lisp.Qr.Matrix.{Matrix}
use bitcoin_lisp.Qr.Place.{Cursor, place_module, place_column, place_pairs, place_data, move}

-- `g` agrees with `g'` on every module that `fn` marks.
abbrev pub Agrees : Grid → Grid → Grid → Type 0
Agrees fn g g' = (r c : ℕ) → cell r c fn ≡ true → cell r c g' ≡ cell r c g

set_cell-Agrees :
    (fn g g' : Grid) (r c : ℕ) (v : Bool)
    → cell r c fn ≡ false
    → Agrees fn g g'
    → Agrees fn g (set_cell r c v g')
set_cell-Agrees fn g g' r c v free keep r' c' marked = elim (Bool-cases (r == r')) [
  | inl same_row ↦ elim (Bool-cases (c == c')) [
    | inl same_col ↦ absurd (ground arith)
    | inr other ↦ cell-set_cell_ne r' c' r c v g' (inr (ground arith)) ∙ keep r' c' marked
  ]
  | inr other ↦ cell-set_cell_ne r' c' r c v g' (inl (ground arith)) ∙ keep r' c' marked
]

-- The rounds that the inner loop still makes, less one.
abbrev to_go : Bool → ℕ → ℕ → ℕ
to_go true size row = row
to_go false size row = size - 1 - row

to_go-le : (u : Bool) (size row : ℕ) → row < size → to_go u size row < suc size
to_go-le true size row h = omega arith
to_go-le false size row h = omega arith

record Moves (size : ℕ) (s s' : Cursor) (stop : Bool) : Type 0 where
  same : s'.modules ≡ s.modules
  row_in : s'.row < size
  fewer : stop ≡ false → to_go s'.up size s'.row < to_go s.up size s.row

move-Moves : (size : ℕ) (s : Cursor) → s.row < size → Moves size s (move size s).0 (move size s).1
unfolding move
move-Moves size s h = ground arith

module _ (fn : Grid) (codewords : List ℕ) (mask : ℕ) (g : Grid) where
  place_module_lem :
      (c : ℕ) (s : Cursor)
      → Agrees fn g s.modules
      → Agrees fn g (place_module fn codewords mask c s).modules
        × ((place_module fn codewords mask c s).row ≡ s.row)
        × ((place_module fn codewords mask c s).up ≡ s.up)
  unfolding place_module
  place_module_lem c s keep = elim (Bool-cases (cell s.row c fn)) [
    | inl taken ↦ rw taken (keep, refl, refl)
    | inr free ↦
        let kept = set_cell-Agrees fn g s.modules s.row c _ free keep in
        elim (Bool-cases (s.bit_index == 0)) [
          | inl last ↦ rw (free, last) (kept, refl, refl)
          | inr more ↦ rw (free, more) (kept, refl, refl)
        ]
  ]

  -- What the loops keep: the function modules, and a row within the matrix.
  record Inside (size : ℕ) (s : Cursor) : Type 0 where
    agrees : Agrees fn g s.modules
    row_in : s.row < size

  abbrev round : ℕ → ℕ → Cursor → Cursor × Bool
  round size col s =
      move size (place_module fn codewords mask (col - 1) (place_module fn codewords mask col s))

  round_lem :
      (size col : ℕ) (s : Cursor)
      → Inside size s
      → Inside size (round size col s).0
        × ((round size col s).1 ≡ false
            → to_go (round size col s).0.up size (round size col s).0.row < to_go s.up size s.row)
  round_lem size col s inv =
      let one = place_module fn codewords mask col s in
      let placed = place_module fn codewords mask (col - 1) one in
      let (a, row_a, up_a) = place_module_lem col s inv.agrees in
      let (b, row_b, up_b) = place_module_lem (col - 1) one a in
      let row : placed.row ≡ s.row = row_b ∙ row_a in
      let left : to_go placed.up size placed.row ≡ to_go s.up size s.row =
        ap₂ (λ (u : Bool) (r : ℕ). to_go u size r) (up_b ∙ up_a) row in
      let mv = move-Moves size placed (omega (arith, row, inv.row_in)) in
      (
        record { agrees = λ r c k. ap (cell r c) mv.same ∙ b r c k; row_in = mv.row_in },
        λ e. omega (arith, left, mv.fewer e),
      )

  place_column_lem :
      (fuel size col : ℕ) (s : Cursor)
      → Inside size s
      → to_go s.up size s.row < fuel
      → (s' : Cursor) × (place_column fn codewords mask fuel size col s ≡ some s') × Inside size s'
  unfolding place_column
  place_column_lem zero size col s inv h = absurd (omega arith)
  place_column_lem (suc fuel) size col s inv h =
      let (inv', fewer) = round_lem size col s inv in
      elim (Bool-cases (round size col s).1) [
        | inl stop ↦ ((round size col s).0, rw stop, inv')
        | inr more ↦
            let (s', e, last) =
              place_column_lem fuel size col (round size col s).0 inv'
                (omega (arith, fewer more)) in
            (s', rw more e, last)
      ]

  place_pairs_lem :
      (rounds size right : ℕ) (s : Cursor)
      → Inside size s
      → right ≤ 2 * rounds
      → (s' : Cursor) × (place_pairs fn codewords mask rounds size right s ≡ some s')
        × Inside size s'
  unfolding place_pairs
  place_pairs_lem zero size right s inv h =
      let none_left : right ≡ 0 = omega arith in (s, rw none_left, inv)
  place_pairs_lem (suc rounds) size right s inv h = elim (Bool-cases (ltb 0 right)) [
    | inr done ↦ (s, rw done, inv)
    | inl more ↦
        let col = if leb right 6 then right - 1 else right in
        let (s', e, inv') =
          place_column_lem (suc size) size col s inv (to_go-le s.up size s.row inv.row_in) in
        let (s'', e', inv'') = place_pairs_lem rounds size (right - 2) s' inv' (omega arith) in
        (s'', rw (more, e) e', inv'')
  ]

-- For every matrix that is not empty, any codewords and any mask, `placeData` ends, keeps the size and the
-- function flags, and leaves every module of a function pattern as it was.
pub place_data-Agrees :
    (m : Matrix) (codewords : List ℕ) (mask : ℕ)
    → 0 < m.size
    → (m' : Matrix) × (place_data m codewords mask ≡ some m')
      × (m'.size ≡ m.size)
      × (m'.is_function ≡ m.is_function)
      × Agrees m.is_function m.modules m'.modules
unfolding place_data
place_data-Agrees m codewords mask h =
    let start : Cursor = record {
      modules = m.modules;
      byte_index = 0;
      bit_index = 7;
      row = m.size - 1;
      up = true;
    } in
    let (s, e, inv) =
      place_pairs_lem m.is_function codewords mask m.modules m.size m.size (m.size - 1) start
        (record { agrees = λ r c k. refl; row_in = omega arith }) (omega arith) in
    (record m { modules = s.modules }, rw e, refl, refl, inv.agrees)
