-- ===== src/Qr/Matrix.antt =====
-- ui/js/qr.js: `baseMatrix`, the function patterns of a version. The offsets that the code counts from
-- -1 or -2 are counted from 0 here, `a` for `r + 1` or `r + 2`.
pub mod Cells
use bitcoin_lisp.Prelude.{
  ℕ, zero, suc, ◌+◌, ◌-◌, ◌*◌, ◌/◌, ◌%◌, List, [], ◌∷◌, Bool, true, false, not, ◌&&◌, ◌||◌, get_or,
  replicate, leb, ltb, ◌==◌, if◌then◌else◌, for_up, for_each,
}
use bitcoin_lisp.Qr.Matrix.Cells.{Grid, cell, set_cell}
use bitcoin_lisp.Qr.Tables.{align_pos}

pub record Matrix : Type 0 where
  pub size : ℕ
  pub modules : Grid
  pub is_function : Grid

-- The closure `set`.
unfoldable pub mark : ℕ → ℕ → Bool → Matrix → Matrix
mark r c dark m = record m {
  modules = set_cell r c dark m.modules;
  is_function = set_cell r c true m.is_function;
}

abbrev pub within : ℕ → ℕ → ℕ → Bool
within lo hi x = leb lo x && leb x hi

-- A finder pattern and its separator, for r = a - 1 and c = b - 1.
unfoldable pub finder_dark : ℕ → ℕ → Bool
finder_dark a b =
    (within 1 7 a && (b == 1 || b == 7))
    || (within 1 7 b && (a == 1 || a == 7))
    || (within 3 5 a && within 3 5 b)

unfoldable pub finder : ℕ → ℕ → Matrix → Matrix
finder fr fc m =
    for_up 9 0
      (λ a m.
        for_up 9 0
          (λ b m.
            if fr + a == 0 || leb m.size (fr + a - 1) || fc + b == 0 || leb m.size (fc + b - 1)
            then m
            else mark (fr + a - 1) (fc + b - 1) (finder_dark a b) m)
          m)
      m

unfoldable pub finders : Matrix → Matrix
finders m = finder 0 (m.size - 7) (finder (m.size - 7) 0 (finder 0 0 m))

-- An alignment pattern around (row, col), for r = a - 2 and c = b - 2.
unfoldable pub alignment : ℕ → ℕ → Matrix → Matrix
alignment row col m =
    for_up 5 0
      (λ a m.
        for_up 5 0
          (λ b m.
            mark (row + a - 2) (col + b - 2)
              (a == 0 || a == 4 || b == 0 || b == 4 || (a == 2 && b == 2)) m)
          m)
      m

unfoldable pub alignments : ℕ → Matrix → Matrix
alignments version m =
    let pos = get_or align_pos (version - 1) [] in
    for_each pos
      (λ row m.
        for_each pos (λ col m. if cell row col m.is_function then m else alignment row col m) m)
      m

-- if (!isFunction[r][c]) set(r, c, dark)
unfoldable pub mark_free : ℕ → ℕ → Bool → Matrix → Matrix
mark_free r c dark m = if not (cell r c m.is_function) then mark r c dark m else m

unfoldable pub timing : Matrix → Matrix
timing m =
    for_up (m.size - 8 - 8) 8 (λ i m. mark_free 6 i (i % 2 == 0) (mark_free i 6 (i % 2 == 0) m)) m

unfoldable pub reserve_format : Matrix → Matrix
reserve_format m =
    let corner = for_up 9 0 (λ i m. mark_free 8 i false (mark_free i 8 false m)) m in
    for_up 8 0 (λ i m. mark 8 (m.size - 1 - i) false (mark (m.size - 1 - i) 8 false m)) corner

unfoldable pub reserve_version : ℕ → Matrix → Matrix
reserve_version version m =
    if leb 7 version
    then for_up 18 0
        (λ i m.
          mark (i % 3 + m.size - 11) (i / 3) false (mark (i / 3) (i % 3 + m.size - 11) false m))
        m
    else m

unfoldable pub blank : ℕ → Matrix
blank size = record {
  size = size;
  modules = replicate size (replicate size false);
  is_function = replicate size (replicate size false);
}

unfoldable pub base_matrix : ℕ → Matrix
base_matrix version =
    reserve_version version
      (reserve_format (timing (alignments version (finders (blank (version * 4 + 17))))))
