-- ===== src/Qr/Place.antt =====
-- ui/js/qr.js: the masks, `placeData` and `writeFormatAndVersion`.
pub mod Keeps
use Prim.Native.Nat.{bit_and}
use bitcoin_lisp.Prelude.{
  ℕ, zero, suc, ◌+◌, ◌-◌, ◌*◌, ◌/◌, ◌%◌, ◌^◌, List, [], ◌∷◌, Bool, true, false, not, ◌&&◌, ◌||◌,
  get_or, length, leb, ltb, ◌==◌, if◌then◌else◌, for_up, for_each, Option, none, some, and_then,
}
use bitcoin_lisp.Qr.Bch.{format_bits, version_bits}
use bitcoin_lisp.Qr.Matrix.Cells.{Grid, cell, set_cell}
use bitcoin_lisp.Qr.Matrix.{Matrix}

-- MASK_FN; the code calls it with a mask below 8.
unfoldable pub mask_fn : ℕ → ℕ → ℕ → Bool
mask_fn mask r c =
    if mask == 0
    then (r + c) % 2 == 0
    else if mask == 1
    then r % 2 == 0
    else if mask == 2
    then c % 3 == 0
    else if mask == 3
    then (r + c) % 3 == 0
    else if mask == 4
    then (r / 2 + c / 3) % 2 == 0
    else if mask == 5
    then r * c % 2 + r * c % 3 == 0
    else if mask == 6
    then (r * c % 2 + r * c % 3) % 2 == 0
    else (r * c % 3 + (r + c) % 2) % 2 == 0

-- The variables of the loops; `up` is `inc === -1`.
pub record Cursor : Type 0 where
  pub modules : Grid
  pub byte_index : ℕ
  pub bit_index : ℕ
  pub row : ℕ
  pub up : Bool

unfoldable pub bit_at : List ℕ → ℕ → ℕ → Bool
bit_at codewords byte_index bit_index =
    if ltb byte_index (length codewords)
    then bit_and (get_or codewords byte_index 0 / 2 ^ bit_index) 1 == 1
    else false

-- row += inc; past an edge the row goes back, `inc` turns round and the loop breaks.
unfoldable pub move : ℕ → Cursor → Cursor × Bool
move size s =
    if s.up
    then (if s.row == 0
        then (record s { up = false }, true)
        else (record s { row = s.row - 1 }, false))
    else (if leb size (s.row + 1)
        then (record s { up = true }, true)
        else (record s { row = s.row + 1 }, false))

module _ (is_function : Grid) (codewords : List ℕ) (mask : ℕ) where
  -- The body for one module.
  unfoldable pub place_module : ℕ → Cursor → Cursor
  place_module c s =
      if not (cell s.row c is_function)
      then (let dark = bit_at codewords s.byte_index s.bit_index in
          let moved = record s {
            modules = set_cell s.row c (if mask_fn mask s.row c then not dark else dark) s.modules;
          } in
          if s.bit_index == 0
          then record moved { byte_index = s.byte_index + 1; bit_index = 7 }
          else record moved { bit_index = s.bit_index - 1 })
      else s

  -- The endless inner loop over one pair of columns; `none` means that the fuel ran out.
  unfoldable pub place_column : ℕ → ℕ → ℕ → Cursor → Option Cursor
  place_column zero size col s = none
  place_column (suc fuel) size col s =
      let moved = move size (place_module (col - 1) (place_module col s)) in
      let rest = place_column fuel size col moved.0 in if moved.1 then some moved.0 else rest

  -- For an odd size, as every version has: for (let right = size - 1; right > 0; right -= 2), with `rounds` pairs to go at most.
  unfoldable pub place_pairs : ℕ → ℕ → ℕ → Cursor → Option Cursor
  place_pairs zero size right s = if ltb 0 right then none else some s
  place_pairs (suc rounds) size right s =
      let col = if leb right 6 then right - 1 else right in
      let next =
        and_then (place_column (suc size) size col s) (place_pairs rounds size (right - 2)) in
      if ltb 0 right then next else some s

unfoldable pub place_data : Matrix → List ℕ → ℕ → Option Matrix
place_data m codewords mask =
    let start : Cursor = record {
      modules = m.modules;
      byte_index = 0;
      bit_index = 7;
      row = m.size - 1;
      up = true;
    } in
    and_then (place_pairs m.is_function codewords mask m.size m.size (m.size - 1) start)
      (λ s. some (record m { modules = s.modules }))

unfoldable pub format_round : ℕ → ℕ → ℕ → Grid → Grid
format_round bits size i g =
    let dark = bit_and (bits / 2 ^ i) 1 == 1 in
    let row = if ltb i 6 then i else if ltb i 8 then i + 1 else size - 15 + i in
    let col = if ltb i 8 then size - 1 - i else if ltb i 9 then 15 - i else 14 - i in
    set_cell 8 col dark (set_cell row 8 dark g)

unfoldable pub version_round : ℕ → ℕ → ℕ → Grid → Grid
version_round vbits size i g =
    let dark = bit_and (vbits / 2 ^ i) 1 == 1 in
    set_cell (i % 3 + size - 11) (i / 3) dark (set_cell (i / 3) (i % 3 + size - 11) dark g)

unfoldable pub write_format_and_version : Matrix → ℕ → ℕ → Matrix
write_format_and_version m version mask =
    let formatted = for_up 15 0 (format_round (format_bits mask) m.size) m.modules in
    let dotted = set_cell (m.size - 8) 8 true formatted in
    record m {
      modules =
          if leb 7 version
          then for_up 18 0 (version_round (version_bits version) m.size) dotted
          else dotted;
    }
