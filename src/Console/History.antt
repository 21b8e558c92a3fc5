-- ===== src/Console/History.antt =====
-- ui/js/console.js: `createHistory`, its `push`, `browse` and `entries`. The storage is what the last
-- `save` wrote; a history that is loaded from it starts with the strings that stand in it.
pub mod Laws
pub mod Keys
pub mod Recent
use bitcoin_lisp.Prelude.{
  ℕ, zero, suc, ◌+◌, ◌-◌, min, List, [], ◌∷◌, ◌++◌, Bool, true, false, not, ltb, ◌==◌,
  if◌then◌else◌, Option, none, some, or_else, Text, text_eq, length, get_or, drop,
}

pub record History : Type 0 where
  pub items : List Text
  pub ptr : ℕ
  pub pending : Option Text
  pub saved : Option (List Text)

unfoldable pub create_history : Option (List Text) → History
create_history saved =
    let items = or_else saved [] in
    record { items = items; ptr = length items; pending = none; saved = saved }

-- `items.splice(items.indexOf(cmd), 1)` where it occurs.
unfoldable pub remove_first : Text → List Text → List Text
remove_first cmd [] = []
remove_first cmd (x ∷ xs) = let rest = remove_first cmd xs in if text_eq cmd x then xs else x ∷ rest

-- `while (items.length > limit) items.shift()`
unfoldable pub shift_to : ℕ → List Text → List Text
shift_to limit [] = []
shift_to limit (x ∷ xs) = if ltb limit (length (x ∷ xs)) then shift_to limit xs else x ∷ xs

unfoldable pub push : ℕ → History → Text → History
push limit h cmd =
    let items = shift_to limit (remove_first cmd h.items ++ cmd ∷ []) in
    record { items = items; ptr = length items; pending = none; saved = some items }

-- The two offsets that the keys send.
pub data Offset : Type 0 where
  older newer : Offset

unfoldable pub move_ptr : Offset → ℕ → ℕ → ℕ
move_ptr older ptr n = min (ptr - 1) n
move_ptr newer ptr n = min (ptr + 1) n

-- The line that stands at the pointer.
unfoldable pub shown : History → Text → Text
shown h current =
    if ltb h.ptr (length h.items) then get_or h.items h.ptr [] else or_else h.pending current

unfoldable pub browsed : Offset → History → Text → History
browsed offset h current = record h {
  pending = if h.ptr == length h.items then some current else h.pending;
  ptr = move_ptr offset h.ptr (length h.items);
}

unfoldable pub browse : Offset → History → Text → History × Text
browse offset h current = let next = browsed offset h current in (next, shown next current)
