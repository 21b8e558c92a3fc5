-- ===== src/Console/History/Keys.antt =====
-- What the arrow keys show.
use mathlib.Core.List.{reverse-cons}
use bitcoin_lisp.Prelude.{
  ℕ, zero, suc, ◌+◌, ◌-◌, ◌≤◌, ◌<◌, min, List, [], ◌∷◌, ◌++◌, sym, true, false, ltb, ◌==◌,
  if◌then◌else◌, some, Text, length, get_or, ◌≡◌, ap, refl, ◌∙◌, arith, inl, inr, Bool-cases,
  reverse, length-reverse,
}
use bitcoin_lisp.Console.History.{History, Offset, older, newer, move_ptr, shown, browsed, browse}

-- A press of an arrow key writes the line that `browse` gives into the input.
unfoldable pub press : Offset → History × Text → History × Text
unfolding browse
press offset at = browse offset at.0 at.1

unfoldable pub press_times : ℕ → Offset → History × Text → History × Text
press_times zero offset at = at
press_times (suc k) offset at = press_times k offset (press offset at)

-- The state that a number of presses leads to: the pointer, the saved line and the line shown.
at_ptr : History → ℕ → Text → History × Text
at_ptr h p line = let next = record h { ptr = p; pending = some line } in (next, shown next line)

keeps_line :
    (q n : ℕ) (x line : Text)
    → (if q == n then some (if ltb q n then x else line) else some line) ≡ some line
keeps_line q n x line = elim (Bool-cases (ltb q n)) [
  | inl t ↦ let other : q == n ≡ false = ground arith in rw t (rw other refl)
  | inr f ↦ rw f (ground arith)
]

older-at_ptr :
    (h : History) (p : ℕ) (line : Text)
    → p < length h.items
    → press older (at_ptr h (suc p) line) ≡ at_ptr h p line
unfolding press browsed browse move_ptr at_ptr shown
older-at_ptr h p line small =
    let at : min (suc p - 1) (length h.items) ≡ p = omega arith in
    rw (keeps_line (suc p) (length h.items) (get_or h.items (suc p) []) line) (rw at refl)

newer-at_ptr :
    (h : History) (p : ℕ) (line : Text)
    → p < length h.items
    → press newer (at_ptr h p line) ≡ at_ptr h (suc p) line
unfolding press browsed browse move_ptr at_ptr shown
newer-at_ptr h p line small =
    let at : min (p + 1) (length h.items) ≡ suc p = omega arith in
    rw (keeps_line p (length h.items) (get_or h.items p []) line) (rw at refl)

press_times-older :
    (k p : ℕ) (h : History) (line : Text)
    → k + p ≤ length h.items
    → press_times k older (at_ptr h (k + p) line) ≡ at_ptr h p line
unfolding press_times
press_times-older zero p h line small =
    let z : 0 + p ≡ p = omega arith in ap (λ q. at_ptr h q line) z
press_times-older (suc k) p h line small =
    let e : suc k + p ≡ suc (k + p) = omega arith in
    let one : press older (at_ptr h (suc k + p) line) ≡ at_ptr h (k + p) line =
      ap (λ q. press older (at_ptr h q line)) e ∙ older-at_ptr h (k + p) line (omega arith) in
    ap (press_times k older) one ∙ press_times-older k p h line (omega arith)

press_times-newer :
    (k p : ℕ) (h : History) (line : Text)
    → k + p ≤ length h.items
    → press_times k newer (at_ptr h p line) ≡ at_ptr h (k + p) line
unfolding press_times
press_times-newer zero p h line small =
    let z : p ≡ 0 + p = omega arith in ap (λ q. at_ptr h q line) z
press_times-newer (suc k) p h line small =
    let same : k + suc p ≡ suc k + p = omega arith in
    rw (newer-at_ptr h p line (omega arith))
      (press_times-newer k (suc p) h line (omega arith) ∙ ap (λ q. at_ptr h q line) same)

press-end :
    (h : History) (line : Text)
    → h.ptr ≡ length h.items
    → press older (h, line) ≡ press older (at_ptr h (length h.items) line)
unfolding press browsed browse move_ptr at_ptr shown
press-end h line at_end =
    rw (keeps_line (length h.items) (length h.items) (get_or h.items (length h.items) []) line)
      (rw at_end (let e : length h.items == length h.items ≡ true = ground arith in rw e refl))

line-end : (h : History) (line : Text) → (at_ptr h (length h.items) line).1 ≡ line
unfolding at_ptr shown
line-end h line = let e : ltb (length h.items) (length h.items) ≡ false = ground arith in rw e refl

round_trip :
    (h : History) (k p : ℕ) (line : Text)
    → h.ptr ≡ length h.items
    → length h.items ≡ suc k + p
    → press_times (suc k) newer (press_times (suc k) older (h, line))
      ≡ at_ptr h (length h.items) line
unfolding press_times
round_trip h k p line at_end whole =
    ap (λ at. press_times (suc k) newer (press_times k older at)) (press-end h line at_end)
    ∙ (ap (λ q. press_times (suc k) newer (press_times (suc k) older (at_ptr h q line))) whole
        ∙ (ap (press_times (suc k) newer) (press_times-older (suc k) p h line (omega arith))
            ∙ (press_times-newer (suc k) p h line (omega arith)
                ∙ ap (λ q. at_ptr h q line) (sym whole))))

-- From a history whose pointer is behind its last line, with any text in the input: after as many
-- presses of the up key as there are lines or fewer (and at least one), the same number of presses of the
-- down key gives that text back in the input.
pub newer-older :
    (h : History) (k : ℕ) (line : Text)
    → h.ptr ≡ length h.items
    → suc k ≤ length h.items
    → (press_times (suc k) newer (press_times (suc k) older (h, line))).1 ≡ line
unfolding press_times
newer-older h k line at_end small =
    ap (λ at. at.1) (round_trip h k (length h.items - suc k) line at_end (omega arith))
    ∙ line-end h line

-- The lines of a history, the last one first: what a user thinks of as the history.
unfoldable pub recent : History → List Text
recent h = reverse h.items

get_or-append_left :
    (xs ys : List Text) (i : ℕ) → i < length xs → get_or (xs ++ ys) i [] ≡ get_or xs i []
get_or-append_left [] ys i h = absurd (omega arith)
get_or-append_left (x ∷ xs) ys zero h = refl
get_or-append_left (x ∷ xs) ys (suc i) h = get_or-append_left xs ys i (omega arith)

get_or-append_end : (xs : List Text) (x : Text) → get_or (xs ++ x ∷ []) (length xs) [] ≡ x
get_or-append_end [] x = refl
get_or-append_end (y ∷ xs) x = get_or-append_end xs x

get_or-reverse :
    (xs : List Text) (p k : ℕ) → length xs ≡ suc k + p → get_or (reverse xs) k [] ≡ get_or xs p []
get_or-reverse [] p k h = absurd (omega arith)
get_or-reverse (x ∷ xs) zero k h =
    let e : k ≡ length (reverse xs) = omega (arith, length-reverse {0} xs) in
    rw (reverse-cons x xs)
      (ap (λ i. get_or (reverse xs ++ x ∷ []) i []) e ∙ get_or-append_end (reverse xs) x)
get_or-reverse (x ∷ xs) (suc p) k h = rw (reverse-cons x xs) (
    get_or-append_left (reverse xs) (x ∷ []) k (omega (arith, length-reverse {0} xs))
    ∙ get_or-reverse xs p k (omega arith))

line-at_ptr :
    (h : History) (p : ℕ) (line : Text)
    → p < length h.items
    → (at_ptr h p line).1 ≡ get_or h.items p []
unfolding at_ptr shown
line-at_ptr h p line small = let e : ltb p (length h.items) ≡ true = ground arith in rw e refl

-- From a history whose pointer is behind its last line: after `k + 1` presses of the up key, at most as many as
-- there are lines, the input shows the line number `k` of the history, the last one being number 0.
pub older-recent :
    (h : History) (k : ℕ) (line : Text)
    → h.ptr ≡ length h.items
    → suc k ≤ length h.items
    → (press_times (suc k) older (h, line)).1 ≡ get_or (recent h) k []
unfolding press_times recent
older-recent h k line at_end small =
    let p = length h.items - suc k in
    let whole : length h.items ≡ suc k + p = omega arith in
    ap (λ at. (press_times k older at).1) (press-end h line at_end)
    ∙ (ap (λ q. (press_times (suc k) older (at_ptr h q line)).1) whole
        ∙ (ap (λ at. at.1) (press_times-older (suc k) p h line (omega arith))
            ∙ (line-at_ptr h p line (omega arith) ∙ sym (get_or-reverse h.items p k whole))))
