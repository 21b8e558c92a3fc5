-- ===== src/Qr/Penalty.antt =====
-- ui/js/qr.js: `penalty`, the four rules. Rule N4 is computed by the code with floating-point numbers;
-- here by whole numbers: the floor of |100 * dark / n - 50| / 5 with n the number of modules.
use bitcoin_lisp.Prelude.{
  ℕ, suc, ◌+◌, ◌-◌, ◌*◌, ◌/◌, List, [], ◌∷◌, Bool, true, false, not, ◌&&◌, ◌||◌, length, leb, ◌==◌,
  if◌then◌else◌, for_up, for_each, Option, none, some,
}
use bitcoin_lisp.Qr.Matrix.Cells.{Grid, cell}

abbrev pub same_color : Bool → Bool → Bool
same_color true b = b
same_color false b = not b

-- The module `j` of line `i`, a row on axis 0 and a column on axis 1.
unfoldable pub on_axis : ℕ → ℕ → ℕ → Grid → Bool
on_axis axis i j modules = if axis == 0 then cell i j modules else cell j i modules

pub record Run : Type 0 where
  pub run : ℕ
  pub prev : Option Bool
  pub score : ℕ

abbrev run_score : ℕ → ℕ
run_score run = if leb 5 run then run - 2 else 0

abbrev continues : Option Bool → Bool → Bool
continues none m = false
continues (some p) m = same_color p m

unfoldable pub run_step : Bool → Run → Run
run_step m r =
    if continues r.prev m
    then record r { run = r.run + 1 }
    else record { run = 1; prev = some m; score = r.score + run_score r.run }

unfoldable pub line_runs : ℕ → ℕ → Grid → ℕ → ℕ
line_runs axis i modules score =
    let start : Run = record { run = 0; prev = none; score = score } in
    let last = for_up (length modules) 0 (λ j r. run_step (on_axis axis i j modules) r) start in
    last.score + run_score last.run

unfoldable pub penalty_runs : Grid → ℕ → ℕ
penalty_runs modules score =
    for_up 2 0
      (λ axis score. for_up (length modules) 0 (λ i score. line_runs axis i modules score) score)
      score

unfoldable pub penalty_blocks : Grid → ℕ → ℕ
penalty_blocks modules score =
    for_up (length modules - 1) 0
      (λ r score.
        for_up (length modules - 1) 0
          (λ c score.
            let m = cell r c modules in
            if same_color m (cell r (c + 1) modules)
              && same_color m (cell (r + 1) c modules)
              && same_color m (cell (r + 1) (c + 1) modules)
            then score + 3
            else score)
          score)
      score

abbrev finder_like : List Bool
finder_like = true ∷ false ∷ true ∷ true ∷ true ∷ false ∷ true ∷ false ∷ false ∷ false ∷ false ∷ []

abbrev finder_like_reversed : List Bool
finder_like_reversed =
    false ∷ false ∷ false ∷ false ∷ true ∷ false ∷ true ∷ true ∷ true ∷ false ∷ true ∷ []

-- Whether the modules from `j` on are `pattern`, `k` of them being read.
unfoldable pub matches : ℕ → ℕ → ℕ → Grid → List Bool → Bool
matches axis i j modules [] = true
matches axis i j modules (p ∷ pattern) =
    same_color (on_axis axis i j modules) p && matches axis i (suc j) modules pattern

unfoldable pub penalty_finders : Grid → ℕ → ℕ
penalty_finders modules score =
    for_up 2 0
      (λ axis score.
        for_up (length modules) 0
          (λ i score.
            for_up (length modules - 10) 0
              (λ j score.
                if matches axis i j modules finder_like
                  || matches axis i j modules finder_like_reversed
                then score + 40
                else score)
              score)
          score)
      score

unfoldable pub count_dark : Grid → ℕ
count_dark modules =
    for_each modules (λ row dark. for_each row (λ m dark. if m then dark + 1 else dark) dark) 0

abbrev distance : ℕ → ℕ → ℕ
distance a b = (a - b) + (b - a)

unfoldable pub penalty : Grid → ℕ
penalty modules =
    let n = length modules * length modules in
    let score = penalty_finders modules (penalty_blocks modules (penalty_runs modules 0)) in
    score + distance (count_dark modules * 100) (50 * n) / (5 * n) * 10
