-- ===== src/Qr/Tables.antt =====
-- ui/js/qr.js, the tables of level M: Reed-Solomon blocks and alignment pattern centres.
use bitcoin_lisp.Prelude.{ℕ, List, [], ◌∷◌}

-- A run of `count` blocks of `total` codewords, `data_count` of them data.
pub record RsRun : Type 0 where
  pub count : ℕ
  pub total : ℕ
  pub data_count : ℕ

abbrev pub run : ℕ → ℕ → ℕ → RsRun
run n t d = record { count = n; total = t; data_count = d }

unfoldable pub rs_blocks_m : List (List RsRun)
rs_blocks_m =
    (run 1 26 16 ∷ [])
    ∷ (run 1 44 28 ∷ [])
    ∷ (run 1 70 44 ∷ [])
    ∷ (run 2 50 32 ∷ [])
    ∷ (run 2 67 43 ∷ [])
    ∷ (run 4 43 27 ∷ [])
    ∷ (run 4 49 31 ∷ [])
    ∷ (run 2 60 38 ∷ run 2 61 39 ∷ [])
    ∷ (run 3 58 36 ∷ run 2 59 37 ∷ [])
    ∷ (run 4 69 43 ∷ run 1 70 44 ∷ [])
    ∷ (run 1 80 50 ∷ run 4 81 51 ∷ [])
    ∷ (run 6 58 36 ∷ run 2 59 37 ∷ [])
    ∷ (run 8 59 37 ∷ run 1 60 38 ∷ [])
    ∷ (run 4 64 40 ∷ run 5 65 41 ∷ [])
    ∷ (run 5 65 41 ∷ run 5 66 42 ∷ [])
    ∷ (run 7 73 45 ∷ run 3 74 46 ∷ [])
    ∷ (run 10 74 46 ∷ run 1 75 47 ∷ [])
    ∷ (run 9 69 43 ∷ run 4 70 44 ∷ [])
    ∷ (run 3 70 44 ∷ run 11 71 45 ∷ [])
    ∷ (run 3 67 41 ∷ run 13 68 42 ∷ [])
    ∷ (run 17 68 42 ∷ [])
    ∷ (run 17 74 46 ∷ [])
    ∷ (run 4 75 47 ∷ run 14 76 48 ∷ [])
    ∷ (run 6 73 45 ∷ run 14 74 46 ∷ [])
    ∷ (run 8 75 47 ∷ run 13 76 48 ∷ [])
    ∷ (run 19 74 46 ∷ run 4 75 47 ∷ [])
    ∷ (run 22 73 45 ∷ run 3 74 46 ∷ [])
    ∷ (run 3 73 45 ∷ run 23 74 46 ∷ [])
    ∷ (run 21 73 45 ∷ run 7 74 46 ∷ [])
    ∷ (run 19 75 47 ∷ run 10 76 48 ∷ [])
    ∷ (run 2 74 46 ∷ run 29 75 47 ∷ [])
    ∷ (run 10 74 46 ∷ run 23 75 47 ∷ [])
    ∷ (run 14 74 46 ∷ run 21 75 47 ∷ [])
    ∷ (run 14 74 46 ∷ run 23 75 47 ∷ [])
    ∷ (run 12 75 47 ∷ run 26 76 48 ∷ [])
    ∷ (run 6 75 47 ∷ run 34 76 48 ∷ [])
    ∷ (run 29 74 46 ∷ run 14 75 47 ∷ [])
    ∷ (run 13 74 46 ∷ run 32 75 47 ∷ [])
    ∷ (run 40 75 47 ∷ run 7 76 48 ∷ [])
    ∷ (run 18 75 47 ∷ run 31 76 48 ∷ [])
    ∷ []

unfoldable pub align_pos : List (List ℕ)
align_pos =
    []
    ∷ (6 ∷ 18 ∷ [])
    ∷ (6 ∷ 22 ∷ [])
    ∷ (6 ∷ 26 ∷ [])
    ∷ (6 ∷ 30 ∷ [])
    ∷ (6 ∷ 34 ∷ [])
    ∷ (6 ∷ 22 ∷ 38 ∷ [])
    ∷ (6 ∷ 24 ∷ 42 ∷ [])
    ∷ (6 ∷ 26 ∷ 46 ∷ [])
    ∷ (6 ∷ 28 ∷ 50 ∷ [])
    ∷ (6 ∷ 30 ∷ 54 ∷ [])
    ∷ (6 ∷ 32 ∷ 58 ∷ [])
    ∷ (6 ∷ 34 ∷ 62 ∷ [])
    ∷ (6 ∷ 26 ∷ 46 ∷ 66 ∷ [])
    ∷ (6 ∷ 26 ∷ 48 ∷ 70 ∷ [])
    ∷ (6 ∷ 26 ∷ 50 ∷ 74 ∷ [])
    ∷ (6 ∷ 30 ∷ 54 ∷ 78 ∷ [])
    ∷ (6 ∷ 30 ∷ 56 ∷ 82 ∷ [])
    ∷ (6 ∷ 30 ∷ 58 ∷ 86 ∷ [])
    ∷ (6 ∷ 34 ∷ 62 ∷ 90 ∷ [])
    ∷ (6 ∷ 28 ∷ 50 ∷ 72 ∷ 94 ∷ [])
    ∷ (6 ∷ 26 ∷ 50 ∷ 74 ∷ 98 ∷ [])
    ∷ (6 ∷ 30 ∷ 54 ∷ 78 ∷ 102 ∷ [])
    ∷ (6 ∷ 28 ∷ 54 ∷ 80 ∷ 106 ∷ [])
    ∷ (6 ∷ 32 ∷ 58 ∷ 84 ∷ 110 ∷ [])
    ∷ (6 ∷ 30 ∷ 58 ∷ 86 ∷ 114 ∷ [])
    ∷ (6 ∷ 34 ∷ 62 ∷ 90 ∷ 118 ∷ [])
    ∷ (6 ∷ 26 ∷ 50 ∷ 74 ∷ 98 ∷ 122 ∷ [])
    ∷ (6 ∷ 30 ∷ 54 ∷ 78 ∷ 102 ∷ 126 ∷ [])
    ∷ (6 ∷ 26 ∷ 52 ∷ 78 ∷ 104 ∷ 130 ∷ [])
    ∷ (6 ∷ 30 ∷ 56 ∷ 82 ∷ 108 ∷ 134 ∷ [])
    ∷ (6 ∷ 34 ∷ 60 ∷ 86 ∷ 112 ∷ 138 ∷ [])
    ∷ (6 ∷ 30 ∷ 58 ∷ 86 ∷ 114 ∷ 142 ∷ [])
    ∷ (6 ∷ 34 ∷ 62 ∷ 90 ∷ 118 ∷ 146 ∷ [])
    ∷ (6 ∷ 30 ∷ 54 ∷ 78 ∷ 102 ∷ 126 ∷ 150 ∷ [])
    ∷ (6 ∷ 24 ∷ 50 ∷ 76 ∷ 102 ∷ 128 ∷ 154 ∷ [])
    ∷ (6 ∷ 28 ∷ 54 ∷ 80 ∷ 106 ∷ 132 ∷ 158 ∷ [])
    ∷ (6 ∷ 32 ∷ 58 ∷ 84 ∷ 110 ∷ 136 ∷ 162 ∷ [])
    ∷ (6 ∷ 26 ∷ 54 ∷ 82 ∷ 110 ∷ 138 ∷ 166 ∷ [])
    ∷ (6 ∷ 30 ∷ 58 ∷ 86 ∷ 114 ∷ 142 ∷ 170 ∷ [])
    ∷ []
