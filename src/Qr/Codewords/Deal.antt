-- ===== src/Qr/Codewords/Deal.antt =====
-- `interleave` of `buildCodewords` undone by a reader that knows the lengths of the blocks: it deals the codewords
-- out, one to each block that is not full yet, round after round.
use bitcoin_lisp.Prelude.{
  ℕ, zero, suc, ◌≤◌, max, List, [], ◌∷◌, ◌++◌, length, map, Option, none, some, ltb, ◌≡◌, refl, ap,
  arith, append_assoc, false, true,
}
use bitcoin_lisp.Qr.Codewords.{longest, column, columns, interleave}

abbrev pub fewer : ℕ → ℕ
fewer zero = zero
fewer (suc n) = n

abbrev also : Option ℕ → List (Option ℕ) × List ℕ → List (Option ℕ) × List ℕ
also c (cs, rest) = (c ∷ cs, rest)

-- One round: a codeword for each block that misses one, and the codewords behind.
unfoldable pub hand_out : List ℕ → List ℕ → List (Option ℕ) × List ℕ
hand_out [] codes = ([], codes)
hand_out (zero ∷ lens) codes = also none (hand_out lens codes)
hand_out (suc n ∷ lens) [] = also none (hand_out lens [])
hand_out (suc n ∷ lens) (c ∷ codes) = also (some c) (hand_out lens codes)

abbrev put_first : Option ℕ → List ℕ → List ℕ
put_first none block = block
put_first (some c) block = c ∷ block

unfoldable pub put_before : List (Option ℕ) → List (List ℕ) → List (List ℕ)
put_before [] blocks = []
put_before (c ∷ cs) [] = []
put_before (c ∷ cs) (b ∷ blocks) = put_first c b ∷ put_before cs blocks

unfoldable pub deal : ℕ → List ℕ → List ℕ → List (List ℕ)
deal zero lens codes = map (λ n. []) lens
deal (suc rounds) lens codes =
    let round = hand_out lens codes in put_before round.0 (deal rounds (map fewer lens) round.1)

abbrev pub most : List ℕ → ℕ
most [] = 0
most (n ∷ lens) = max n (most lens)

unfoldable pub deinterleave : List ℕ → List ℕ → List (List ℕ)
deinterleave lens codes = deal (most lens) lens codes

abbrev rest_of : List ℕ → List ℕ
rest_of [] = []
rest_of (c ∷ cs) = cs

abbrev first_of : List ℕ → Option ℕ
first_of [] = none
first_of (c ∷ cs) = some c

ltb-zero : (i : ℕ) → ltb i 0 ≡ false
ltb-zero i = ground arith

ltb-suc : (i n : ℕ) → ltb (suc i) (suc n) ≡ ltb i n
ltb-suc i n = ground arith

ltb-positive : (n : ℕ) → ltb 0 (suc n) ≡ true
ltb-positive n = ground arith

column-suc :
    (i : ℕ) (blocks : List (List ℕ)) → column (suc i) blocks ≡ column i (map rest_of blocks)
unfolding column
column-suc i [] = refl
column-suc i ([] ∷ blocks) = rw (ltb-zero (suc i), ltb-zero i) (column-suc i blocks)
column-suc i ((c ∷ b) ∷ blocks) = rw (ltb-suc i (length b), column-suc i blocks) refl

columns-suc :
    (rounds i : ℕ) (blocks : List (List ℕ))
    → columns rounds (suc i) blocks ≡ columns rounds i (map rest_of blocks)
unfolding columns
columns-suc zero i blocks = refl
columns-suc (suc rounds) i blocks = rw (column-suc i blocks, columns-suc rounds (suc i) blocks) refl

hand_out-column :
    (blocks : List (List ℕ)) (codes : List ℕ)
    → hand_out (map length blocks) (column 0 blocks ++ codes) ≡ (map first_of blocks, codes)
unfolding hand_out column
hand_out-column [] codes = refl
hand_out-column ([] ∷ blocks) codes = rw (hand_out-column blocks codes) refl
hand_out-column ((c ∷ b) ∷ blocks) codes =
    rw (ltb-positive (length b), hand_out-column blocks codes) refl

put_before-first :
    (blocks : List (List ℕ)) → put_before (map first_of blocks) (map rest_of blocks) ≡ blocks
unfolding put_before
put_before-first [] = refl
put_before-first ([] ∷ blocks) = ap (λ r. [] ∷ r) (put_before-first blocks)
put_before-first ((c ∷ b) ∷ blocks) = ap (λ r. (c ∷ b) ∷ r) (put_before-first blocks)

fewer-length :
    (blocks : List (List ℕ)) → map fewer (map length blocks) ≡ map length (map rest_of blocks)
fewer-length [] = refl
fewer-length ([] ∷ blocks) = ap (λ r. 0 ∷ r) (fewer-length blocks)
fewer-length ((c ∷ b) ∷ blocks) = ap (λ r. length b ∷ r) (fewer-length blocks)

longest-rest :
    (n : ℕ) (blocks : List (List ℕ)) → longest blocks ≤ suc n → longest (map rest_of blocks) ≤ n
unfolding longest
longest-rest n [] h = omega arith
longest-rest n ([] ∷ blocks) h = omega (arith, h, longest-rest n blocks (omega (arith, h)))
longest-rest n ((c ∷ b) ∷ blocks) h = omega (arith, h, longest-rest n blocks (omega (arith, h)))

all_empty :
    (blocks : List (List ℕ)) → longest blocks ≤ 0 → map (λ n. []) (map length blocks) ≡ blocks
unfolding longest
all_empty [] h = refl
all_empty ([] ∷ blocks) h = ap (λ r. [] ∷ r) (all_empty blocks (omega (arith, h)))
all_empty ((c ∷ b) ∷ blocks) h = absurd (omega (arith, h))

deal-columns :
    (rounds : ℕ) (blocks : List (List ℕ)) (codes : List ℕ)
    → longest blocks ≤ rounds
    → deal rounds (map length blocks) (columns rounds 0 blocks ++ codes) ≡ blocks
unfolding deal columns
deal-columns zero blocks codes h = all_empty blocks h
deal-columns (suc rounds) blocks codes h =
    rw
      (
        append_assoc (column 0 blocks) (columns rounds 1 blocks) codes,
        hand_out-column blocks (columns rounds 1 blocks ++ codes),
        fewer-length blocks,
        columns-suc rounds 0 blocks,
        deal-columns rounds (map rest_of blocks) codes (longest-rest rounds blocks h),
      )
      (put_before-first blocks)

most-length : (blocks : List (List ℕ)) → most (map length blocks) ≡ longest blocks
unfolding longest
most-length [] = refl
most-length (b ∷ blocks) = rw (most-length blocks) refl

pub deinterleave-interleave :
    (blocks : List (List ℕ)) (codes : List ℕ)
    → deinterleave (map length blocks) (interleave blocks ++ codes) ≡ blocks
unfolding deinterleave interleave
deinterleave-interleave blocks codes =
    rw (most-length blocks) (deal-columns (longest blocks) blocks codes (omega arith))
