-- ===== src/Qr/Encode/Mask.antt =====
-- The mask that `qrEncode` chooses.
use bitcoin_lisp.Prelude.{
  ℕ, zero, suc, ◌+◌, ◌≤◌, ◌<◌, ◌≡◌, refl, sym, subst, arith, List, ltb, if◌then◌else◌, none, some,
  inl, inr, Bool-cases, ◌==◌, ==_iff,
}
use bitcoin_lisp.Qr.Encode.{best_from, mask_of, choose_mask, trial_penalty}

-- Among the masks below `n`, `mask` has the least score, and a greater score has each one before it.
pub record IsBest (score : ℕ → ℕ) (n mask : ℕ) : Type 0 where
  pub in_range : mask < n
  pub least : (m : ℕ) → m < n → score mask ≤ score m
  pub first : (m : ℕ) → m < mask → score mask < score m

IsBest-next :
    (score : ℕ → ℕ) (n mask : ℕ)
    → IsBest score n mask
    → IsBest score (suc n) (if ltb (score n) (score mask) then n else mask)
IsBest-next score n mask b = elim (Bool-cases (ltb (score n) (score mask))) [
  | inl better ↦ rw better (record {
    in_range = omega arith;
    least = λ m h. elim (Bool-cases (m == n)) [
      | inl last ↦ rw ((==_iff m n).0 last) (omega arith)
      | inr other ↦ ground (arith, b.least m (ground arith))
    ];
    first = λ m h. ground (arith, b.least m h);
  })
  | inr worse ↦ rw worse (record {
    in_range = omega (arith, b.in_range);
    least = λ m h. elim (Bool-cases (m == n)) [
      | inl last ↦ rw ((==_iff m n).0 last) (ground arith)
      | inr other ↦ b.least m (ground arith)
    ];
    first = b.first;
  })
]

best_from-IsBest :
    (rounds n last : ℕ) (score : ℕ → ℕ) (mask : ℕ)
    → n + rounds ≡ last
    → IsBest score n mask
    → (best : ℕ) × (best_from rounds n score (some (score mask, mask)) ≡ some (score best, best))
      × IsBest score last best
unfolding best_from
best_from-IsBest zero n last score mask e b =
    let e' : n ≡ last = omega arith in (mask, refl, subst (λ k. IsBest score k mask) e' b)
best_from-IsBest (suc rounds) n last score mask e b =
    elim (Bool-cases (ltb (score n) (score mask))) [
      | inl better ↦ rw better (
          best_from-IsBest rounds (suc n) last score n (omega arith)
            (rw better at (IsBest-next score n mask b)))
      | inr worse ↦ rw worse (
          best_from-IsBest rounds (suc n) last score mask (omega arith)
            (rw worse at (IsBest-next score n mask b)))
    ]

IsBest-zero : (score : ℕ → ℕ) → IsBest score 1 0
IsBest-zero score = record {
  in_range = omega arith;
  least = λ m h. let e : m ≡ 0 = omega arith in rw e (omega arith);
  first = λ m h. absurd (omega arith);
}

IsBest-of_eight : (score : ℕ → ℕ) → IsBest score 8 (mask_of (best_from 8 0 score none))
IsBest-of_eight score =
    let (best, e, b) = best_from-IsBest 7 1 8 score 0 refl (IsBest-zero score) in
    let all : best_from 8 0 score none ≡ some (score best, best) = unfold best_from in e in
    subst (λ o. IsBest score 8 (mask_of o)) (sym all) b

-- For any version and codewords, the mask that `qrEncode` chooses is below 8, its penalty is the least of the
-- eight, and every mask before it has a greater one.
pub choose_mask-IsBest :
    (version : ℕ) (codewords : List ℕ)
    → IsBest (trial_penalty version codewords) 8 (choose_mask version codewords)
unfolding choose_mask
choose_mask-IsBest version codewords = IsBest-of_eight (trial_penalty version codewords)
