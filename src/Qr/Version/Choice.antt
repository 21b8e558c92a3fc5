-- ===== src/Qr/Version/Choice.antt =====
-- The version that `pickVersion` chooses.
use bitcoin_lisp.Prelude.{
  ℕ, zero, suc, ◌+◌, ◌*◌, ◌≤◌, ◌<◌, ◌≡◌, refl, arith, true, false, Outcome, ok, err, inl, inr,
  Bool-cases, ==_iff, ◌==◌, ◌↔◌, leb→le, leb_false→lt, ltb→lt, all_below, all_below_sound, ltb,
}
use bitcoin_lisp.Qr.Version.{
  data_codeword_count, fits_version, QrError, length_bits, data_too_long, pick_from, pick_version,
}

pub record IsSmallest (byte_length from v : ℕ) : Type 0 where
  pub in_range : from ≤ v
  pub fits : fits_version byte_length v ≡ true
  pub smaller : (u : ℕ) → from ≤ u → u < v → fits_version byte_length u ≡ false

-- A version below the first one tried joins the others that do not fit.
IsSmallest-suc :
    (n from v : ℕ) → fits_version n from ≡ false → IsSmallest n (suc from) v → IsSmallest n from v
IsSmallest-suc n from v no_fit s = record {
  in_range = omega (arith, s.in_range);
  fits = s.fits;
  smaller = λ u low high. elim (Bool-cases (u == from)) [
    | inl same ↦ rw ((==_iff u from).0 same) no_fit
    | inr other ↦ s.smaller u (ground arith) high
  ];
}

pick_from-IsSmallest :
    (rounds from n v : ℕ)
    → pick_from rounds from n ≡ ok v
    → IsSmallest n from v × (v < from + rounds)
unfolding pick_from
pick_from-IsSmallest zero from n v e = cc
pick_from-IsSmallest (suc rounds) from n v e = elim (Bool-cases (fits_version n from)) [
  | inl fit ↦
      let here : from ≡ v = ground arith in
      rw (← here) (
        record { in_range = omega arith; fits = fit; smaller = λ u low high. absurd (omega arith) },
        omega arith,
      )
  | inr no_fit ↦
      let later : pick_from rounds (suc from) n ≡ ok v = rw no_fit at e in
      let (s, below) = pick_from-IsSmallest rounds (suc from) n v later in
      (IsSmallest-suc n from v no_fit s, omega arith)
]

-- `pickVersion` returns a version from 1 to 40 whose data capacity takes the bytes, and no smaller
-- version takes them.
pub pick_version-IsSmallest : (n v : ℕ) → pick_version n ≡ ok v → IsSmallest n 1 v × (v ≤ 40)
unfolding pick_version
pick_version-IsSmallest n v e = let (s, below) = pick_from-IsSmallest 40 1 n v e in (s, omega arith)

pick_from-err :
    (rounds from n : ℕ) {e : QrError}
    → pick_from rounds from n ≡ err e
    → (u : ℕ) → from ≤ u
    → u < from + rounds
    → fits_version n u ≡ false
unfolding pick_from
pick_from-err zero from n e u low high = absurd (omega arith)
pick_from-err (suc rounds) from n e u low high = elim (Bool-cases (fits_version n from)) [
  | inl fit ↦ absurd (ground arith)
  | inr no_fit ↦ elim (Bool-cases (u == from)) [
    | inl same ↦ rw ((==_iff u from).0 same) no_fit
    | inr other ↦ pick_from-err rounds (suc from) n (rw no_fit at e) u (ground arith) (omega arith)
  ]
]

capacity_table :
    all_below 41 (λ v. ltb (data_codeword_count v * 8) (4 + length_bits v + 8 * 2332)) ≡ true
unfolding all_below data_codeword_count
capacity_table = refl

capacity-lt : (v : ℕ) → v ≤ 40 → data_codeword_count v * 8 < 4 + length_bits v + 8 * 2332
capacity-lt v h = ltb→lt _ _ (
    all_below_sound 41 (λ u. ltb (data_codeword_count u * 8) (4 + length_bits u + 8 * 2332)) v
      capacity_table (omega arith))

last_capacity : data_codeword_count 40 ≡ 2334
unfolding data_codeword_count
last_capacity = refl

fits_version-lt : (n v : ℕ) → v ≤ 40 → fits_version n v ≡ true → n < 2332
unfolding fits_version
fits_version-lt n v h fit = omega (arith, capacity-lt v h, leb→le _ _ fit)

fits_last : (n : ℕ) → fits_version n 40 ≡ false → 2331 < n
unfolding fits_version
fits_last n h = omega (arith, last_capacity, leb_false→lt _ _ h)

too_long_of_lt :
    (n : ℕ) (r : Outcome QrError ℕ) → pick_version n ≡ r → 2331 < n → r ≡ err data_too_long
too_long_of_lt n (ok v) e h =
    let (s, below) = pick_version-IsSmallest n v e in
    absurd (omega (arith, fits_version-lt n v below s.fits))
too_long_of_lt n (err data_too_long) e h = refl

-- `pickVersion` fails exactly for more than 2331 bytes.
pub pick_version_err : (n : ℕ) → (pick_version n ≡ err data_too_long) ↔ (2331 < n)
unfolding pick_version
pick_version_err n = (
  λ e. fits_last n (pick_from-err 40 1 n e 40 (omega arith) (omega arith)),
  λ h. too_long_of_lt n (pick_version n) refl h,
)
