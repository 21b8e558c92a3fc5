-- ===== src/Wallet/Psbt/Open.antt =====
-- The inputs that are counted as signable, one by one.
use bitcoin_lisp.Prelude.{
  ℕ, zero, suc, ◌+◌, ◌<◌, ◌≤◌, List, [], ◌∷◌, true, false, if◌then◌else◌, Option, none, some,
  length, get_elem?, All, Pairwise, In, first, later, Text, ◌≡◌, ◌↔◌, refl, ap, sym, subst, ◌∙◌,
  arith, Bool-cases, inl, inr, All-imp, sym,
}
use bitcoin_lisp.Wallet.Psbt.{
  InputAnalysis, AddressInfo, is_ours, signable, count_signable, is_final_at, behind_first,
}

-- The input with this number has an address that the wallet owns and can solve, and is not final.
abbrev pub IsOpen :
    (Text → Option AddressInfo) → List InputAnalysis → List (Option Text) → ℕ → Type 0
IsOpen infos inputs addresses n =
    (a : Text) × (info : AddressInfo) × (get_elem? addresses n ≡ some (some a))
    × (infos a ≡ some info)
    × (info.ismine ≡ true)
    × (info.solvable ≡ true)
    × ((i : InputAnalysis) → get_elem? inputs n ≡ some i → i.is_final ≡ false)

module _ (infos : Text → Option AddressInfo) where
  -- The numbers of the inputs that are counted, from `k` on.
  abbrev pub open_inputs : ℕ → List InputAnalysis → List (Option Text) → List ℕ
  open_inputs k inputs [] = []
  open_inputs k inputs (a ∷ addresses) =
      let rest = open_inputs (suc k) (behind_first inputs) addresses in
      if signable infos (is_final_at inputs) a then k ∷ rest else rest

  pub length-open_inputs :
      (k : ℕ) (inputs : List InputAnalysis) (addresses : List (Option Text))
      → length (open_inputs k inputs addresses) ≡ count_signable inputs addresses infos
  unfolding count_signable
  length-open_inputs k inputs [] = refl
  length-open_inputs k inputs (a ∷ addresses) =
      let more = length-open_inputs (suc k) (behind_first inputs) addresses in
      elim (Bool-cases (signable infos (is_final_at inputs) a)) [
        | inl t ↦ rw t (ap suc more)
        | inr f ↦ rw f more
      ]

  open_inputs-from :
      (k : ℕ) (inputs : List InputAnalysis) (addresses : List (Option Text))
      → All (λ n. k ≤ n) (open_inputs k inputs addresses)
  open_inputs-from k inputs [] = tt
  open_inputs-from k inputs (a ∷ addresses) =
      let more =
        All-imp (λ n. suc k ≤ n) (λ n. k ≤ n) (open_inputs (suc k) (behind_first inputs) addresses)
          (λ n l. omega (arith, l)) (open_inputs-from (suc k) (behind_first inputs) addresses) in
      elim (Bool-cases (signable infos (is_final_at inputs) a)) [
        | inl t ↦ rw t (omega arith, more)
        | inr f ↦ rw f more
      ]

  pub open_inputs-Pairwise :
      (k : ℕ) (inputs : List InputAnalysis) (addresses : List (Option Text))
      → Pairwise (λ m n. m < n) (open_inputs k inputs addresses)
  open_inputs-Pairwise k inputs [] = tt
  open_inputs-Pairwise k inputs (a ∷ addresses) =
      let more = open_inputs-Pairwise (suc k) (behind_first inputs) addresses in
      elim (Bool-cases (signable infos (is_final_at inputs) a)) [
        | inl t ↦ rw t (open_inputs-from (suc k) (behind_first inputs) addresses, more)
        | inr f ↦ rw f more
      ]

  first_final :
      (inputs : List InputAnalysis)
      → (is_final_at inputs ≡ false)
        ↔ ((i : InputAnalysis) → get_elem? inputs 0 ≡ some i → i.is_final ≡ false)
  first_final [] = (λ e i h. absurd (cc), λ h. refl)
  first_final (x ∷ inputs) = (λ e i h. let same : x ≡ i = cc in rw (sym same) e, λ h. h x refl)

  later_at :
      (inputs : List InputAnalysis) (n : ℕ)
      → get_elem? inputs (suc n) ≡ get_elem? (behind_first inputs) n
  later_at [] n = refl
  later_at (x ∷ inputs) n = refl

  ours_cases :
      (o : Option AddressInfo)
      → (is_ours o ≡ true)
        ↔ ((info : AddressInfo) × (o ≡ some info) × (info.ismine ≡ true) × (info.solvable ≡ true))
  ours_cases none = (λ e. absurd (cc), λ (info, e, m, v). absurd (cc))
  ours_cases (some i) = (
    λ e. (i, refl, ground arith, ground arith),
    λ (info, e, m, v). (let same : i ≡ info = cc in rw same (ground (arith, m, v))),
  )

  signable-IsOpen :
      (inputs : List InputAnalysis) (a : Option Text) (addresses : List (Option Text))
      → (signable infos (is_final_at inputs) a ≡ true) ↔ IsOpen infos inputs (a ∷ addresses) 0
  signable-IsOpen inputs none addresses =
      (λ e. absurd (cc), λ (b, info, e, k, m, v, f). absurd (let bad : none ≡ some b = cc in cc))
  signable-IsOpen inputs (some a) addresses = (
    λ e.
        (let fresh : is_final_at inputs ≡ false = ground arith in
          let ours : is_ours (infos a) ≡ true = ground arith in
          let (info, k, m, v) = (ours_cases (infos a)).0 ours in
          (a, info, refl, k, m, v, (first_final inputs).0 fresh)),
    λ (b, info, e, k, m, v, f).
        (let same : a ≡ b = cc in
          let fresh : is_final_at inputs ≡ false = (first_final inputs).1 f in
          let ours : is_ours (infos a) ≡ true =
            (ours_cases (infos a)).1 (info, ap infos same ∙ k, m, v) in
          rw fresh (rw ours refl)),
  )

  IsOpen-later :
      (inputs : List InputAnalysis) (a : Option Text) (addresses : List (Option Text)) (n : ℕ)
      → IsOpen infos (behind_first inputs) addresses n ↔ IsOpen infos inputs (a ∷ addresses) (suc n)
  IsOpen-later inputs a addresses n = (
    λ (b, info, e, k, m, v, f). (b, info, e, k, m, v, λ i h. f i (sym (later_at inputs n) ∙ h)),
    λ (b, info, e, k, m, v, f). (b, info, e, k, m, v, λ i h. f i (later_at inputs n ∙ h)),
  )

  taken :
      (k n : ℕ) (inputs : List InputAnalysis) (a : Option Text) (addresses : List (Option Text))
      {rest : List ℕ}
      → signable infos (is_final_at inputs) a ≡ true
      → (In n rest → (m : ℕ) × (n ≡ k + m) × IsOpen infos inputs (a ∷ addresses) m)
      → In n (k ∷ rest)
      → (m : ℕ) × (n ≡ k + m) × IsOpen infos inputs (a ∷ addresses) m
  taken k n inputs a addresses t others (first e) =
      (0, omega (arith, e), (signable-IsOpen inputs a addresses).0 t)
  taken k n inputs a addresses t others (later h) = others h

  In-open_inputs :
      (k n : ℕ) (inputs : List InputAnalysis) (addresses : List (Option Text))
      → In n (open_inputs k inputs addresses)
      → (m : ℕ) × (n ≡ k + m) × IsOpen infos inputs addresses m
  In-open_inputs k n inputs [] h = elim h [ ]
  In-open_inputs k n inputs (a ∷ addresses) h =
      let shifted : In n (open_inputs (suc k) (behind_first inputs) addresses)
          → (m : ℕ) × (n ≡ k + m) × IsOpen infos inputs (a ∷ addresses) m =
        λ g.
          (let (m, e, o) = In-open_inputs (suc k) n (behind_first inputs) addresses g in
            (suc m, omega (arith, e), (IsOpen-later inputs a addresses m).0 o)) in
      elim (Bool-cases (signable infos (is_final_at inputs) a)) [
        | inl t ↦ taken k n inputs a addresses t shifted (rw t at h)
        | inr f ↦ shifted (rw f at h)
      ]

  open_inputs-In :
      (k m : ℕ) (inputs : List InputAnalysis) (addresses : List (Option Text))
      → IsOpen infos inputs addresses m
      → In (k + m) (open_inputs k inputs addresses)
  open_inputs-In k m inputs [] (a, info, e, k', m', v, f) = absurd (cc)
  open_inputs-In k zero inputs (a ∷ addresses) o =
      rw ((signable-IsOpen inputs a addresses).1 o) (first (omega arith))
  open_inputs-In k (suc m) inputs (a ∷ addresses) o =
      let more : In (k + suc m) (open_inputs (suc k) (behind_first inputs) addresses) =
        subst (λ n. In n (open_inputs (suc k) (behind_first inputs) addresses)) (omega arith)
          (open_inputs-In (suc k) m (behind_first inputs) addresses
            ((IsOpen-later inputs a addresses m).1 o)) in
      elim (Bool-cases (signable infos (is_final_at inputs) a)) [
        | inl t ↦ rw t (later more)
        | inr f ↦ rw f more
      ]

  pub open_inputs-IsOpen :
      (inputs : List InputAnalysis) (addresses : List (Option Text)) (n : ℕ)
      → In n (open_inputs 0 inputs addresses) ↔ IsOpen infos inputs addresses n
  open_inputs-IsOpen inputs addresses n = (
    λ h.
        (let (m, e, o) = In-open_inputs 0 n inputs addresses h in
          subst (IsOpen infos inputs addresses) (omega (arith, e)) o),
    λ o.
        subst (λ k. In k (open_inputs 0 inputs addresses)) (omega arith)
          (open_inputs-In 0 n inputs addresses o),
  )
