-- ===== src/Wallet/Psbt/Signing.antt =====
-- When the sign button others offered, and what a pasted PSBT becomes.
use bitcoin_lisp.Prelude.{
  ◌<◌, List, [], ◌∷◌, Bool, true, false, not, ◌&&◌, ◌≡◌, ◌↔◌, arith, Option, none, some, Text,
  Bool-cases, inl, inr,
}
use bitcoin_lisp.Wallet.Psbt.{
  InputAnalysis, AddressInfo, is_ours, signable, count_signable, sign_enabled,
}

-- An input that this wallet can still sign: not final, with an address that is ours and solvable.
pub data CanSign (infos : Text → Option AddressInfo)
    : List InputAnalysis → List (Option Text) → Type 0 where
  here :
      {inputs : List InputAnalysis} {addresses : List (Option Text)} {a : Text} {i : InputAnalysis}
      → i.is_final ≡ false
      → is_ours (infos a) ≡ true
      → CanSign infos (i ∷ inputs) (some a ∷ addresses)
  unlisted :
      {addresses : List (Option Text)} {a : Text}
      → is_ours (infos a) ≡ true
      → CanSign infos [] (some a ∷ addresses)
  later :
      {inputs : List InputAnalysis} {addresses : List (Option Text)} {o : Option Text}
      {i : InputAnalysis}
      → CanSign infos inputs addresses
      → CanSign infos (i ∷ inputs) (o ∷ addresses)
  beyond :
      {addresses : List (Option Text)} {o : Option Text}
      → CanSign infos [] addresses
      → CanSign infos [] (o ∷ addresses)

count_signable-pos :
    (infos : Text → Option AddressInfo) (inputs : List InputAnalysis)
    (addresses : List (Option Text))
    → CanSign infos inputs addresses
    → 0 < count_signable inputs addresses infos
unfolding count_signable
count_signable-pos infos inputs addresses (here fresh ours) = rw fresh (rw ours (omega arith))
count_signable-pos infos inputs addresses (unlisted ours) = rw ours (omega arith)
count_signable-pos infos inputs addresses
      (later {inputs = others} {addresses = rest} {o = o} {i = i} s) =
    let more = count_signable-pos infos others rest s in
    elim (Bool-cases (signable infos i.is_final o)) [
      | inl t ↦ rw t (omega arith)
      | inr f ↦ rw f more
    ]
count_signable-pos infos inputs addresses (beyond {addresses = rest} {o = o} s) =
    let more = count_signable-pos infos [] rest s in
    elim (Bool-cases (signable infos false o)) [ inl t ↦ rw t (omega arith) | inr f ↦ rw f more ]

count_signable-CanSign :
    (infos : Text → Option AddressInfo) (inputs : List InputAnalysis)
    (addresses : List (Option Text))
    → 0 < count_signable inputs addresses infos
    → CanSign infos inputs addresses
unfolding count_signable
count_signable-CanSign infos inputs [] h = absurd (omega arith)
count_signable-CanSign infos [] (none ∷ rest) h = beyond (count_signable-CanSign infos [] rest h)
count_signable-CanSign infos (i ∷ others) (none ∷ rest) h =
    later (count_signable-CanSign infos others rest h)
count_signable-CanSign infos [] (some a ∷ rest) h = elim (Bool-cases (is_ours (infos a))) [
  | inl t ↦ unlisted t
  | inr f ↦ beyond (count_signable-CanSign infos [] rest (rw f at h))
]
count_signable-CanSign infos (i ∷ others) (some a ∷ rest) h =
    elim (Bool-cases (not i.is_final && is_ours (infos a))) [
      | inl t ↦ here (ground arith) (ground arith)
      | inr f ↦ later (count_signable-CanSign infos others rest (rw f at h))
    ]

-- The sign button is offered exactly when the PSBT is not complete, a wallet is loaded, its private keys are
-- not disabled, and some input is not final and has an address that the wallet owns and can solve.
pub sign_enabled-CanSign :
    (infos : Text → Option AddressInfo) (inputs : List InputAnalysis)
    (addresses : List (Option Text)) (complete has_wallet keys_disabled : Bool)
    → (sign_enabled complete has_wallet keys_disabled (count_signable inputs addresses infos)
        ≡ true)
      ↔ ((complete ≡ false)
          × (has_wallet ≡ true)
          × (keys_disabled ≡ false)
          × CanSign infos inputs addresses)
unfolding sign_enabled
sign_enabled-CanSign infos inputs addresses complete has_wallet keys_disabled = (
  λ e. (
    ground arith,
    ground arith,
    ground arith,
    count_signable-CanSign infos inputs addresses (ground arith),
  ),
  λ h. let some_input = count_signable-pos infos inputs addresses h.3 in ground arith,
)
