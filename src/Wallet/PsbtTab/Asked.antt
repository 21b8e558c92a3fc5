-- ===== src/Wallet/PsbtTab/Asked.antt =====
-- Which addresses the node is asked about, and which inputs the wallet could sign.
use bitcoin_lisp.Prelude.{
  ℕ, zero, suc, List, [], ◌∷◌, ◌++◌, map, true, false, Option, none, some, get_elem?, In, first,
  later, In-append, In-append_left, In-append_right, In-map, map-In, Text, text_eq, text-In, subst,
  some_of, add_name, ◌≡◌, ◌↔◌, ◌⊎◌, inl, inr, ap, sym, Bool-cases, subst,
}
use bitcoin_lisp.Wallet.Psbt.{Analysis, InputAnalysis, AddressInfo}
use bitcoin_lisp.Wallet.Psbt.Spent.{SpendsAt, input_addresses-SpendsAt}
use bitcoin_lisp.Wallet.Psbt.Open.{IsOpen}
use bitcoin_lisp.Wallet.PsbtTab.{Decoded, Output, distinct_addresses, input_addresses}

-- The input with this number is not final, and spends an output whose address the wallet owns and can solve.
abbrev pub IsSignable : (Text → Option AddressInfo) → Decoded → Analysis → ℕ → Type 0
IsSignable infos decoded analysis n =
    (a : Text) × (info : AddressInfo) × SpendsAt decoded.inputs decoded.vouts n a
    × (infos a ≡ some info)
    × (info.ismine ≡ true)
    × (info.solvable ≡ true)
    × ((i : InputAnalysis) → get_elem? analysis.inputs n ≡ some i → i.is_final ≡ false)

pub IsOpen-IsSignable :
    (infos : Text → Option AddressInfo) (decoded : Decoded) (analysis : Analysis) (n : ℕ)
    → IsOpen infos analysis.inputs (input_addresses decoded) n ↔ IsSignable infos decoded analysis n
IsOpen-IsSignable infos decoded analysis n = (
  λ (a, info, e, k, m, v, f).
      (a, info, (input_addresses-SpendsAt decoded.inputs decoded.vouts n a).0 e, k, m, v, f),
  λ (a, info, e, k, m, v, f).
      (a, info, (input_addresses-SpendsAt decoded.inputs decoded.vouts n a).1 e, k, m, v, f),
)

get_elem?-In : {A : Type 0} (x : A) (xs : List A) (n : ℕ) → get_elem? xs n ≡ some x → In x xs
get_elem?-In x [] n e = absurd (cc)
get_elem?-In x (y ∷ xs) zero e = first (let same : x ≡ y = cc in same)
get_elem?-In x (y ∷ xs) (suc n) e = later (get_elem?-In x xs n e)

In-get_elem? : {A : Type 0} (x : A) (xs : List A) → In x xs → (n : ℕ) × (get_elem? xs n ≡ some x)
In-get_elem? x [] h = elim h [ ]
In-get_elem? x (y ∷ xs) (first e) = (0, ap some (sym e))
In-get_elem? x (y ∷ xs) (later h) = let (n, e) = In-get_elem? x xs h in (suc n, e)

add_name-In :
    (a word : Text) (names : List Text) → In a (add_name names word) ↔ (In a names ⊎ (a ≡ word))
add_name-In a word names = elim (Bool-cases (some_of (text_eq word) names)) [
  | inl t ↦ rw t (λ h. inl h, λ h. (elim h [ inl k ↦ k | inr e ↦ rw e (text-In word names t) ]))
  | inr f ↦ rw f (
    λ h. (elim (In-append a names (word ∷ []) h) [
      | inl k ↦ inl k
      | inr (first e) ↦ inr e
      | inr (later k) ↦ elim k [ ]
    ]),
    λ h. (elim h [
      | inl k ↦ In-append_left a names (word ∷ []) k
      | inr e ↦ In-append_right a names (word ∷ []) (first e)
    ]),
  )
]

distinct_addresses-In :
    (a : Text) (names : List Text) (addresses : List (Option Text))
    → In a (distinct_addresses names addresses) ↔ (In a names ⊎ In (some a) addresses)
unfolding distinct_addresses
distinct_addresses-In a names [] = (λ h. inl h, λ h. (elim h [ inl k ↦ k | inr k ↦ elim k [ ] ]))
distinct_addresses-In a names (none ∷ addresses) =
    let more = distinct_addresses-In a names addresses in
    (
      λ h. (elim (more.0 h) [ inl k ↦ inl k | inr k ↦ inr (later k) ]),
      λ h. (elim h [
        | inl k ↦ more.1 (inl k)
        | inr (first e) ↦ absurd (cc)
        | inr (later k) ↦ more.1 (inr k)
      ]),
    )
distinct_addresses-In a names (some word ∷ addresses) =
    let more = distinct_addresses-In a (add_name names word) addresses in
    let added = add_name-In a word names in
    (
      λ h. (elim (more.0 h) [
        | inl k ↦ (elim (added.0 k) [ inl q ↦ inl q | inr e ↦ inr (first (ap some e)) ])
        | inr k ↦ inr (later k)
      ]),
      λ h. (elim h [
        | inl k ↦ more.1 (inl (added.1 (inl k)))
        | inr (first e) ↦ more.1 (inl (added.1 (inr (cc))))
        | inr (later k) ↦ more.1 (inr k)
      ]),
    )

-- An address of the transaction: of an output that an input spends, or of an output of its own.
abbrev pub IsInvolved : Decoded → Text → Type 0
IsInvolved decoded a =
    ((n : ℕ) × SpendsAt decoded.inputs decoded.vouts n a)
    ⊎ ((o : Output) × In o decoded.outputs × (o.address ≡ some a))

pub asked-IsInvolved :
    (decoded : Decoded) (a : Text)
    → In a (distinct_addresses [] (input_addresses decoded ++ map (λ o. o.address) decoded.outputs))
      ↔ IsInvolved decoded a
asked-IsInvolved decoded a =
    let inputs = input_addresses decoded in
    let outputs = map (λ (o : Output). o.address) decoded.outputs in
    let spends = λ (n : ℕ). input_addresses-SpendsAt decoded.inputs decoded.vouts n a in
    let distinct = distinct_addresses-In a [] (inputs ++ outputs) in
    (
      λ h. (elim (distinct.0 h) [
        | inl k ↦ elim k [ ]
        | inr k ↦ (elim (In-append (some a) inputs outputs k) [
          | inl i ↦ let (n, e) = In-get_elem? (some a) inputs i in inl (n, (spends n).0 e)
          | inr o ↦
              let (x, q, e) = map-In (λ (y : Output). y.address) (some a) decoded.outputs o in
              inr (x, q, sym e)
        ])
      ]),
      λ h. (elim h [
        | inl (n, s) ↦ distinct.1 (
            inr (
              In-append_left (some a) inputs outputs
                (get_elem?-In (some a) inputs n ((spends n).1 s))))
        | inr (o, q, e) ↦ distinct.1 (
            inr (
              In-append_right (some a) inputs outputs (
                subst (λ x. In x outputs) e
                  (In-map (λ (y : Output). y.address) o decoded.outputs q))))
      ]),
    )
