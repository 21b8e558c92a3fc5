-- ===== src/Wallet/Psbt/Spent.antt =====
-- The address of the output that an input spends.
use bitcoin_lisp.Prelude.{
  ℕ, zero, suc, List, [], ◌∷◌, Bool, true, false, if◌then◌else◌, Option, none, some, and_then,
  get_elem?, Text, ◌≡◌, ◌↔◌, ◌⊎◌, inl, inr, refl, ap, sym, subst,
}
use bitcoin_lisp.Wallet.Psbt.{
  PrevOut, Input, address_in, spent_output, from_witness, input_address, psbt_input_addresses,
}

abbrev pub HasAddress : PrevOut → Text → Type 0
HasAddress out a = (out.has_script ≡ true) × (out.address ≡ some a)

-- The address stands in the witness output, or, where that is not given or has no script, in the output of the previous
-- transaction that the transaction's own input names.
abbrev pub Spends : Option PrevOut → Option (List PrevOut) → Option ℕ → Text → Type 0
Spends witness previous vout a =
    ((out : PrevOut) × (witness ≡ some out) × HasAddress out a)
    ⊎ (((out : PrevOut) → witness ≡ some out → out.has_script ≡ false)
        × ((outs : List PrevOut) × (n : ℕ) × (out : PrevOut) × (previous ≡ some outs)
            × (vout ≡ some n)
            × (get_elem? outs n ≡ some out)
            × HasAddress out a))

address_in-HasAddress : (out : PrevOut) (a : Text) → (address_in out ≡ some a) ↔ HasAddress out a
address_in-HasAddress out a = go out.has_script
  where
    go :
        (b : Bool)
        → ((if b then out.address else none) ≡ some a) ↔ ((b ≡ true) × (out.address ≡ some a))
    go true = (λ e. (refl, e), λ h. h.1)
    go false = (λ e. absurd (cc), λ h. absurd (cc))

abbrev IsNamed : Option (List PrevOut) → Option ℕ → Text → Type 0
IsNamed previous vout a =
    (outs : List PrevOut) × (n : ℕ) × (out : PrevOut) × (previous ≡ some outs)
    × (vout ≡ some n)
    × (get_elem? outs n ≡ some out)
    × HasAddress out a

found-HasAddress :
    (o : Option PrevOut) (a : Text)
    → (and_then o address_in ≡ some a) ↔ ((out : PrevOut) × (o ≡ some out) × HasAddress out a)
found-HasAddress none a = (λ e. absurd (cc), λ (out, e, h). absurd (cc))
found-HasAddress (some out) a = (
  λ e. (out, refl, (address_in-HasAddress out a).0 e),
  λ (q, e, h).
      (let same : q ≡ out = cc in
        (address_in-HasAddress out a).1 (subst (λ o. HasAddress o a) same h)),
)

spent_output-IsNamed :
    (previous : Option (List PrevOut)) (vout : Option ℕ) (a : Text)
    → (spent_output previous vout ≡ some a) ↔ IsNamed previous vout a
spent_output-IsNamed none vout a = (λ e. absurd (cc), λ (outs, n, out, e, f, g, h). absurd (cc))
spent_output-IsNamed (some outs) none a =
    (λ e. absurd (cc), λ (outs', n, out, e, f, g, h). absurd (cc))
spent_output-IsNamed (some outs) (some n) a = (
  λ e.
      (let (out, g, h) = (found-HasAddress (get_elem? outs n) a).0 e in
        (outs, n, out, refl, refl, g, h)),
  λ (outs', m, out, e, f, g, h).
      (let list : outs' ≡ outs = cc in
        let number : m ≡ n = cc in
        (found-HasAddress (get_elem? outs n) a).1 (
          out,
          subst (λ k. get_elem? outs k ≡ some out) number
              (subst (λ os. get_elem? os m ≡ some out) list g),
          h,
        )),
)

from_witness-Spends :
    (witness : Option PrevOut) (previous : Option (List PrevOut)) (vout : Option ℕ) (a : Text)
    → (from_witness witness previous vout ≡ some a) ↔ Spends witness previous vout a
from_witness-Spends none previous vout a = (
  λ e. inr (λ out k. absurd (cc), (spent_output-IsNamed previous vout a).0 e),
  λ h. (elim h [
    | inl (out, k, g) ↦ absurd (cc)
    | inr (k, named) ↦ (spent_output-IsNamed previous vout a).1 named
  ]),
)
from_witness-Spends (some w) previous vout a = go w.has_script refl
  where
    is_w : (out : PrevOut) → some w ≡ some out → w ≡ out
    is_w out k = cc

    go :
        (b : Bool)
        → w.has_script ≡ b
        → ((if b then w.address else spent_output previous vout) ≡ some a)
          ↔ Spends (some w) previous vout a
    go true s = (
      λ e. inl (w, refl, (s, e)),
      λ h. (elim h [
        | inl (out, k, g) ↦ subst (λ o. o.address ≡ some a) (sym (is_w out k)) g.1
        | inr (k, named) ↦ absurd (let bad : w.has_script ≡ false = k w refl in cc)
      ]),
    )
    go false s = (
      λ e. inr (
        λ out k. subst (λ o. o.has_script ≡ false) (is_w out k) s,
        (spent_output-IsNamed previous vout a).0 e,
      ),
      λ h. (elim h [
        | inl (out, k, g) ↦
            let on : w.has_script ≡ true =
              subst (λ o. o.has_script ≡ true) (sym (is_w out k)) g.0 in
            absurd (cc)
        | inr (k, named) ↦ (spent_output-IsNamed previous vout a).1 named
      ]),
    )

-- The input with this number, and the `vout` that the transaction has for it.
abbrev pub SpendsAt : List Input → List (Option ℕ) → ℕ → Text → Type 0
SpendsAt inputs vouts n a =
    (input : Input) × (get_elem? inputs n ≡ some input)
    × Spends input.witness_utxo input.non_witness_utxo (and_then (get_elem? vouts n) (λ v. v)) a

first_input :
    (i : Input) (vout : Option ℕ) (a : Text)
    → (some (input_address i vout) ≡ some (some a)) ↔ (
        (input : Input) × (some i ≡ some input)
        × Spends input.witness_utxo input.non_witness_utxo vout a)
unfolding input_address
first_input i vout a = (
  λ e.
      (let same : input_address i vout ≡ some a = cc in
        (i, refl, (from_witness-Spends i.witness_utxo i.non_witness_utxo vout a).0 same)),
  λ (input, e, h).
      (let same : input ≡ i = cc in
        ap some (
          (from_witness-Spends i.witness_utxo i.non_witness_utxo vout a).1
            (subst (λ x. Spends x.witness_utxo x.non_witness_utxo vout a) same h))),
)

pub input_addresses-SpendsAt :
    (inputs : List Input) (vouts : List (Option ℕ)) (n : ℕ) (a : Text)
    → (get_elem? (psbt_input_addresses inputs vouts) n ≡ some (some a)) ↔ SpendsAt inputs vouts n a
unfolding psbt_input_addresses
input_addresses-SpendsAt [] vouts n a = (λ e. absurd (cc), λ (input, e, h). absurd (cc))
input_addresses-SpendsAt (i ∷ inputs) [] (suc n) a = input_addresses-SpendsAt inputs [] n a
input_addresses-SpendsAt (i ∷ inputs) (v ∷ vouts) (suc n) a =
    input_addresses-SpendsAt inputs vouts n a
input_addresses-SpendsAt (i ∷ inputs) [] zero a = first_input i none a
input_addresses-SpendsAt (i ∷ inputs) (v ∷ vouts) zero a = first_input i v a
