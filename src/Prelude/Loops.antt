-- ===== src/Prelude/Loops.antt =====
-- Counted loops and loops over a list, each with its invariant rule.
use Prim.Native.Nat.{ℕ, zero, suc}
use mathlib.Core.List.{List, [], ◌∷◌}

-- for (let i = start; rounds left; i += 1) s = body(i, s)
abbrev pub for_up {ℓ} : {S : Type ℓ} → ℕ → ℕ → (ℕ → S → S) → S → S
for_up zero i body s = s
for_up (suc n) i body s = for_up n (suc i) body (body i s)

-- for (const x of xs) s = body(x, s)
abbrev pub for_each {ℓ κ} : {A : Type κ} {S : Type ℓ} → List A → (A → S → S) → S → S
for_each [] body s = s
for_each (x ∷ xs) body s = for_each xs body (body x s)

pub for_up_inv {ℓ κ} :
    {S : Type ℓ} (P : S → Type κ) (body : ℕ → S → S)
    → ((i : ℕ) (s : S) → P s → P (body i s))
    → (n i : ℕ) (s : S) → P s
    → P (for_up n i body s)
for_up_inv P body keep zero i s h = h
for_up_inv P body keep (suc n) i s h = for_up_inv P body keep n (suc i) (body i s) (keep i s h)

pub for_each_inv {ℓ κ μ} :
    {A : Type μ} {S : Type ℓ} (P : S → Type κ) (body : A → S → S)
    → ((a : A) (s : S) → P s → P (body a s))
    → (xs : List A) (s : S) → P s
    → P (for_each xs body s)
for_each_inv P body keep [] s h = h
for_each_inv P body keep (x ∷ xs) s h = for_each_inv P body keep xs (body x s) (keep x s h)
