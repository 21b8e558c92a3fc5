-- ===== src/Prelude/Results.antt =====
-- A value or the reason for an error, with `do` blocks.
use mathlib.Core.Path.{◌≡◌, refl}

pub data Outcome {ℓ} (E : Type ℓ) (A : Type ℓ) : Type ℓ where
  err : E → Outcome E A
  ok : A → Outcome E A

infixl 5 ◌>>=◌
abbrev pub ◌>>=◌ {ℓ} : {A B E : Type ℓ} → Outcome E A → (A → Outcome E B) → Outcome E B
err reason >>= next = err reason
ok value >>= next = next value

pub >>=-eq-ok {ℓ} :
    {E A B : Type ℓ} (run : Outcome E A) (next : A → Outcome E B) {last : B}
    → (run >>= next) ≡ ok last
    → (value : A) × (run ≡ ok value) × (next value ≡ ok last)
>>=-eq-ok (err reason) next e = cc
>>=-eq-ok (ok value) next e = (value, refl, e)
