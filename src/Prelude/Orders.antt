-- ===== src/Prelude/Orders.antt =====
-- The strict orders of numbers and of texts, as tests.

use mathlib.Core.Path.{◌≡◌, refl}
use mathlib.Core.Bool.{Bool, true, false}
use mathlib.Core.List.{[], ◌∷◌}
use native.Mathlib.Omega.{arith}
use bitcoin_lisp.Prelude.Tests.{ltb}
use bitcoin_lisp.Prelude.Texts.{Text, text_lt}

-- A strict order by a Boolean test, whose negation is transitive.
pub record IsStrict {K : Type 0} (lt : K → K → Bool) : Type 0 where
  pub asym : (a b : K) → lt a b ≡ true → lt b a ≡ false
  pub chain : (a b c : K) → lt b a ≡ false → lt c b ≡ false → lt c a ≡ false

pub ltb-IsStrict : IsStrict ltb
ltb-IsStrict = record { asym = λ a b h. ground arith; chain = λ a b c h k. ground arith }

pub text_lt-asym : (a b : Text) → text_lt a b ≡ true → text_lt b a ≡ false
text_lt-asym [] [] h = refl
text_lt-asym [] (y ∷ b) h = refl
text_lt-asym (x ∷ a) [] h = absurd (cc)
text_lt-asym (x ∷ a) (y ∷ b) h = ground (arith, text_lt-asym a b)

pub text_lt-chain : (a b c : Text) → text_lt b a ≡ false → text_lt c b ≡ false → text_lt c a ≡ false
text_lt-chain a [] [] h k = h
text_lt-chain a (y ∷ b) [] h k = absurd (cc)
text_lt-chain [] b (z ∷ c) h k = refl
text_lt-chain (x ∷ a) [] (z ∷ c) h k = absurd (cc)
text_lt-chain (x ∷ a) (y ∷ b) (z ∷ c) h k = ground (arith, text_lt-chain a b c)

-- Two texts of which neither is before the other are the same.
pub text_lt-same : (a b : Text) → text_lt a b ≡ false → text_lt b a ≡ false → a ≡ b
text_lt-same [] [] h k = refl
text_lt-same [] (y ∷ b) h k = absurd (cc)
text_lt-same (x ∷ a) [] h k = absurd (cc)
text_lt-same (x ∷ a) (y ∷ b) h k = ground (arith, text_lt-same a b)
