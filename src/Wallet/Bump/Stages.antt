-- ===== src/Wallet/Bump/Stages.antt =====
-- The stages that follow a confirmed button, counted.
use bitcoin_lisp.Prelude.{
  ℕ, zero, suc, ◌+◌, List, [], ◌∷◌, Option, none, some, pick, skipping, ◌≡◌, refl, arith,
}
use bitcoin_lisp.Wallet.Bump.{
  BumpStage, info_asked, unlocking_bump, bump_asked, unlocking_preview, preview_asked,
}

abbrev pub is_confirm : BumpStage → ℕ
is_confirm unlocking_bump = 1
is_confirm info_asked = 0
is_confirm bump_asked = 0
is_confirm (unlocking_preview watch) = 0
is_confirm (preview_asked watch) = 0

abbrev pub confirms : List BumpStage → ℕ
confirms [] = 0
confirms (w ∷ ws) = is_confirm w + confirms ws

abbrev pub IsSplit : ℕ → Option (BumpStage × List BumpStage) → Type 0
IsSplit total none = Unit
IsSplit total (some (w, rest)) = total ≡ is_confirm w + confirms rest

skipping-IsSplit :
    (x : BumpStage) (n : ℕ) (r : Option (BumpStage × List BumpStage))
    → IsSplit n r
    → IsSplit (is_confirm x + n) (skipping x r)
skipping-IsSplit x n none h = tt
skipping-IsSplit x n (some (w, rest)) h = omega (arith, h)

pub pick-IsSplit : (n : ℕ) (ws : List BumpStage) → IsSplit (confirms ws) (pick n ws)
pick-IsSplit zero [] = tt
pick-IsSplit (suc n) [] = tt
pick-IsSplit zero (w ∷ ws) = refl
pick-IsSplit (suc n) (w ∷ ws) = skipping-IsSplit w (confirms ws) (pick n ws) (pick-IsSplit n ws)
