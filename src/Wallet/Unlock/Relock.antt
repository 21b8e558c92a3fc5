-- ===== src/Wallet/Unlock/Relock.antt =====
-- When the wallet is locked again, and what runs while it is locked.
use bitcoin_lisp.Prelude.{
  List, [], ◌∷◌, Bool, true, false, not, ◌≡◌, refl, inl, inr, Bool-cases, Outcome, Option, arith,
  ◌&&◌, if◌then◌else◌,
}
use bitcoin_lisp.Wallet.Unlock.{
  WalletInfo, encryption_state, Call, prompt, operation, lock, is_locked, with_unlocked,
}

abbrev pub is_operation : Call → Bool
is_operation operation = true
is_operation other = false

abbrev pub is_lock : Call → Bool
is_lock lock = true
is_lock other = false

-- The state of the lock as the calls change it: `prompt` opens it when the user unlocks, and a `lock` succeeds.
abbrev pub lock_after : Bool → Bool → Call → Bool
lock_after opens closed prompt = closed && not opens
lock_after opens closed lock = true
lock_after opens closed other = closed

-- Whether the wallet is locked when all the calls are made.
abbrev pub lock_at_end : Bool → Bool → List Call → Bool
lock_at_end opens closed [] = closed
lock_at_end opens closed (c ∷ cs) = lock_at_end opens (lock_after opens closed c) cs

-- Whether the operation ever runs on a locked wallet.
abbrev pub runs_locked : Bool → Bool → List Call → Bool
runs_locked opens closed [] = false
runs_locked opens closed (c ∷ cs) =
    if is_operation c && closed then true else runs_locked opens (lock_after opens closed c) cs

-- For a wallet that is locked or not, a user who confirms or dismisses the prompt, and an operation that
-- ends well or throws: if `getwalletinfo` tells the truth about the lock before and after the
-- prompt, a dismissed prompt opens nothing, and walletlock succeeds, then the operation never runs on a locked wallet, and the
-- wallet is as locked at the end as it was at the start.
pub with_unlocked-restores :
    {E R : Type 0} (before after : Option WalletInfo) (prompted opens : Bool)
    (outcome : Outcome E R)
    → (prompted ≡ false → opens ≡ false)
    → is_locked (encryption_state after) ≡ (is_locked (encryption_state before) && not opens)
    → (runs_locked opens
          (is_locked (encryption_state before))
          (with_unlocked before prompted after outcome).0
        ≡ false)
      × (lock_at_end opens
            (is_locked (encryption_state before))
            (with_unlocked before prompted after outcome).0
          ≡ is_locked (encryption_state before))
unfolding with_unlocked
with_unlocked-restores before after prompted opens outcome dismissed truthful =
    elim (Bool-cases (is_locked (encryption_state before))) [
      | inr off ↦ rw off (refl, refl)
      | inl shut ↦ elim (Bool-cases prompted) [
        | inr f ↦ let stays : opens ≡ false = dismissed f in rw shut (rw f (rw stays (refl, refl)))
        | inl t ↦ elim (Bool-cases opens) [
          | inl o ↦
              let e : is_locked (encryption_state after) ≡ false = ground arith in
              rw shut (rw t (rw o (rw e (refl, refl))))
          | inr o ↦
              let e : is_locked (encryption_state after) ≡ true = ground arith in
              rw shut (rw t (rw o (rw e (refl, refl))))
        ]
      ]
    ]
