-- ===== src/Wallet/Unlock.antt =====
-- ui/js/wallet-crypt.js: `encryptionState`, `isEncrypted`, the form checks, and `withUnlocked`. What the
-- node and the user do is passed in: the two answers of `deps.state()`, that of `deps.prompt()`, and
-- the outcome of the operation. The result holds the calls that were made, in order.
pub mod Relock
use bitcoin_lisp.Prelude.{
  ℕ, zero, suc, ◌-◌, ◌/◌, List, [], ◌∷◌, ◌++◌, Bool, true, false, not, ◌&&◌, ◌||◌, leb, ltb, ◌==◌,
  if◌then◌else◌, Option, none, some, Outcome, ok, err, every_of, Text, codes, text_eq, is_digit,
}

-- The two fields of getwalletinfo that are read; `unlocked_until` may be absent.
pub record WalletInfo : Type 0 where
  pub private_keys_enabled : Bool
  pub unlocked_until : Option ℕ

pub data EncryptionState : Type 0 where
  unknown no_keys unencrypted locked unlocked : EncryptionState

abbrev until_state : Option ℕ → EncryptionState
until_state none = unencrypted
until_state (some zero) = locked
until_state (some (suc n)) = unlocked

unfoldable pub encryption_state : Option WalletInfo → EncryptionState
encryption_state none = unknown
encryption_state (some info) =
    if not info.private_keys_enabled then no_keys else until_state info.unlocked_until

unfoldable pub is_encrypted : EncryptionState → Bool
is_encrypted locked = true
is_encrypted unlocked = true
is_encrypted other = false

-- `unlockSecondsLeft`
unfoldable pub unlock_seconds_left : Option ℕ → ℕ → ℕ
unlock_seconds_left none now_ms = 0
unlock_seconds_left (some until) now_ms = until - now_ms / 1000

pub data FormError : Type 0 where
  enter_passphrase no_match empty_name invalid_name no_private_keys : FormError

unfoldable pub validate_passphrase_pair : Text → Text → Option FormError
validate_passphrase_pair [] b = some enter_passphrase
validate_passphrase_pair (c ∷ a) b = if text_eq (c ∷ a) b then none else some no_match

abbrev name_char : ℕ → Bool
name_char c =
    leb b'A' c && leb c b'Z'
    || leb b'a' c && leb c b'z'
    || is_digit c
    || c == b'.'
    || c == b'_'
    || c == b'-'

unfoldable pub validate_create : Text → Bool → Text → Text → Option FormError
validate_create [] disable passphrase confirm = some empty_name
validate_create (c ∷ cs) disable passphrase confirm =
    if not (every_of name_char (c ∷ cs))
      || text_eq (c ∷ cs) (codes ".")
      || text_eq (c ∷ cs) (codes "..")
    then some invalid_name
    else pair passphrase
  where
    pair : Text → Option FormError
    pair [] = none
    pair (p ∷ ps) =
        if disable then some no_private_keys else validate_passphrase_pair (p ∷ ps) confirm

pub data Call : Type 0 where
  read_state prompt operation lock : Call

-- What an operation under `withUnlocked` ends with: its own outcome, or the cancellation.
pub data Ending (E R : Type 0) : Type 0 where
  ended : Outcome E R → Ending E R
  unlock_cancelled : Ending E R

abbrev pub is_locked : EncryptionState → Bool
is_locked locked = true
is_locked other = false

-- `withUnlocked`; `finally` runs `deps.lock()` whatever `fn` ends with.
unfoldable pub with_unlocked :
    {E R : Type 0}
    → Option WalletInfo
    → Bool
    → Option WalletInfo
    → Outcome E R
    → List Call × Ending E R
with_unlocked before prompted after outcome =
    if not (is_locked (encryption_state before))
    then (read_state ∷ operation ∷ [], ended outcome)
    else if not prompted
    then (read_state ∷ prompt ∷ [], unlock_cancelled)
    else if is_locked (encryption_state after)
    then (read_state ∷ prompt ∷ read_state ∷ [], unlock_cancelled)
    else (read_state ∷ prompt ∷ read_state ∷ operation ∷ lock ∷ [], ended outcome)

-- The parameters of createwallet, in order.
pub record CreateParams : Type 0 where
  pub name : Text
  pub disable_private_keys : Bool
  pub blank : Bool
  pub passphrase : Option Text
  pub avoid_reuse : Bool

abbrev filled : Text → Option Text
filled [] = none
filled (c ∷ cs) = some (c ∷ cs)

-- `createParams`: an empty passphrase is not sent.
unfoldable pub create_params : Text → Bool → Bool → Text → Bool → CreateParams
create_params name disable blank passphrase avoid_reuse = record {
  name = name;
  disable_private_keys = disable;
  blank = blank;
  passphrase = filled passphrase;
  avoid_reuse = avoid_reuse;
}
