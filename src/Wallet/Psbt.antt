-- ===== src/Wallet/Psbt.antt =====
-- ui/js/wallet-psbt.js: the status of a PSBT, the conditions of its buttons, the inputs that this wallet can
-- sign, and the fee bump. A field that may be absent is an Option; a text that is shown is a constructor.
pub mod Signing
pub mod Open
pub mod Spent
use bitcoin_lisp.Prelude.{
  ℕ, zero, suc, ◌+◌, List, [], ◌∷◌, map, Bool, true, false, not, ◌&&◌, ◌||◌, ltb, ◌==◌,
  if◌then◌else◌, Option, none, some, and_then, Outcome, ok, err, length, get_elem?, keep, some_of,
  Text, codes, text_eq, starts_with, is_space,
}

-- PSBTAnalysis.next; `other` is any other text, and an absent field.
pub data Role : Type 0 where
  updater signer finalizer extractor other : Role

pub record InputAnalysis : Type 0 where
  pub is_final : Bool

pub record Analysis : Type 0 where
  pub inputs : List InputAnalysis
  pub next : Role

pub data Level : Type 0 where
  info warn err_level : Level

pub data Status : Type 0 where
  missing_information needs_signatures no_wallet cannot_sign wrong_keys ready unknown_status :
      Status

-- `if (complete === false && (next === 'finalizer' || next === 'extractor')) next = 'signer'`;
-- `none` is a completeness that was not probed.
unfoldable pub honest_role : Option Bool → Role → Role
honest_role (some false) finalizer = signer
honest_role (some false) extractor = signer
honest_role complete role = role

unfoldable pub status_of : Role → Bool → Bool → Bool → Status × Level
status_of updater has_wallet keys_disabled could_sign = (missing_information, warn)
status_of signer has_wallet keys_disabled could_sign =
    if not has_wallet
    then (no_wallet, warn)
    else if keys_disabled
    then (cannot_sign, warn)
    else if not could_sign
    then (wrong_keys, warn)
    else (needs_signatures, info)
status_of finalizer has_wallet keys_disabled could_sign = (ready, info)
status_of extractor has_wallet keys_disabled could_sign = (ready, info)
status_of other has_wallet keys_disabled could_sign = (unknown_status, err_level)

-- `couldSign` is a number; the status tests whether it is 0.
unfoldable pub psbt_status : Role → Bool → Bool → ℕ → Option Bool → Status × Level
psbt_status next has_wallet keys_disabled could_sign complete =
    status_of (honest_role complete next) has_wallet keys_disabled (ltb 0 could_sign)

unfoldable pub sign_enabled : Bool → Bool → Bool → ℕ → Bool
sign_enabled complete has_wallet keys_disabled could_sign =
    has_wallet && not complete && not keys_disabled && ltb 0 could_sign

unfoldable pub psbt_complete : Role → Bool
psbt_complete finalizer = true
psbt_complete extractor = true
psbt_complete role = false

unfoldable pub unsigned_input_count : Analysis → ℕ
unsigned_input_count a = length (keep (λ i. not i.is_final) a.inputs)

-- A previous output: whether it has a `scriptPubKey`, and the address in it; an empty address is absent.
pub record PrevOut : Type 0 where
  pub has_script : Bool
  pub address : Option Text

pub record Input : Type 0 where
  pub witness_utxo : Option PrevOut
  pub non_witness_utxo : Option (List PrevOut)

abbrev pub address_in : PrevOut → Option Text
address_in out = if out.has_script then out.address else none

abbrev pub spent_output : Option (List PrevOut) → Option ℕ → Option Text
spent_output none n = none
spent_output (some outs) none = none
spent_output (some outs) (some n) = and_then (get_elem? outs n) address_in

abbrev pub from_witness : Option PrevOut → Option (List PrevOut) → Option ℕ → Option Text
from_witness none previous n = spent_output previous n
from_witness (some out) previous n = if out.has_script then out.address else spent_output previous n

-- One input and the `vout` of the input of the transaction at its place, if that is an integer.
unfoldable pub input_address : Input → Option ℕ → Option Text
input_address input n = from_witness input.witness_utxo input.non_witness_utxo n

abbrev pub vout_at : List (Option ℕ) → Option ℕ × List (Option ℕ)
vout_at [] = (none, [])
vout_at (n ∷ ns) = (n, ns)

unfoldable pub psbt_input_addresses : List Input → List (Option ℕ) → List (Option Text)
psbt_input_addresses [] vin = []
psbt_input_addresses (i ∷ inputs) vin =
    input_address i (vout_at vin).0 ∷ psbt_input_addresses inputs (vout_at vin).1

-- getaddressinfo, as far as it is read.
pub record AddressInfo : Type 0 where
  pub ismine : Bool
  pub solvable : Bool

abbrev pub is_final_at : List InputAnalysis → Bool
is_final_at [] = false
is_final_at (i ∷ inputs) = i.is_final

abbrev pub behind_first : List InputAnalysis → List InputAnalysis
behind_first [] = []
behind_first (i ∷ inputs) = inputs

abbrev pub is_ours : Option AddressInfo → Bool
is_ours none = false
is_ours (some i) = i.ismine && i.solvable

abbrev pub signable : (Text → Option AddressInfo) → Bool → Option Text → Bool
signable infos is_final none = false
signable infos is_final (some a) = not is_final && is_ours (infos a)

-- `inputAddresses.filter(...)`, with the analysis of the input at the same index.
unfoldable pub count_signable :
    List InputAnalysis → List (Option Text) → (Text → Option AddressInfo) → ℕ
count_signable inputs [] infos = 0
count_signable inputs (a ∷ addresses) infos =
    let rest = count_signable (behind_first inputs) addresses infos in
    if signable infos (is_final_at inputs) a then suc rest else rest

pub record Detail : Type 0 where
  pub is_send : Bool
  pub abandoned : Bool

-- `confirmations ?? 0`, `bip125-replaceable === 'yes'` and `replaced_by_txid`.
pub record WalletTx : Type 0 where
  pub unconfirmed : Bool
  pub replaceable : Bool
  pub replaced : Bool
  pub details : List Detail

unfoldable pub bump_eligible : Option WalletTx → Bool
bump_eligible none = false
bump_eligible (some tx) =
    if not tx.unconfirmed
    then false
    else if not tx.replaceable
    then false
    else if tx.replaced
    then false
    else some_of (λ d. d.is_send) tx.details && not (some_of (λ d. d.abandoned) tx.details)

pub data PsbtError : Type 0 where
  paste_psbt not_base64_psbt : PsbtError

unfoldable pub psbt_text : Text → Outcome PsbtError Text
psbt_text [] = err paste_psbt
psbt_text (c ∷ s) =
    if not (starts_with (c ∷ s) (codes "cHNidP")) then err not_base64_psbt else ok (c ∷ s)

-- `(text || '').replace(/\s+/g, '')`
unfoldable pub normalize_psbt : Text → Outcome PsbtError Text
normalize_psbt text = psbt_text (keep (λ c. not (is_space c)) text)

pub data BumpMethod : Type 0 where
  psbtbumpfee bumpfee : BumpMethod

unfoldable pub bump_method : Bool → BumpMethod
bump_method keys_disabled = if keys_disabled then psbtbumpfee else bumpfee
