-- ===== src/Wallet/PsbtTab.antt =====
-- ui/js/wallet.js: the PSBT tab: `loadPsbt`, `addressInfoMap`, the buttons of `renderPsbt`, `signPsbt` and
-- `broadcastPsbt`. The answers of the node are functions of what it is asked; between the calls of one load nothing
-- else runs. The value of an output is its number of satoshis.
pub mod Asked
pub mod Load
mod Tests
use bitcoin_lisp.Prelude.{
  ℕ, List, [], ◌∷◌, ◌++◌, map, Bool, true, false, not, ◌&&◌, if◌then◌else◌, Option, none, some,
  or_else, Outcome, ok, err, Text, add_name, ◌>>=◌,
}
use bitcoin_lisp.Wallet.Psbt.{
  Analysis, Input, AddressInfo, PsbtError, normalize_psbt, psbt_input_addresses, count_signable,
  sign_enabled,
}

pub record Output : Type 0 where
  pub address : Option Text
  pub sats : ℕ

-- What decodepsbt tells: the inputs, the `vout` of each input of the transaction, and its outputs.
pub record Decoded : Type 0 where
  pub inputs : List Input
  pub vouts : List (Option ℕ)
  pub outputs : List Output

-- The last answer of `describe` says that finalizepsbt succeeded and found it complete. An error is its message.
pub record Node : Type 0 where
  pub fill_psbt : Text → Option Text
  pub describe : Text → Outcome Text (Outcome Text Decoded × Outcome Text Analysis × Bool)
  pub address_infos : List Text → Outcome Text (Text → Option AddressInfo)
  pub finalize : Text → Outcome Text (Bool × Option Text)
  pub send_raw : Text → Outcome Text Text

pub record Loaded : Type 0 where
  pub text : Text
  pub analysis : Analysis
  pub complete : Bool
  pub outputs : List (Output × Bool)
  pub could_sign : ℕ

pub data PsbtMessage : Type 0 where
  quiet not_finalized now_complete still_needed : PsbtMessage
  bad_text : PsbtError → PsbtMessage
  failed : Text → PsbtMessage

pub record PsbtTab : Type 0 where
  pub loaded : Option Loaded
  pub message : PsbtMessage
  pub result : Option Text

abbrev pub add_some : Option Text → List Text → List Text
add_some none names = names
add_some (some a) names = add_name names a

-- The distinct addresses, in the order in which they come.
unfoldable pub distinct_addresses : List Text → List (Option Text) → List Text
distinct_addresses names [] = names
distinct_addresses names (a ∷ addresses) = distinct_addresses (add_some a names) addresses

abbrev pub known_mine : Option AddressInfo → Bool
known_mine none = false
known_mine (some info) = info.ismine

abbrev pub is_mine : (Text → Option AddressInfo) → Option Text → Bool
is_mine infos none = false
is_mine infos (some a) = known_mine (infos a)

abbrev pub input_addresses : Decoded → List (Option Text)
input_addresses decoded = psbt_input_addresses decoded.inputs decoded.vouts

unfoldable pub loaded_of : Text → Decoded → Analysis → Bool → (Text → Option AddressInfo) → Loaded
loaded_of filled decoded analysis complete infos = record {
  text = filled;
  analysis = analysis;
  complete = complete;
  outputs = map (λ o. (o, is_mine infos o.address)) decoded.outputs;
  could_sign = count_signable analysis.inputs (input_addresses decoded) infos;
}

module _ (node : Node) where
  abbrev asked : Text → Decoded → Analysis → Bool → Outcome Text Loaded
  asked filled decoded analysis complete =
      node.address_infos
        (distinct_addresses [] (input_addresses decoded ++ map (λ o. o.address) decoded.outputs))
      >>= λ infos. ok (loaded_of filled decoded analysis complete infos)

  -- The calls of a load behind the fill_psbt, up to the first that fails.
  unfoldable pub described : Text → Outcome Text Loaded
  described filled = do
    (decoded, analysis, complete) ← node.describe filled
    d ← decoded
    a ← analysis
    asked filled d a complete

  abbrev pub show_loaded : Outcome Text Loaded → PsbtTab
  show_loaded (err m) = record { loaded = none; message = failed m; result = none }
  show_loaded (ok l) = record { loaded = some l; message = quiet; result = none }

  abbrev pub load_text : Outcome PsbtError Text → PsbtTab
  load_text (err e) = record { loaded = none; message = bad_text e; result = none }
  load_text (ok psbt) = show_loaded (described (or_else (node.fill_psbt psbt) psbt))

  unfoldable pub load_psbt : Text → PsbtTab
  load_psbt text = load_text (normalize_psbt text)

  abbrev signed_note : Bool → PsbtMessage
  signed_note true = now_complete
  signed_note false = still_needed

  -- `signPsbt`, with what the call under `withWalletUnlocked` ended with.
  unfoldable pub sign_psbt : Outcome Text (Text × Bool) → PsbtTab → PsbtTab
  sign_psbt (err m) t = record t { message = failed m }
  sign_psbt (ok (psbt, complete)) t = record (load_psbt psbt) { message = signed_note complete }

  abbrev pub broadcast_end : Outcome Text Text → PsbtTab → PsbtTab
  broadcast_end (err m) t = record t { message = failed m }
  broadcast_end (ok txid) t = record t { message = quiet; result = some txid }

  abbrev pub finalized : Outcome Text (Bool × Option Text) → PsbtTab → PsbtTab
  finalized (err m) t = record t { message = failed m }
  finalized (ok (true, some (c ∷ hex))) t = broadcast_end (node.send_raw (c ∷ hex)) t
  finalized (ok (true, some [])) t = record t { message = not_finalized }
  finalized (ok (true, none)) t = record t { message = not_finalized }
  finalized (ok (false, hex)) t = record t { message = not_finalized }

  unfoldable pub broadcast_psbt : Loaded → PsbtTab → PsbtTab
  broadcast_psbt l t = finalized (node.finalize l.text) t

pub data Button : Type 0 where
  sign broadcast copy : Button

abbrev if_any : Bool → Button → List Button
if_any true b = b ∷ []
if_any false b = []

-- The buttons under a loaded PSBT.
unfoldable pub buttons : Bool → Bool → Option Loaded → List Button
buttons has_wallet keys_disabled none = []
buttons has_wallet keys_disabled (some l) =
    if_any (sign_enabled l.complete has_wallet keys_disabled l.could_sign) sign
    ++ if_any l.complete broadcast
    ++ copy ∷ []
