-- ===== src/Wallet/PsbtTab/Tests.antt =====
-- A load of a PSBT with one input of the wallet, and a broadcast.
use bitcoin_lisp.Prelude.{
  [], ◌∷◌, true, false, Option, none, some, or_else, ok, Text, codes, ◌≡◌, refl, is_space,
}
use bitcoin_lisp.Wallet.Psbt.{
  Analysis, AddressInfo, Input, signer, normalize_psbt, psbt_text, psbt_input_addresses,
  input_address, count_signable,
}
use bitcoin_lisp.Wallet.PsbtTab.{
  Decoded, Node, Loaded, PsbtTab, quiet, loaded_of, described, load_psbt, broadcast_psbt,
}
use bitcoin_lisp.Wallet.PsbtTab.Load.{IsTold, load_psbt-IsTold, broadcast_psbt-IsSent}

abbrev paid_input : Input
paid_input = record {
  witness_utxo = some (record { has_script = true; address = some (codes "bc1q") });
  non_witness_utxo = none;
}

abbrev one_paid : Decoded
one_paid = record {
  inputs = paid_input ∷ [];
  vouts = some 0 ∷ [];
  outputs = record { address = some (codes "bc1q"); sats = 5 } ∷ [];
}

abbrev open_input : Analysis
open_input = record { inputs = record { is_final = false } ∷ []; next = signer }

abbrev ours : Text → Option AddressInfo
ours a = some (record { ismine = true; solvable = true })

abbrev node : Node
node = record {
  fill_psbt = λ t. none;
  describe = λ t. ok (ok one_paid, ok open_input, false);
  address_infos = λ addresses. ok ours;
  finalize = λ t. ok (true, some (codes "02"));
  send_raw = λ hex. ok (codes "f00d");
}

abbrev loaded : Loaded
unfolding loaded_of psbt_input_addresses input_address count_signable
loaded = loaded_of (codes "cHNidP8") one_paid open_input false ours

load_run : (load_psbt node (codes "cHNid P8")).loaded ≡ some loaded
unfolding load_psbt described normalize_psbt psbt_text is_space loaded loaded_of
load_run = refl

load_psbt-IsTold_example :
    (psbt : Text) × (normalize_psbt (codes "cHNid P8") ≡ ok psbt)
    × IsTold node (or_else (node.fill_psbt psbt) psbt) loaded
load_psbt-IsTold_example = load_psbt-IsTold node (codes "cHNid P8") loaded load_run

abbrev blank_tab : PsbtTab
blank_tab = record { loaded = some loaded; message = quiet; result = none }

broadcast_run : (broadcast_psbt node loaded blank_tab).result ≡ some (codes "f00d")
unfolding broadcast_psbt
broadcast_run = refl

broadcast_psbt-IsSent_example :
    (hex : Text) × (node.finalize loaded.text ≡ ok (true, some hex))
    × (node.send_raw hex ≡ ok (codes "f00d"))
broadcast_psbt-IsSent_example =
    broadcast_psbt-IsSent node loaded blank_tab (codes "f00d") refl broadcast_run
