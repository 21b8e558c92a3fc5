-- ===== src/Wallet/PsbtTab/Load.antt =====
-- What stands in the PSBT tab behind a load, and when a transaction is broadcast.
use bitcoin_lisp.Prelude.{
  ℕ, ◌<◌, ◌↔◌, List, In, Pairwise, length, ap, sym, ◌∙◌, subst, [], ◌∷◌, ◌++◌, map, Bool, true,
  false, Option, none, some, or_else, Outcome, ok, err, >>=-eq-ok, Text, ◌≡◌, refl,
}
use bitcoin_lisp.Wallet.PsbtTab.Asked.{IsSignable, IsOpen-IsSignable, IsInvolved, asked-IsInvolved}
use bitcoin_lisp.Wallet.Psbt.Open.{
  open_inputs, length-open_inputs, open_inputs-Pairwise, open_inputs-IsOpen,
}
use bitcoin_lisp.Wallet.Psbt.{Analysis, AddressInfo, PsbtError, normalize_psbt}
use bitcoin_lisp.Wallet.PsbtTab.{
  Decoded, Node, Loaded, PsbtTab, distinct_addresses, Output, is_mine, known_mine, loaded_of,
  input_addresses, described, show_loaded, load_text, load_psbt, finalized, broadcast_end,
  broadcast_psbt,
}

-- An output belongs to the wallet when it has an address that the node knows as the wallet's own.
abbrev pub IsOwned : (Text → Option AddressInfo) → Output → Type 0
IsOwned infos o =
    (a : Text) × (info : AddressInfo) × (o.address ≡ some a)
    × (infos a ≡ some info)
    × (info.ismine ≡ true)

-- The outputs that the panel shows are those of the transaction, and each is marked exactly when it is the wallet's.
abbrev pub ShowsOutputs : (Text → Option AddressInfo) → List Output → List (Output × Bool) → Type 0
ShowsOutputs infos [] [] = Unit
ShowsOutputs infos (o ∷ outputs) (s ∷ shown) =
    ((s.0 ≡ o) × ((s.1 ≡ true) ↔ IsOwned infos o)) × ShowsOutputs infos outputs shown
ShowsOutputs infos outputs shown = ⊥

-- The PSBT `l` is what the node tells of the text `filled`: it is complete when finalizepsbt says so, its outputs are
-- those of the transaction with the wallet's own marked, and its number of inputs that could be signed is that of the
-- inputs, all different, that the wallet could sign.
pub record IsTold (node : Node) (filled : Text) (l : Loaded) : Type 0 where
  pub told : Outcome Text Decoded × Outcome Text Analysis × Bool
  pub decoded : Decoded
  pub analysis : Analysis
  pub infos : Text → Option AddressInfo
  pub signable_inputs : List ℕ
  pub is_described : node.describe filled ≡ ok told
  pub is_decoded : told.0 ≡ ok decoded
  pub is_analyzed : told.1 ≡ ok analysis
  pub asked_addresses : List Text
  pub is_known : node.address_infos asked_addresses ≡ ok infos
  pub are_asked : (a : Text) → In a asked_addresses ↔ IsInvolved decoded a
  pub has_text : l.text ≡ filled
  pub has_analysis : l.analysis ≡ analysis
  pub has_completeness : l.complete ≡ told.2
  pub has_outputs : ShowsOutputs infos decoded.outputs l.outputs
  pub is_counted : l.could_sign ≡ length signable_inputs
  pub are_distinct : Pairwise (λ m n. m < n) signable_inputs
  pub are_signable : (n : ℕ) → In n signable_inputs ↔ IsSignable infos decoded analysis n

abbrev IsSame : Outcome Text Loaded → Outcome Text Loaded → Type 0
IsSame a b = a ≡ b

ok-injective : (a b : Loaded) → IsSame (ok a) (ok b) → a ≡ b
ok-injective a b e = cc

known_mine_cases :
    (o : Option AddressInfo)
    → (known_mine o ≡ true) ↔ ((info : AddressInfo) × (o ≡ some info) × (info.ismine ≡ true))
known_mine_cases none = (λ e. absurd (cc), λ (info, e, m). absurd (cc))
known_mine_cases (some i) =
    (λ e. (i, refl, e), λ (info, e, m). (let same : i ≡ info = cc in rw same m))

address_owned :
    (infos : Text → Option AddressInfo) (a : Option Text)
    → (is_mine infos a ≡ true) ↔ (
        (x : Text) × (info : AddressInfo) × (a ≡ some x)
        × (infos x ≡ some info)
        × (info.ismine ≡ true))
address_owned infos none = (λ e. absurd (cc), λ (x, info, e, k, m). absurd (cc))
address_owned infos (some a) = (
  λ e. (let (info, k, m) = (known_mine_cases (infos a)).0 e in (a, info, refl, k, m)),
  λ (x, info, e, k, m).
      (let same : a ≡ x = cc in (known_mine_cases (infos a)).1 (info, ap infos same ∙ k, m)),
)

outputs-Shows :
    (infos : Text → Option AddressInfo) (outputs : List Output)
    → ShowsOutputs infos outputs (map (λ o. (o, is_mine infos o.address)) outputs)
outputs-Shows infos [] = tt
outputs-Shows infos (o ∷ outputs) =
    ((refl, address_owned infos o.address), outputs-Shows infos outputs)

described-IsTold :
    (node : Node) (filled : Text) (l : Loaded) → described node filled ≡ ok l → IsTold node filled l
unfolding described loaded_of
described-IsTold node filled l e =
    let (told, is_described, e1) = >>=-eq-ok (node.describe filled) _ e in
    let (decoded, is_decoded, e2) = >>=-eq-ok told.0 _ e1 in
    let (analysis, is_analyzed, e3) = >>=-eq-ok told.1 _ e2 in
    let (infos, is_known, e4) = >>=-eq-ok (node.address_infos _) _ e3 in
    let same = ok-injective _ l e4 in
    let addresses = input_addresses decoded in
    record {
      told = told;
      decoded = decoded;
      analysis = analysis;
      infos = infos;
      signable_inputs = open_inputs infos 0 analysis.inputs addresses;
      is_described = is_described;
      is_decoded = is_decoded;
      is_analyzed = is_analyzed;
      asked_addresses =
          distinct_addresses [] (addresses ++ map (λ (o : Output). o.address) decoded.outputs);
      is_known = is_known;
      are_asked = asked-IsInvolved decoded;
      has_text = ap (λ k. k.text) (sym same);
      has_analysis = ap (λ k. k.analysis) (sym same);
      has_completeness = ap (λ k. k.complete) (sym same);
      has_outputs =
          subst (λ k. ShowsOutputs infos decoded.outputs k.outputs) same
            (outputs-Shows infos decoded.outputs);
      is_counted =
          ap (λ k. k.could_sign) (sym same)
          ∙ sym (length-open_inputs infos 0 analysis.inputs addresses);
      are_distinct = open_inputs-Pairwise infos 0 analysis.inputs addresses;
      are_signable = λ n.
          (let open_input = open_inputs-IsOpen infos analysis.inputs addresses n in
            let signable = IsOpen-IsSignable infos decoded analysis n in
            (λ h. signable.0 (open_input.0 h), λ h. open_input.1 (signable.1 h)));
    }

show_loaded-described :
    (node : Node) (r : Outcome Text Loaded) (l : Loaded)
    → (show_loaded node r).loaded ≡ some l
    → r ≡ ok l
show_loaded-described node (err m) l e = absurd (cc)
show_loaded-described node (ok k) l e = cc

load_text-ok :
    (node : Node) (r : Outcome PsbtError Text) (l : Loaded)
    → (load_text node r).loaded ≡ some l
    → (psbt : Text) × (r ≡ ok psbt) × IsTold node (or_else (node.fill_psbt psbt) psbt) l
load_text-ok node (err e) l h = absurd (cc)
load_text-ok node (ok psbt) l h = (
  psbt,
  refl,
  described-IsTold node (or_else (node.fill_psbt psbt) psbt) l
      (show_loaded-described node (described node (or_else (node.fill_psbt psbt) psbt)) l h),
)

-- A PSBT that stands in the panel behind a load comes from a text that was accepted: the node filled it, or failed to
-- and it was left as it was, decoded and analyzed the result, and was asked for exactly the addresses of the outputs it
-- spends and makes. The panel holds that text and its analysis, is complete exactly when finalizepsbt says so, shows the
-- outputs of the transaction in order, each marked exactly when its address is the wallet's own, and the number it could
-- sign is that of the inputs that are not final and spend an output whose address the wallet owns and can solve, each
-- counted once.
pub load_psbt-IsTold :
    (node : Node) (text : Text) (l : Loaded)
    → (load_psbt node text).loaded ≡ some l
    → (psbt : Text) × (normalize_psbt text ≡ ok psbt)
      × IsTold node (or_else (node.fill_psbt psbt) psbt) l
unfolding load_psbt
load_psbt-IsTold node text l h = load_text-ok node (normalize_psbt text) l h

broadcast_end-ok :
    (node : Node) (r : Outcome Text Text) (t : PsbtTab) (txid : Text)
    → t.result ≡ none
    → (broadcast_end node r t).result ≡ some txid
    → r ≡ ok txid
broadcast_end-ok node (err m) t txid h e = absurd (cc)
broadcast_end-ok node (ok id) t txid h e = cc

finalized-ok :
    (node : Node) (r : Outcome Text (Bool × Option Text)) (t : PsbtTab) (txid : Text)
    → t.result ≡ none
    → (finalized node r t).result ≡ some txid
    → (hex : Text) × (r ≡ ok (true, some hex)) × (node.send_raw hex ≡ ok txid)
finalized-ok node (err m) t txid h e = absurd (cc)
finalized-ok node (ok (true, some (c ∷ hex))) t txid h e =
    (c ∷ hex, refl, broadcast_end-ok node (node.send_raw (c ∷ hex)) t txid h e)
finalized-ok node (ok (true, some [])) t txid h e = absurd (cc)
finalized-ok node (ok (true, none)) t txid h e = absurd (cc)
finalized-ok node (ok (false, hex)) t txid h e = absurd (cc)

-- When the panel shows no transaction and a broadcast makes it show one, the node found the loaded PSBT complete when it
-- finalized it, and took the transaction that came from it under the id that is shown.
pub broadcast_psbt-IsSent :
    (node : Node) (l : Loaded) (t : PsbtTab) (txid : Text)
    → t.result ≡ none
    → (broadcast_psbt node l t).result ≡ some txid
    → (hex : Text) × (node.finalize l.text ≡ ok (true, some hex)) × (node.send_raw hex ≡ ok txid)
unfolding broadcast_psbt
broadcast_psbt-IsSent node l t txid h e = finalized-ok node (node.finalize l.text) t txid h e
