-- ===== src/Wallet/Send/Safety.antt =====
-- What the calls that the tab builds can pay.
use bitcoin_lisp.Prelude.{
  ℕ, zero, suc, ◌+◌, ◌<◌, ◌≢◌, arith, length, get_elem?, List, [], ◌∷◌, map, Bool, true, false,
  if◌then◌else◌, Option, none, some, Outcome, ok, err, All, ◌≡◌, ◌⊎◌, inl, inr, refl, ap, sym,
  subst, ◌∙◌, Text,
}
use bitcoin_lisp.Wallet.Recipients.{
  Row, Recipient, RowError, validate_recipients, SendCall, sendtoaddress, send, build_send_call,
  FeeMode, economical, conservative, fee_mode_for_rbf, indices,
}
use bitcoin_lisp.Wallet.Recipients.Payable.{Passes, validate_recipients-Passes}
use bitcoin_lisp.Wallet.Send.{
  Compose, sync, add_recipient, remove_recipient, checked, begin_review, finish_review,
  begin_confirm, finish_confirm, present, Event, typed, add, remove, review, estimate, edit,
  confirm, answer, handle, handle_all,
}

-- No recipient, or those of rows that passed every check.
abbrev pub Payable : List Recipient → Type 0
Payable rs = (rs ≡ []) ⊎ ((rows : List Row) × Passes [] rows rs)

abbrev pub IsMode : Bool → FeeMode → Type 0
IsMode true mode = mode ≡ economical
IsMode false mode = mode ≡ conservative

-- The outputs that the fee is taken from: none when it is not subtracted, otherwise each of them, by its index.
abbrev pub IsDeducted : Bool → ℕ → Option (List ℕ) → Type 0
IsDeducted false count deducted = deducted ≡ none
IsDeducted true count deducted =
    (is : List ℕ) × (deducted ≡ some is)
    × (length is ≡ count)
    × ((i : ℕ) → i < count → get_elem? is i ≡ some i)

-- The address and the amount of each recipient.
abbrev pub payments : List Recipient → List (Text × Text)
payments [] = []
payments (r ∷ rs) = (r.address, r.amount) ∷ payments rs

-- What a call asks the node to do: it sends each recipient its amount, in order, with these choices.
abbrev pub Sends : List Recipient → ℕ → Bool → Bool → SendCall → Type 0
Sends rs target rbf sffo (sendtoaddress address amount subtract replaceable t mode) =
    (payments rs ≡ (address, amount) ∷ [])
    × ((subtract ≡ sffo) × ((replaceable ≡ rbf) × ((t ≡ target) × IsMode rbf mode)))
Sends rs target rbf sffo (send outputs t mode replaceable deducted) =
    (outputs ≡ payments rs)
    × ((length rs ≢ 1)
        × ((replaceable ≡ rbf)
            × ((t ≡ target) × (IsMode rbf mode × IsDeducted sffo (length rs) deducted))))

-- A call that sends to such recipients.
abbrev pub Pays : SendCall → Type 0
Pays c =
    (rs : List Recipient) × Payable rs
    × ((target : ℕ) × ((rbf : Bool) × ((sffo : Bool) × Sends rs target rbf sffo c)))

fee_mode_for_rbf-IsMode : (rbf : Bool) → IsMode rbf (fee_mode_for_rbf rbf)
fee_mode_for_rbf-IsMode true = refl
fee_mode_for_rbf-IsMode false = refl

length-indices : (i : ℕ) (rs : List Recipient) → length (indices i rs) ≡ length rs
length-indices i [] = refl
length-indices i (r ∷ rs) = ap suc (length-indices (suc i) rs)

get_elem?-indices :
    (i k : ℕ) (rs : List Recipient) → k < length rs → get_elem? (indices i rs) k ≡ some (i + k)
get_elem?-indices i k [] l = absurd (omega arith)
get_elem?-indices i zero (r ∷ rs) l = ap some (omega arith)
get_elem?-indices i (suc k) (r ∷ rs) l =
    get_elem?-indices (suc i) k rs (omega arith) ∙ ap some (omega arith)

indices-IsDeducted :
    (sffo : Bool) (rs : List Recipient)
    → IsDeducted sffo (length rs) (if sffo then some (indices 0 rs) else none)
indices-IsDeducted false rs = refl
indices-IsDeducted true rs = (
  indices 0 rs,
  refl,
  length-indices 0 rs,
  λ k l. get_elem?-indices 0 k rs l ∙ ap some (omega arith),
)

map-payments : (rs : List Recipient) → map (λ r. (r.address, r.amount)) rs ≡ payments rs
map-payments [] = refl
map-payments (r ∷ rs) = ap ((r.address, r.amount) ∷◌) (map-payments rs)

build_send_call-Sends :
    (rs : List Recipient) (target : ℕ) (rbf sffo : Bool)
    → Sends rs target rbf sffo (build_send_call rs target rbf sffo)
unfolding build_send_call
build_send_call-Sends [] target rbf sffo =
    (refl, (omega arith, (refl, (refl, (fee_mode_for_rbf-IsMode rbf, indices-IsDeducted sffo [])))))
build_send_call-Sends (r ∷ []) target rbf sffo =
    (refl, (refl, (refl, (refl, fee_mode_for_rbf-IsMode rbf))))
build_send_call-Sends (r ∷ q ∷ rs) target rbf sffo = (
  map-payments (r ∷ q ∷ rs),
  (
    omega arith,
    (refl, (refl, (fee_mode_for_rbf-IsMode rbf, indices-IsDeducted sffo (r ∷ q ∷ rs)))),
  ),
)

pub record IsSafe {F : Type 0} (s : Compose F) : Type 0 where
  pub cleaned : Payable s.cleaned
  pub built : All Pays s.built

present-map : (rs : List Recipient) → present (map some rs) ≡ rs
unfolding present
present-map [] = refl
present-map (r ∷ rs) = ap (λ t. r ∷ t) (present-map rs)

module _ {F : Type 0} where
  checked-IsSafe :
      (rows : List Row) (v : Outcome (List RowError) (List (Option Recipient))) (s : Compose F)
      → validate_recipients rows ≡ v
      → IsSafe s
      → IsSafe (checked v s)
  unfolding checked
  checked-IsSafe rows (err errors) s e safe = record { cleaned = safe.cleaned; built = safe.built }
  checked-IsSafe rows (ok cleaned) s e safe =
      let found = (validate_recipients-Passes rows cleaned e).1 in
      let same : present cleaned ≡ found.0 = ap present found.2 ∙ present-map found.0 in
      record { cleaned = subst Payable (sym same) (inr (rows, found.1)); built = safe.built }

  confirm-IsSafe : (b : Bool) (s : Compose F) → IsSafe s → IsSafe (if b then begin_confirm s else s)
  unfolding begin_confirm
  confirm-IsSafe true s safe = record {
    cleaned = safe.cleaned;
    built = (
      (
        s.cleaned,
        safe.cleaned,
        (
          s.conf_target,
          (s.rbf, (s.sffo, build_send_call-Sends s.cleaned s.conf_target s.rbf s.sffo)),
        ),
      ),
      safe.built,
    );
  }
  confirm-IsSafe false s safe = safe

  module _ (fee_sats : F → ℕ → ℕ) where
    handle-IsSafe : (e : Event F) (s : Compose F) → IsSafe s → IsSafe (handle fee_sats e s)
    unfolding handle sync add_recipient remove_recipient begin_review finish_review finish_confirm
    handle-IsSafe (typed refs) s safe = record { cleaned = safe.cleaned; built = safe.built }
    handle-IsSafe (add c) s safe = record { cleaned = safe.cleaned; built = safe.built }
    handle-IsSafe (remove i c) s safe = record { cleaned = safe.cleaned; built = safe.built }
    handle-IsSafe (review c) s safe =
        let t = record (sync c s) { send_error = none; result = none } in
        checked-IsSafe t.recipients (validate_recipients t.recipients) t refl
          (record { cleaned = safe.cleaned; built = safe.built })
    handle-IsSafe (estimate target a) s safe = record { cleaned = safe.cleaned; built = safe.built }
    handle-IsSafe edit s safe = record { cleaned = safe.cleaned; built = safe.built }
    handle-IsSafe confirm s safe = confirm-IsSafe s.reviewing s safe
    handle-IsSafe (answer (ok txid)) s safe = record { cleaned = inl refl; built = safe.built }
    handle-IsSafe (answer (err m)) s safe = record { cleaned = safe.cleaned; built = safe.built }

    -- After any sequence of edits, reviews, confirmations and answers in any order, from a tab whose recipients
    -- and built calls are so: each call that was built sends nothing, or its amount to the address of each of the
    -- recipients of rows that passed every check (a good address and amount each, and no address twice), in their order:
    -- by sendtoaddress exactly when it is one recipient, with the fee mode that goes with replaceability, and with the fee
    -- taken from none of the outputs or from all of them.
    pub handle_all-IsSafe :
        (events : List (Event F)) (s : Compose F) → IsSafe s → IsSafe (handle_all fee_sats events s)
    unfolding handle_all
    handle_all-IsSafe [] s safe = safe
    handle_all-IsSafe (e ∷ events) s safe =
        handle_all-IsSafe events (handle fee_sats e s) (handle-IsSafe e s safe)
