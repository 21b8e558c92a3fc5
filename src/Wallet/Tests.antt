-- ===== src/Wallet/Tests.antt =====
-- ui/js/wallet.js and ui/js/wallet-crypt.js: runs, and the theorems at concrete inputs.
use bitcoin_lisp.Prelude.{
  ℕ, List, [], ◌∷◌, ◌≡◌, ◌≢◌, refl, Outcome, ok, err, Option, some, codes, Text, map, true, false,
  is_digit, trim, ◌++◌, arith,
}
use bitcoin_lisp.Wallet.Amount.RoundTrip.{
  normalize_amount-fmt_sats_btc, IsAccepted, normalize_amount-IsAccepted,
}
use bitcoin_lisp.Wallet.Amount.{
  fmt_sats_btc, coins_text, pos, normalize_amount, too_many_decimals, of_trimmed, of_parts,
  split_dot, amount_of, big_int,
}
use bitcoin_lisp.Wallet.Address.{validate_address, is_bech32, address_of}
use bitcoin_lisp.Wallet.Recipients.{Row, Recipient, validate_recipients, check_rows, check_row}
use bitcoin_lisp.Wallet.Recipients.Payable.{Passes, validate_recipients-Passes}
use bitcoin_lisp.Wallet.Unlock.{WalletInfo, is_locked, encryption_state, with_unlocked}
use bitcoin_lisp.Wallet.Unlock.Relock.{runs_locked, lock_at_end, with_unlocked-restores}
use bitcoin_lisp.Wallet.Psbt.{InputAnalysis, AddressInfo, sign_enabled, count_signable}
use bitcoin_lisp.Wallet.Psbt.Signing.{CanSign, sign_enabled-CanSign}
use bitcoin_lisp.Wallet.Send.{
  Compose, Controls, Event, typed, review, estimate, confirm, answer, blank, handle_all,
}
use bitcoin_lisp.Wallet.Send.Safety.{IsSafe, handle_all-IsSafe}
use bitcoin_lisp.Prelude.{◌↔◌, ◌*◌, inl, none}

amount_run : normalize_amount (codes " 0.5 ") ≡ ok (record { value = codes "0.5"; sats = 50000000 })
unfolding normalize_amount of_trimmed trim of_parts split_dot is_digit amount_of big_int
amount_run = refl

amount_long : normalize_amount (codes "1.123456789") ≡ err too_many_decimals
unfolding normalize_amount of_trimmed trim of_parts split_dot is_digit amount_of
amount_long = refl

abbrev address : Text
address = codes "bc1qw508d6qejxtdg4y5r3zarvary0c5xw7kv8f3t4"

abbrev one_row : List Row
one_row = record { address = address; amount = codes "1" } ∷ []

abbrev paid : Recipient
paid = record { address = address; amount = codes "1"; sats = 100000000 }

abbrev one_cleaned : List (Option Recipient)
one_cleaned = some paid ∷ []

validate_recipients-Passes_example :
    (one_row ≢ []) × ((rs : List Recipient) × Passes [] one_row rs × (one_cleaned ≡ map some rs))
unfolding validate_recipients validate_address normalize_amount check_rows check_row address_of trim
    is_bech32 of_trimmed of_parts split_dot is_digit amount_of big_int
validate_recipients-Passes_example = validate_recipients-Passes one_row one_cleaned refl

abbrev shut : Option WalletInfo
shut = some (record { private_keys_enabled = true; unlocked_until = some 0 })

abbrev opened : Option WalletInfo
opened = some (record { private_keys_enabled = true; unlocked_until = some 1700000000 })

abbrev sent : Outcome Text ℕ
sent = ok 7

with_unlocked-restores_example :
    (runs_locked true (is_locked (encryption_state shut)) (with_unlocked shut true opened sent).0
      ≡ false)
    × (lock_at_end true (is_locked (encryption_state shut)) (with_unlocked shut true opened sent).0
        ≡ is_locked (encryption_state shut))
unfolding encryption_state
with_unlocked-restores_example = with_unlocked-restores shut opened true true sent (λ e. e) refl

abbrev one_input : List InputAnalysis
one_input = record { is_final = false } ∷ []

abbrev one_address : List (Option Text)
one_address = some address ∷ []

abbrev all_ours : Text → Option AddressInfo
all_ours a = some (record { ismine = true; solvable = true })

sign_enabled-CanSign_example :
    (sign_enabled false true false (count_signable one_input one_address all_ours) ≡ true)
    ↔ ((false ≡ false) × (true ≡ true) × (false ≡ false) × CanSign all_ours one_input one_address)
sign_enabled-CanSign_example = sign_enabled-CanSign all_ours one_input one_address false true false

abbrev times : ℕ → ℕ → ℕ
times rate vsize = rate * vsize

abbrev fresh_tab : Compose ℕ
fresh_tab = record {
  recipients = blank;
  conf_target = 6;
  rbf = true;
  sffo = false;
  preview = none;
  result = none;
  reviewing = false;
  row_refs = blank;
  cleaned = [];
  send_error = none;
  built = [];
}

abbrev form : Controls
form = record { target = some 6; rbf_checked = true; sffo_checked = false }

abbrev spending : List (Event ℕ)
spending =
    typed one_row
    ∷ review form
    ∷ estimate 6 (ok (record { feerate = some 3; blocks = none; errors = none }))
    ∷ confirm
    ∷ answer (ok (codes "00"))
    ∷ []

fresh_tab-IsSafe : IsSafe fresh_tab
fresh_tab-IsSafe = record { cleaned = inl refl; built = tt }

handle_all-IsSafe_example : IsSafe (handle_all times spending fresh_tab)
handle_all-IsSafe_example = handle_all-IsSafe times spending fresh_tab fresh_tab-IsSafe

normalize_amount-fmt_sats_btc_example :
    (fmt_sats_btc (pos 123450000) ≡ coins_text 123450000 ++ codes " BTC")
    × (normalize_amount (coins_text 123450000)
        ≡ ok (record { value = coins_text 123450000; sats = 123450000 }))
normalize_amount-fmt_sats_btc_example =
    normalize_amount-fmt_sats_btc 123450000 (omega arith) (omega arith)

normalize_amount-IsAccepted_example : IsAccepted (record { value = codes "0.5"; sats = 50000000 })
normalize_amount-IsAccepted_example =
    normalize_amount-IsAccepted (codes " 0.5 ") (record { value = codes "0.5"; sats = 50000000 })
      amount_run
