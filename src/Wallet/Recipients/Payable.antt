-- ===== src/Wallet/Recipients/Payable.antt =====
-- What the rows of the form are when they pass, described row by row.
use bitcoin_lisp.Prelude.{
  ℕ, suc, List, [], ◌∷◌, ◌++◌, map, false, ◌≡◌, ◌≢◌, refl, sym, ◌∙◌, Outcome, ok, err, some_of,
  Text, text_eq, Option, some, arith, inl, inr, Bool-cases, append-nil, append_assoc,
}
use bitcoin_lisp.Wallet.Address.{AddressError, validate_address}
use bitcoin_lisp.Wallet.Amount.{AmountError, Amount, normalize_amount}
use bitcoin_lisp.Wallet.Recipients.{
  Row, Recipient, RowError, duplicate_address, bad_amount, bad_address, report, Check, see,
  check_row, check_rows, no_check, verdict, validate_recipients,
}

-- Rows whose addresses are good, not among `seen` and all different, and whose amounts are good, with the
-- recipients they stand for.
pub data Passes : List Text → List Row → List Recipient → Type 0 where
  done : {seen : List Text} → Passes seen [] []
  next :
      {seen : List Text} {r : Row} {rows : List Row} {rs : List Recipient} {a : Text} {m : Amount}
      → validate_address r.address ≡ ok a
      → normalize_amount r.amount ≡ ok m
      → some_of (text_eq a) seen ≡ false
      → Passes (a ∷ seen) rows rs
      → Passes seen (r ∷ rows) (record { address = a; amount = m.value; sats = m.sats } ∷ rs)

append-not_nil : {A : Type 0} (xs : List A) (x : A) → xs ++ x ∷ [] ≢ []
append-not_nil [] x = ground arith
append-not_nil (y ∷ xs) x = ground arith

see-errors :
    (i : ℕ) (a : Text) (k : Check)
    → (see i a k).errors ≡ []
    → (k.errors ≡ []) × (some_of (text_eq a) k.seen ≡ false)
see-errors i a k none_there = elim (Bool-cases (some_of (text_eq a) k.seen)) [
  | inl t ↦ absurd (append-not_nil k.errors (duplicate_address i) (rw t at none_there))
  | inr f ↦ (rw f at none_there, f)
]

-- A row that reports nothing.
data RowPass (k : Check) : Outcome AddressError Text → Outcome AmountError Amount → Type 0 where
  row_pass :
      {a : Text} {m : Amount}
      → k.errors ≡ []
      → some_of (text_eq a) k.seen ≡ false
      → RowPass k (ok a) (ok m)

check_row-RowPass :
    (i : ℕ) (a : Outcome AddressError Text) (m : Outcome AmountError Amount) (k : Check)
    → (check_row i a m k).errors ≡ []
    → RowPass k a m
unfolding check_row
check_row-RowPass i (ok a) (ok m) k e = let both = see-errors i a k e in row_pass both.0 both.1
check_row-RowPass i (ok a) (err f) k e =
    absurd
      (append-not_nil k.errors (bad_amount i f) ((see-errors i a (report (bad_amount i f) k) e).0))
check_row-RowPass i (err f) (ok m) k e = absurd (append-not_nil k.errors (bad_address i f) e)
check_row-RowPass i (err f) (err g) k e =
    absurd (append-not_nil (k.errors ++ bad_address i f ∷ []) (bad_amount i g) e)

RowPass-errors :
    {k : Check} {a : Outcome AddressError Text} {m : Outcome AmountError Amount}
    → RowPass k a m
    → k.errors ≡ []
RowPass-errors (row_pass e new) = e

check_rows-errors :
    (i : ℕ) (rows : List Row) (k : Check) → (check_rows i rows k).errors ≡ [] → k.errors ≡ []
unfolding check_rows
check_rows-errors i [] k e = e
check_rows-errors i (r ∷ rows) k e =
    let a = validate_address r.address in
    let m = normalize_amount r.amount in
    RowPass-errors
      (check_row-RowPass i a m k (check_rows-errors (suc i) rows (check_row i a m k) e))

-- The recipients that the rows stand for, behind those there were.
abbrev Cleaned : List Text → List Row → List (Option Recipient) → List (Option Recipient) → Type 0
Cleaned seen rows before after =
    (rs : List Recipient) × Passes seen rows rs × (after ≡ before ++ map some rs)

clean_row :
    (i : ℕ) (r : Row) (rows : List Row) (k : Check) (after : List (Option Recipient))
    (a : Outcome AddressError Text) (m : Outcome AmountError Amount)
    → validate_address r.address ≡ a
    → normalize_amount r.amount ≡ m
    → RowPass k a m
    → Cleaned (check_row i a m k).seen rows (check_row i a m k).cleaned after
    → Cleaned k.seen (r ∷ rows) k.cleaned after
unfolding check_row
clean_row i r rows k after (ok a) (ok m) va vm (row_pass e new) rest =
    let on : Cleaned (a ∷ k.seen) rows
        (k.cleaned ++ some (record { address = a; amount = m.value; sats = m.sats }) ∷ []) after =
      rw new at rest in
    (
      record { address = a; amount = m.value; sats = m.sats } ∷ on.0,
      next va vm new on.1,
      rw append_assoc at on.2,
    )
clean_row i r rows k after (ok a) (err f) va vm pass rest = elim pass [ ]
clean_row i r rows k after (err f) m va vm pass rest = elim pass [ ]

check_rows-Cleaned :
    (i : ℕ) (rows : List Row) (k : Check)
    → (check_rows i rows k).errors ≡ []
    → Cleaned k.seen rows k.cleaned (check_rows i rows k).cleaned
unfolding check_rows
check_rows-Cleaned i [] k e = ([], done, rw append-nil refl)
check_rows-Cleaned i (r ∷ rows) k e =
    let a = validate_address r.address in
    let m = normalize_amount r.amount in
    let on = check_row i a m k in
    clean_row i r rows k (check_rows (suc i) rows on).cleaned a m refl refl
      (check_row-RowPass i a m k (check_rows-errors (suc i) rows on e))
      (check_rows-Cleaned (suc i) rows on e)

verdict-ok :
    (errors : List RowError) (cleaned out : List (Option Recipient))
    → verdict errors cleaned ≡ ok out
    → (errors ≡ []) × (cleaned ≡ out)
verdict-ok [] cleaned out e = (refl, cc)
verdict-ok (x ∷ errors) cleaned out e = absurd (cc)

-- When the rows of the form are accepted, there is at least one row, every address and every amount is
-- good, no address stands twice, and what is returned is, row by row and in order, the recipient with
-- that address, amount and number of satoshis (never `null`).
pub validate_recipients-Passes :
    (rows : List Row) (cleaned : List (Option Recipient))
    → validate_recipients rows ≡ ok cleaned
    → (rows ≢ []) × ((rs : List Recipient) × Passes [] rows rs × (cleaned ≡ map some rs))
unfolding validate_recipients
validate_recipients-Passes [] cleaned e = absurd (cc)
validate_recipients-Passes (r ∷ rows) cleaned e =
    let k = check_rows 0 (r ∷ rows) no_check in
    let both = verdict-ok k.errors k.cleaned cleaned e in
    let found = check_rows-Cleaned 0 (r ∷ rows) no_check both.0 in
    ((λ nil. absurd (cc)), (found.0, found.1, sym both.1 ∙ found.2))
