-- ===== src/Wallet/Amount/RoundTrip.antt =====
-- An amount that is printed is read back, and a text that is accepted is read as the same amount again.
use mathlib.Core.List.{reverse-cons, reverse-reverse}
use bitcoin_lisp.Prelude.{
  ℕ, ◌+◌, ◌*◌, ◌/◌, ◌%◌, ◌<◌, ◌≤◌, [], ◌∷◌, ◌++◌, Bool, true, false, not, ltb, ◌==◌, ◌≡◌, refl, ap,
  sym, ◌∙◌, arith, every_of, length, reverse, take, Text, codes, is_digit, is_space, trim, ◌&&◌,
  if◌then◌else◌, Option, none, some, Outcome, ok, err, trim_start, take_append, &&-left, &&-right,
}
use bitcoin_lisp.Wallet.Amount.{
  AmountError, Amount, big_int, split_dot, amount_of, of_parts, of_trimmed, normalize_amount,
  value_text, max_money_sats, decimal, pad_eight, coins_text, fmt_sats_btc, pos, zeros,
  not_a_number,
}
use bitcoin_lisp.Wallet.Amount.Printed.{
  every_of-append, IsDecimal, decimal-IsDecimal, IsPlaces, pad_eight-IsPlaces,
}

-- No white space.
abbrev unspaced : ℕ → Bool
unspaced c = not (is_space c)

trim_start-unspaced : (c : ℕ) (s : Text) → unspaced c ≡ true → trim_start (c ∷ s) ≡ c ∷ s
unfolding trim_start
trim_start-unspaced c s h = ground arith

-- A text without white space is not changed by `trim`.
every_of-reverse : (p : ℕ → Bool) (s : Text) → every_of p s ≡ true → every_of p (reverse s) ≡ true
every_of-reverse p [] h = refl
every_of-reverse p (c ∷ s) h = rw (reverse-cons c s) (
    rw (every_of-append p (reverse s) (c ∷ []))
      (rw (every_of-reverse p s (ground arith)) (ground arith)))

trim_start-every : (s : Text) → every_of unspaced s ≡ true → trim_start s ≡ s
unfolding trim_start
trim_start-every [] h = refl
trim_start-every (c ∷ s) h = trim_start-unspaced c s (ground arith)

trim-every : (s : Text) → every_of unspaced s ≡ true → trim s ≡ s
unfolding trim
trim-every s h =
    let back = trim_start-every (reverse s) (every_of-reverse unspaced s h) in
    rw (trim_start-every s h) (rw back (reverse-reverse s))

digit-unspaced : (s : Text) → every_of is_digit s ≡ true → every_of unspaced s ≡ true
unfolding is_digit is_space
digit-unspaced [] h = refl
digit-unspaced (c ∷ s) h = ground (arith, digit-unspaced s)

split_dot-digits : (w : Text) → every_of is_digit w ≡ true → split_dot w ≡ (w, none)
unfolding split_dot is_digit
split_dot-digits [] h = refl
split_dot-digits (c ∷ w) h =
    let other : c == b'.' ≡ false = ground arith in
    let rest : split_dot w ≡ (w, none) = split_dot-digits w (ground arith) in
    rw other (rw rest refl)

split_dot-dot : (w f : Text) → every_of is_digit w ≡ true → split_dot (w ++ b'.' ∷ f) ≡ (w, some f)
unfolding split_dot is_digit
split_dot-dot [] f h = refl
split_dot-dot (c ∷ w) f h =
    let other : c == b'.' ≡ false = ground arith in
    let rest : split_dot (w ++ b'.' ∷ f) ≡ (w, some f) = split_dot-dot w f (ground arith) in
    rw other (rw rest refl)

dot_unspaced : (f : Text) → every_of unspaced f ≡ true → every_of unspaced (b'.' ∷ f) ≡ true
unfolding is_space
dot_unspaced f h = ground arith

-- A whole part of digits, a dot and a fraction of digits are read as these two parts.
normalize_amount-parts :
    (c : ℕ) (w f : Text)
    → every_of is_digit (c ∷ w) ≡ true
    → every_of is_digit f ≡ true
    → normalize_amount (c ∷ w ++ b'.' ∷ f) ≡ amount_of (c ∷ w) f
unfolding normalize_amount of_trimmed of_parts
normalize_amount-parts c w f hw hf =
    let spaces : every_of unspaced (c ∷ w ++ b'.' ∷ f) ≡ true =
      rw (every_of-append unspaced (c ∷ w) (b'.' ∷ f))
        (rw (digit-unspaced (c ∷ w) hw) (dot_unspaced f (digit-unspaced f hf))) in
    rw (trim-every (c ∷ w ++ b'.' ∷ f) spaces)
      (rw (split_dot-dot (c ∷ w) f hw) (rw hw (rw hf refl)))

normalize_amount-whole :
    (c : ℕ) (w : Text)
    → every_of is_digit (c ∷ w) ≡ true
    → normalize_amount (c ∷ w) ≡ amount_of (c ∷ w) []
unfolding normalize_amount of_trimmed of_parts
normalize_amount-whole c w hw =
    rw (trim-every (c ∷ w) (digit-unspaced (c ∷ w) hw))
      (rw (split_dot-digits (c ∷ w) hw) (rw hw refl))

read_parts :
    (t f : Text) (q r : ℕ)
    → IsDecimal q t
    → IsPlaces r f
    → 0 < q * 100000000 + r
    → q * 100000000 + r ≤ max_money_sats
    → normalize_amount (t ++ b'.' ∷ f)
      ≡ ok (record { value = t ++ b'.' ∷ f; sats = q * 100000000 + r })
unfolding amount_of
read_parts [] f q r d p low high = absurd (omega (arith, d.not_empty))
read_parts (c ∷ w) [] q r d p low high = absurd (omega (arith, p.eight))
read_parts (c ∷ w) (x ∷ f) q r d p low high =
    let eight : length (x ∷ f) ≡ 8 = p.eight in
    let places : take 8 (x ∷ f ++ zeros) ≡ x ∷ f = take_append (x ∷ f) zeros eight in
    let short : ltb 8 (length (x ∷ f)) ≡ false = ground arith in
    let some_sats : q * 100000000 + r == 0 ≡ false = ground arith in
    let capped : ltb max_money_sats (q * 100000000 + r) ≡ false = ground arith in
    rw (normalize_amount-parts c w (x ∷ f) d.digits p.digits)
      (rw places (rw d.value (rw p.value (rw short (rw some_sats (rw capped refl))))))

-- Any number of satoshis from 1 to 21,000,000 coins is printed with its eight decimal places and " BTC" behind,
-- and the printed number is read back as exactly that many satoshis, as the same text.
pub normalize_amount-fmt_sats_btc :
    (n : ℕ)
    → 0 < n
    → n ≤ max_money_sats
    → (fmt_sats_btc (pos n) ≡ coins_text n ++ codes " BTC")
      × (normalize_amount (coins_text n) ≡ ok (record { value = coins_text n; sats = n }))
unfolding fmt_sats_btc coins_text
normalize_amount-fmt_sats_btc n low high =
    let q = n / 100000000 in
    let r = n % 100000000 in
    let whole : q * 100000000 + r ≡ n = omega arith in
    (
      refl,
      (read_parts (decimal q) (pad_eight (decimal r)) q r (decimal-IsDecimal q)
            (pad_eight-IsPlaces r (omega arith)) (omega arith) (omega arith)
          ∙ ap (λ k. ok (record { value = decimal q ++ b'.' ∷ pad_eight (decimal r); sats = k }))
              whole),
    )

-- An accepted text gives at least one satoshi and at most 21,000,000 coins.
amount_of-bounds :
    (w f : Text) (a : Amount)
    → amount_of w f ≡ ok a
    → (0 < a.sats) × (a.sats ≤ max_money_sats) × (value_text w f ≡ a.value) × (length f ≤ 8)
unfolding amount_of
amount_of-bounds w f a e = ground arith

-- The text that is sent, from its parts.
value_again :
    (w f : Text) (a : Amount)
    → every_of is_digit w ≡ true
    → every_of is_digit f ≡ true
    → amount_of w f ≡ ok a
    → normalize_amount (value_text w f) ≡ ok a
unfolding is_digit amount_of big_int
value_again [] [] a hw hf e = absurd (cc)
value_again (c ∷ w) [] a hw hf e = normalize_amount-whole c w hw ∙ e
value_again [] (x ∷ f) a hw hf e = normalize_amount-parts b'0' [] (x ∷ f) refl hf ∙ e
value_again (c ∷ w) (x ∷ f) a hw hf e = normalize_amount-parts c w (x ∷ f) hw hf ∙ e

-- What an accepted text says.
pub record IsAccepted (a : Amount) : Type 0 where
  pub positive : 0 < a.sats
  pub capped : a.sats ≤ max_money_sats
  pub again : normalize_amount a.value ≡ ok a

amount_of-IsAccepted :
    (w f : Text) (a : Amount)
    → every_of is_digit w ≡ true
    → every_of is_digit f ≡ true
    → amount_of w f ≡ ok a
    → IsAccepted a
amount_of-IsAccepted w f a hw hf e =
    let (low, high, same, short) = amount_of-bounds w f a e in
    record {
      positive = low;
      capped = high;
      again = ap normalize_amount (sym same) ∙ value_again w f a hw hf e;
    }

guarded :
    (b : Bool) (r : Outcome AmountError Amount) (a : Amount)
    → (if b then r else err not_a_number) ≡ ok a
    → (b ≡ true) × (r ≡ ok a)
guarded true r a e = (refl, e)
guarded false r a e = absurd (cc)

of_parts-IsAccepted : (w : Text) (f : Option Text) (a : Amount) → of_parts w f ≡ ok a → IsAccepted a
unfolding of_parts
of_parts-IsAccepted w none a e =
    let (hw, r) = guarded (every_of is_digit w) (amount_of w []) a e in
    amount_of-IsAccepted w [] a hw refl r
of_parts-IsAccepted [] (some []) a e = absurd (cc)
of_parts-IsAccepted [] (some (x ∷ f)) a e =
    let (hf, r) = guarded (every_of is_digit (x ∷ f)) (amount_of [] (x ∷ f)) a e in
    amount_of-IsAccepted [] (x ∷ f) a refl hf r
of_parts-IsAccepted (c ∷ w) (some f) a e =
    let (h, r) =
      guarded (every_of is_digit (c ∷ w) && every_of is_digit f) (amount_of (c ∷ w) f) a e in
    amount_of-IsAccepted (c ∷ w) f a (&&-left (every_of is_digit (c ∷ w)) _ h)
      (&&-right (every_of is_digit (c ∷ w)) _ h) r

of_trimmed-IsAccepted : (s : Text) (a : Amount) → of_trimmed s ≡ ok a → IsAccepted a
unfolding of_trimmed
of_trimmed-IsAccepted [] a e = absurd (cc)
of_trimmed-IsAccepted (c ∷ cs) a e =
    of_parts-IsAccepted (split_dot (c ∷ cs)).0 (split_dot (c ∷ cs)).1 a e

-- A text that is accepted as an amount stands for at least one satoshi and at most 21,000,000 coins, and the
-- text that is sent to the node in its place is accepted as the same amount, unchanged.
pub normalize_amount-IsAccepted :
    (input : Text) (a : Amount) → normalize_amount input ≡ ok a → IsAccepted a
unfolding normalize_amount
normalize_amount-IsAccepted input a e = of_trimmed-IsAccepted (trim input) a e
