-- ===== src/Qr/Field/Powers.antt =====
-- The tables of ui/js/qr.js: GF_EXP holds the iterated doublings of 1, and GF_LOG is its inverse.
use bitcoin_lisp.Prelude.{
  ℕ, zero, suc, ◌+◌, ◌≤◌, ◌<◌, Bool, true, false, ◌&&◌, ◌||◌, ◌==◌, ltb, ltb→lt, if◌then◌else◌, ◌≡◌,
  refl, ap, sym, ◌∙◌, arith, inl, inr, ◌⊎◌,
}
use bitcoin_lisp.Qr.Field.{read, double, gf_tables, gf_exp, gf_log, scale}

unfoldable pub below : ℕ → (ℕ → Bool) → Bool
below zero p = true
below (suc n) p = p n && below n p

both : (a b : Bool) → a && b ≡ true → (a ≡ true) × (b ≡ true)
both true b h = (refl, h)
both false b h = absurd (cc)

last_or : (i n : ℕ) → i < suc n → (i ≡ n) ⊎ (i < n)
last_or i n h = ground arith

below-each : (n : ℕ) (p : ℕ → Bool) (i : ℕ) → below n p ≡ true → i < n → p i ≡ true
unfolding below
below-each zero p i h l = absurd (omega arith)
below-each (suc n) p i h l = elim (last_or i n l) [
  | inl e ↦ rw e (both (p n) (below n p) h).0
  | inr k ↦ below-each n p i (both (p n) (below n p) h).1 k
]

-- Multiplication by the e-th power of the element 2.
unfoldable pub power : ℕ → ℕ → ℕ
power zero a = a
power (suc e) a = double (power e a)

unfoldable exp_step : ℕ → Bool
exp_step i = read gf_exp (suc i) == double (read gf_exp i)

unfoldable log_step : ℕ → Bool
log_step a = a == 0 || ((read gf_exp (read gf_log a) == a) && ltb (read gf_log a) 255)

exp_steps : below 510 exp_step ≡ true
unfolding below exp_step gf_exp gf_tables double
exp_steps = refl

log_steps : below 256 log_step ≡ true
unfolding below log_step gf_log gf_exp gf_tables double
log_steps = refl

equal : (a b : ℕ) → (a == b) ≡ true → a ≡ b
equal a b h = ground arith

exp-suc : (i : ℕ) → i < 510 → read gf_exp (suc i) ≡ double (read gf_exp i)
unfolding exp_step
exp-suc i h = equal _ _ (below-each 510 exp_step i exp_steps h)

log-exp : (a : ℕ) → 0 < a → a < 256 → (read gf_exp (read gf_log a) ≡ a) × (read gf_log a < 255)
unfolding log_step
log-exp a p h = go (below-each 256 log_step a log_steps h)
  where
    go :
        (a == 0) || ((read gf_exp (read gf_log a) == a) && ltb (read gf_log a) 255) ≡ true
        → (read gf_exp (read gf_log a) ≡ a) × (read gf_log a < 255)
    go t = ground arith

zero_plus : (n : ℕ) → 0 + n ≡ n
zero_plus n = omega arith

plus_zero : (k : ℕ) → k + 0 ≡ k
plus_zero k = omega arith

plus_suc : (k e : ℕ) → k + suc e ≡ suc (k + e)
plus_suc k e = omega arith

exp-power : (k e : ℕ) → k + e ≤ 510 → read gf_exp (k + e) ≡ power e (read gf_exp k)
unfolding power
exp-power k zero h = ap (read gf_exp) (plus_zero k)
exp-power k (suc e) h =
    ap (read gf_exp) (plus_suc k e)
    ∙ exp-suc (k + e) (omega (arith, h))
    ∙ ap double (exp-power k e (omega (arith, h)))

-- `GF_EXP[GF_LOG[a] + e]` is the product of `a` and the e-th power of 2.
pub scale-power : (a e : ℕ) → 0 < a → a < 256 → e ≤ 255 → scale a e ≡ power e a
unfolding scale
scale-power a e p h le =
    let (back, small) = log-exp a p h in
    exp-power (read gf_log a) e (omega (arith, le, small)) ∙ ap (power e) back

pub power-zero : (e : ℕ) → power e 0 ≡ 0
unfolding power double
power-zero zero = refl
power-zero (suc e) = rw (power-zero e) refl

unfoldable double_small : ℕ → Bool
double_small x = ltb (double x) 256

double_smalls : below 256 double_small ≡ true
unfolding below double_small double
double_smalls = refl

double-lt : (x : ℕ) → x < 256 → double x < 256
unfolding double_small
double-lt x h = ltb→lt (double x) 256 (below-each 256 double_small x double_smalls h)

pub power-lt : (e a : ℕ) → a < 256 → power e a < 256
unfolding power
power-lt zero a h = h
power-lt (suc e) a h = double-lt (power e a) (power-lt e a h)

exp_zero : read gf_exp 0 ≡ 1
unfolding gf_exp gf_tables double
exp_zero = refl

-- A number from 1 to 255 is the power of 2 that GF_LOG tells.
pub power-log : (a : ℕ) → 0 < a → a < 256 → power (read gf_log a) 1 ≡ a
power-log a p h =
    let (back, small) = log-exp a p h in
    ap (power (read gf_log a)) (sym exp_zero)
    ∙ sym (exp-power 0 (read gf_log a) (omega (arith, small)))
    ∙ ap (read gf_exp) (zero_plus (read gf_log a))
    ∙ back

pub log-lt : (a : ℕ) → 0 < a → a < 256 → read gf_log a < 255
log-lt a p h = (log-exp a p h).1

pub suc_zero : (a : ℕ) → (suc a == 0) ≡ false
suc_zero a = ground arith

-- A product in the code: 0 is tested for, since it has no logarithm.
pub product-power : (a e : ℕ) → a < 256 → e ≤ 255 → (if a == 0 then 0 else scale a e) ≡ power e a
product-power zero e h le = sym (power-zero e)
product-power (suc a) e h le = rw (suc_zero a) (scale-power (suc a) e (omega arith) h le)
