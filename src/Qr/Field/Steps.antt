-- ===== src/Qr/Field/Steps.antt =====
-- One step of the division in `rsEcBytes`: a multiple of the divisor is taken off.
use Prim.Native.Nat.{bit_xor}
use bitcoin_lisp.Prelude.Bits.{bit_xor-lt}
use bitcoin_lisp.Prelude.{
  ℕ, zero, suc, ◌%◌, ◌≤◌, ◌<◌, List, [], ◌∷◌, ◌++◌, map, length, replicate, All, Option, none, some,
  ◌==◌, if◌then◌else◌, for_up, length-append, ◌≡◌, refl, ap, sym, ◌∙◌, arith, Bool, true, false,
  Bool-cases, inl, inr,
}
use bitcoin_lisp.Qr.Field.{read, write, gf_log, scale, shift_rem, add_multiple, divide_byte}
use bitcoin_lisp.Qr.Field.Powers.{
  power, power-lt, suc_zero, power-zero, scale-power, power-log, log-lt,
}
use bitcoin_lisp.Qr.Field.Sums.{
  plus, plus_front, plus_front-twice, plus_front-zero, plus_front-zeros, xor-zero, xor_comm,
}
use bitcoin_lisp.Qr.Field.Generator.{IsByte, times, byte_xor, length-times, All-append-IsByte}

-- A coefficient of a quotient: 0, or a power of 2.
abbrev pub scaled : Option ℕ → List ℕ → List ℕ
scaled none gen = map (λ c. 0) gen
scaled (some e) gen = times e gen

-- The polynomial that is the quotient's coefficients times the divisor, and the remainder added.
unfoldable pub dividend : List ℕ → List (Option ℕ) → List ℕ → List ℕ
dividend gen [] rem = rem
dividend gen (q ∷ quotient) rem = plus_front (scaled q gen) (0 ∷ dividend gen quotient rem)

abbrev body : List ℕ → ℕ → ℕ → List ℕ → List ℕ
body gen factor j rem =
    if read gen (suc j) == 0
    then rem
    else write rem j (bit_xor (read rem j) (scale (read gen (suc j)) (read gf_log factor)))

if_cons :
    (b : Bool) (x : ℕ) (xs ys : List ℕ)
    → (if b then x ∷ xs else x ∷ ys) ≡ x ∷ (if b then xs else ys)
if_cons true x xs ys = refl
if_cons false x xs ys = refl

-- The loop from the second place on is the loop over the rest.
body-shift :
    (m i g factor x : ℕ) (gen rem : List ℕ)
    → for_up m (suc i) (body (g ∷ gen) factor) (x ∷ rem) ≡ x ∷ for_up m i (body gen factor) rem
body-shift zero i g factor x gen rem = refl
body-shift (suc m) i g factor x gen rem =
    rw
      (if_cons (read gen (suc i) == 0) x rem
        (write rem i (bit_xor (read rem i) (scale (read gen (suc i)) (read gf_log factor)))))
      (body-shift m (suc i) g factor x gen (body gen factor i rem))

first_place :
    (y r factor : ℕ) (rem : List ℕ)
    → IsByte y
    → IsByte r
    → read gf_log factor ≤ 255
    → (if y == 0 then r ∷ rem else bit_xor r (scale y (read gf_log factor)) % 256 ∷ rem)
      ≡ bit_xor r (power (read gf_log factor) y) ∷ rem
first_place zero r factor rem hy hr le = rw (power-zero (read gf_log factor), xor-zero r) refl
first_place (suc y) r factor rem hy hr le =
    rw
      (
        suc_zero y,
        scale-power (suc y) (read gf_log factor) (omega arith) hy le,
        byte_xor r (power (read gf_log factor) (suc y)) hr
            (power-lt (read gf_log factor) (suc y) hy),
      )
      refl

add_multiple-plus :
    (g factor : ℕ) (gen rem : List ℕ)
    → length gen ≡ length rem
    → All IsByte gen
    → All IsByte rem
    → read gf_log factor ≤ 255
    → for_up (length rem) 0 (body (g ∷ gen) factor) rem ≡ plus rem (times (read gf_log factor) gen)
unfolding plus
add_multiple-plus g factor [] [] e hg hr le = refl
add_multiple-plus g factor (y ∷ gen) [] e hg hr le = absurd (omega (arith, e))
add_multiple-plus g factor [] (r ∷ rem) e hg hr le = absurd (omega (arith, e))
add_multiple-plus g factor (y ∷ gen) (r ∷ rem) e hg hr le =
    let next = bit_xor r (power (read gf_log factor) y) in
    ap (for_up (length rem) 1 (body (g ∷ y ∷ gen) factor)) (first_place y r factor rem hg.0 hr.0 le)
    ∙ body-shift (length rem) 0 g factor next (y ∷ gen) rem
    ∙ ap (λ s. next ∷ s) (add_multiple-plus y factor gen rem (omega (arith, e)) hg.1 hr.1 le)

-- What is left of the remainder when a multiple of the divisor is taken off.
unfoldable pub reduced : Option ℕ → List ℕ → List ℕ → List ℕ
reduced none gen rem = rem
reduced (some e) gen rem = plus rem (times e gen)

length-plus_front : (xs ys : List ℕ) → length xs ≤ length ys → length (plus_front xs ys) ≡ length ys
unfolding plus_front
length-plus_front [] ys h = refl
length-plus_front (x ∷ xs) [] h = absurd (omega (arith, h))
length-plus_front (x ∷ xs) (y ∷ ys) h = omega (arith, length-plus_front xs ys (omega (arith, h)))

no_multiple : (gen : List ℕ) → scaled none gen ≡ replicate (length gen) 0
no_multiple [] = refl
no_multiple (g ∷ gen) = ap (λ r. 0 ∷ r) (no_multiple gen)

-- The leading coefficient that a step takes off.
unfoldable pub IsFactor : Option ℕ → ℕ → Type 0
IsFactor none f = f ≡ 0
IsFactor (some e) f = power e 1 ≡ f

-- One step of the long division: a multiple of the divisor and what is left give the dividend back.
pub step-dividend :
    (gen : List ℕ) (q : Option ℕ) (b r : ℕ) (rem behind : List ℕ)
    → IsFactor q (bit_xor b r)
    → length gen ≡ suc (length rem)
    → length gen ≤ length behind
    → plus_front (scaled q (1 ∷ gen)) (0 ∷ plus_front (reduced q gen (rem ++ 0 ∷ [])) behind)
      ≡ plus_front (r ∷ rem) (b ∷ behind)
unfolding IsFactor plus_front reduced
step-dividend gen none b r rem behind f e le =
    let fit : length (rem ++ 0 ∷ []) ≤ length behind =
      omega (arith, e, le, length-append rem (0 ∷ [])) in
    rw
      (
        no_multiple gen,
        plus_front-zeros (length gen) (plus_front (rem ++ 0 ∷ []) behind)
            (omega (arith, le, length-plus_front (rem ++ 0 ∷ []) behind fit)),
        plus_front-zero rem behind (omega (arith, e, le)),
        xor_comm r b,
        f,
      )
      refl
step-dividend gen (some k) b r rem behind f e le =
    rw
      (
        f,
        xor-zero (bit_xor b r),
        xor_comm r b,
        plus_front-twice (times k gen) (rem ++ 0 ∷ []) behind
            (omega (arith, length-times k gen, e, length-append rem (0 ∷ [])))
            (omega (arith, length-times k gen, le)),
        plus_front-zero rem behind (omega (arith, e, le)),
      )
      refl

unfoldable pub coefficient : ℕ → Option ℕ
coefficient factor = if factor == 0 then none else some (read gf_log factor)

equal : (a b : ℕ) → (a == b) ≡ true → a ≡ b
equal a b h = ground arith

positive : (a : ℕ) → (a == 0) ≡ false → 0 < a
positive a h = ground arith

pub coefficient-IsFactor : (f : ℕ) → IsByte f → IsFactor (coefficient f) f
unfolding coefficient IsFactor
coefficient-IsFactor f h = elim (Bool-cases (f == 0)) [
  | inl t ↦ rw t (equal f 0 t)
  | inr u ↦ rw u (power-log f (positive f u) h)
]

-- `divide_byte`, for a remainder that is not empty.
pub divide_byte-reduced :
    (g : ℕ) (gen : List ℕ) (b r : ℕ) (rem : List ℕ)
    → length gen ≡ suc (length rem)
    → All IsByte gen
    → IsByte b
    → IsByte r × All IsByte rem
    → divide_byte (g ∷ gen) (suc (length rem)) b (r ∷ rem)
      ≡ reduced (coefficient (bit_xor b r)) gen (rem ++ 0 ∷ [])
unfolding divide_byte shift_rem add_multiple reduced coefficient
divide_byte-reduced g gen b r rem e hg hb hr = elim (Bool-cases (bit_xor b r == 0)) [
  | inl t ↦ rw t refl
  | inr u ↦
      let f = bit_xor b r in
      let small = bit_xor-lt 8 b r hb hr.0 in
      let size : length (rem ++ 0 ∷ []) ≡ suc (length rem) =
        omega (arith, length-append rem (0 ∷ [])) in
      rw u (
        ap (λ n. for_up n 0 (body (g ∷ gen) f) (rem ++ 0 ∷ [])) (sym size)
        ∙ add_multiple-plus g f gen (rem ++ 0 ∷ []) (e ∙ sym size) hg
            (All-append-IsByte rem (0 ∷ []) hr.1 (omega arith, tt))
            (omega (arith, log-lt f (positive f u) small)))
]
