-- ===== src/Qr/Field/Generator.antt =====
-- The generator polynomial of `rsEcBytes`: the product of x + 2^i for each i below the number of parity bytes.
use Prim.Native.Nat.{bit_xor}
use bitcoin_lisp.Prelude.Bits.{bit_xor-lt}
use bitcoin_lisp.Prelude.{
  ℕ, zero, suc, ◌+◌, ◌%◌, ◌≤◌, ◌<◌, List, [], ◌∷◌, ◌++◌, map, length, replicate, set, All, for_up,
  ◌≡◌, refl, ap, sym, ◌∙◌, arith, length-append, append-nil,
}
use bitcoin_lisp.Qr.Field.{read, gen_round, generator}
use bitcoin_lisp.Qr.Field.Powers.{power, power-lt, product-power}
use bitcoin_lisp.Qr.Field.Sums.{plus, xor-zero}

abbrev pub IsByte : ℕ → Type 0
IsByte b = b < 256

-- The product of a polynomial with 2^e.
abbrev pub times : ℕ → List ℕ → List ℕ
times e xs = map (power e) xs

-- The product of x + 2^i for i below n.
unfoldable pub product : ℕ → List ℕ
product zero = 1 ∷ []
product (suc n) = plus (product n ++ 0 ∷ []) (0 ∷ times n (product n))

-- What the k last rounds of `gen_round` do behind the coefficient x.
unfoldable mixed : ℕ → ℕ → ℕ → List ℕ → List ℕ
mixed i zero x xs = xs
mixed i (suc k) x [] = []
mixed i (suc k) x (y ∷ ys) = bit_xor y (power i x) ∷ mixed i k y ys

pub byte_xor : (a b : ℕ) → IsByte a → IsByte b → bit_xor a b % 256 ≡ bit_xor a b
byte_xor a b h k = omega (arith, bit_xor-lt 8 a b h k)

mixed-set :
    (i j x : ℕ) (xs : List ℕ)
    → j < length xs
    → mixed i j x (set xs j (bit_xor (read xs j) (power i (read (x ∷ xs) j))))
      ≡ mixed i (suc j) x xs
unfolding mixed
mixed-set i j x [] h = absurd (omega (arith, h))
mixed-set i zero x (y ∷ ys) h = refl
mixed-set i (suc j) x (y ∷ ys) h =
    ap (λ r. bit_xor y (power i x) ∷ r) (mixed-set i j y ys (omega (arith, h)))

read-IsByte : (xs : List ℕ) (j : ℕ) → All IsByte xs → IsByte (read xs j)
read-IsByte [] j h = omega arith
read-IsByte (x ∷ xs) zero h = h.0
read-IsByte (x ∷ xs) (suc j) h = read-IsByte xs j h.1

set-All : (xs : List ℕ) (j v : ℕ) → IsByte v → All IsByte xs → All IsByte (set xs j v)
set-All [] j v k h = tt
set-All (x ∷ xs) zero v k h = (k, h.1)
set-All (x ∷ xs) (suc j) v k h = (h.0, set-All xs j v k h.1)

length-set : (xs : List ℕ) (j v : ℕ) → length (set xs j v) ≡ length xs
length-set [] j v = refl
length-set (x ∷ xs) zero v = refl
length-set (x ∷ xs) (suc j) v = omega (arith, length-set xs j v)

gen_round-mixed :
    (i k x : ℕ) (xs : List ℕ)
    → i ≤ 255
    → k ≤ length xs
    → IsByte x × All IsByte xs
    → gen_round i k (x ∷ xs) ≡ x ∷ mixed i k x xs
unfolding gen_round mixed
gen_round-mixed i zero x xs le h b = refl
gen_round-mixed i (suc j) x xs le h b =
    let v = bit_xor (read xs j) (power i (read (x ∷ xs) j)) in
    let small : IsByte v =
      bit_xor-lt 8 (read xs j) (power i (read (x ∷ xs) j)) (read-IsByte xs j b.1)
        (power-lt i (read (x ∷ xs) j) (read-IsByte (x ∷ xs) j b)) in
    rw
      (
        product-power (read (x ∷ xs) j) i (read-IsByte (x ∷ xs) j b) le,
        byte_xor (read xs j) (power i (read (x ∷ xs) j)) (read-IsByte xs j b.1)
            (power-lt i (read (x ∷ xs) j) (read-IsByte (x ∷ xs) j b)),
      )
      (gen_round-mixed i j x (set xs j v) le (omega (arith, h, length-set xs j v))
          (b.0, set-All xs j v small b.1)
        ∙ ap (λ r. x ∷ r) (mixed-set i j x xs (omega (arith, h))))

mixed-plus :
    (i x : ℕ) (xs zs : List ℕ)
    → mixed i (suc (length xs)) x (xs ++ 0 ∷ zs) ≡ plus (xs ++ 0 ∷ []) (times i (x ∷ xs)) ++ zs
unfolding mixed plus
mixed-plus i x [] zs = refl
mixed-plus i x (y ∷ ys) zs = ap (λ r. bit_xor y (power i x) ∷ r) (mixed-plus i y ys zs)

pub All-append-IsByte : (xs ys : List ℕ) → All IsByte xs → All IsByte ys → All IsByte (xs ++ ys)
All-append-IsByte [] ys h k = k
All-append-IsByte (x ∷ xs) ys h k = (h.0, All-append-IsByte xs ys h.1 k)

pub zeros-IsByte : (n : ℕ) → All IsByte (replicate n 0)
zeros-IsByte zero = tt
zeros-IsByte (suc n) = (omega arith, zeros-IsByte n)

gen_round-plus :
    (g : List ℕ) (i m : ℕ)
    → length g ≡ suc i
    → i ≤ 255
    → All IsByte g
    → gen_round i (suc i) (g ++ 0 ∷ replicate m 0)
      ≡ plus (g ++ 0 ∷ []) (0 ∷ times i g) ++ replicate m 0
unfolding plus
gen_round-plus [] i m e le b = absurd (omega (arith, e))
gen_round-plus (x ∷ xs) i m e le b =
    let same : length xs ≡ i = omega (arith, e) in
    gen_round-mixed i (suc i) x (xs ++ 0 ∷ replicate m 0) le
      (omega (arith, same, length-append xs (0 ∷ replicate m 0)))
      (b.0, All-append-IsByte xs (0 ∷ replicate m 0) b.1 (omega arith, zeros-IsByte m))
    ∙ rw (xor-zero x) (
        ap (λ r. x ∷ r)
          (ap (λ k. mixed i (suc k) x (xs ++ 0 ∷ replicate m 0)) (sym same)
            ∙ mixed-plus i x xs (replicate m 0)))

pub length-plus : (xs ys : List ℕ) → length xs ≡ length ys → length (plus xs ys) ≡ length xs
unfolding plus
length-plus [] ys e = refl
length-plus (x ∷ xs) [] e = absurd (omega (arith, e))
length-plus (x ∷ xs) (y ∷ ys) e = omega (arith, length-plus xs ys (omega (arith, e)))

pub plus-IsByte : (xs ys : List ℕ) → All IsByte xs → All IsByte ys → All IsByte (plus xs ys)
unfolding plus
plus-IsByte [] ys h k = tt
plus-IsByte (x ∷ xs) [] h k = tt
plus-IsByte (x ∷ xs) (y ∷ ys) h k = (bit_xor-lt 8 x y h.0 k.0, plus-IsByte xs ys h.1 k.1)

pub times-IsByte : (e : ℕ) (xs : List ℕ) → All IsByte xs → All IsByte (times e xs)
times-IsByte e [] h = tt
times-IsByte e (x ∷ xs) h = (power-lt e x h.0, times-IsByte e xs h.1)

pub length-times : (e : ℕ) (xs : List ℕ) → length (times e xs) ≡ length xs
length-times e [] = refl
length-times e (x ∷ xs) = omega (arith, length-times e xs)

pub product-IsByte : (n : ℕ) → All IsByte (product n)
unfolding product
product-IsByte zero = (omega arith, tt)
product-IsByte (suc n) =
    plus-IsByte (product n ++ 0 ∷ []) (0 ∷ times n (product n))
      (All-append-IsByte (product n) (0 ∷ []) (product-IsByte n) (omega arith, tt))
      (omega arith, times-IsByte n (product n) (product-IsByte n))

pub length-product : (n : ℕ) → length (product n) ≡ suc n
unfolding product
length-product zero = refl
length-product (suc n) =
    length-plus (product n ++ 0 ∷ []) (0 ∷ times n (product n))
      (omega (arith, length-append (product n) (0 ∷ []), length-times n (product n)))
    ∙ omega (arith, length-append (product n) (0 ∷ []), length-product n)

plus_zero : (i : ℕ) → i ≡ i + 0
plus_zero i = omega arith

suc_plus : (i m : ℕ) → suc i + m ≡ i + suc m
suc_plus i m = omega arith

zero_plus : (n : ℕ) → 0 + n ≡ n
zero_plus n = omega arith

product-loop :
    (m i : ℕ)
    → i + m ≤ 255
    → for_up m i (λ i gen. gen_round i (suc i) gen) (product i ++ replicate m 0) ≡ product (i + m)
unfolding product
product-loop zero i h = append-nil (product i) ∙ ap product (plus_zero i)
product-loop (suc m) i h =
    rw (gen_round-plus (product i) i m (length-product i) (omega (arith, h)) (product-IsByte i))
      (product-loop m (suc i) (omega (arith, h)) ∙ ap product (suc_plus i m))

pub generator-product : (n : ℕ) → n ≤ 255 → generator n ≡ product n
unfolding generator product
generator-product n h = product-loop n 0 (omega (arith, h)) ∙ ap product (zero_plus n)

-- The leading coefficient of the product is 1.
pub product-monic : (n : ℕ) → (gen : List ℕ) × (product n ≡ 1 ∷ gen)
unfolding product plus
product-monic zero = ([], refl)
product-monic (suc n) =
    let (gen, e) = product-monic n in
    (
      plus (gen ++ 0 ∷ []) (times n (product n)),
      ap (λ g. plus (g ++ 0 ∷ []) (0 ∷ times n (product n))) e,
    )
