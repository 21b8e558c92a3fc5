-- ===== src/Qr/Field/Sums.antt =====
-- Sums of polynomials over the field: lists of coefficients, the highest first, added without carry.
use Prim.Native.Nat.{bit_xor}
use bitcoin_lisp.Prelude.Bits.{bit_xor_step}
use bitcoin_lisp.Prelude.{
  ℕ, zero, suc, ◌+◌, ◌/◌, ◌%◌, ◌≤◌, ◌<◌, List, [], ◌∷◌, ◌++◌, length, replicate, ◌≡◌, refl, ap, sym,
  ◌∙◌, arith,
}

xor-zero_below : (n a : ℕ) → a ≤ n → bit_xor a 0 ≡ a
xor-zero_below n zero h = refl
xor-zero_below zero (suc a) h = absurd (omega arith)
xor-zero_below (suc n) (suc a) h =
    omega (arith, bit_xor_step (suc a) 0, xor-zero_below n (suc a / 2) (omega arith))

pub xor-zero : (a : ℕ) → bit_xor a 0 ≡ a
xor-zero a = xor-zero_below a a (omega arith)

xor_half : (a b : ℕ) → bit_xor a b / 2 ≡ bit_xor (a / 2) (b / 2)
xor_half a b = omega (arith, bit_xor_step a b)

xor_last : (a b : ℕ) → bit_xor a b % 2 ≡ (a + b) % 2
xor_last a b = omega (arith, bit_xor_step a b)

same_halves : (a b : ℕ) → a % 2 ≡ b % 2 → a / 2 ≡ b / 2 → a ≡ b
same_halves a b h k = omega (arith, h, k)

none_left : (a : ℕ) → a ≤ 0 → a ≡ 0
none_left a h = omega (arith, h)

xor_comm_below : (n a b : ℕ) → a ≤ n → b ≤ n → bit_xor a b ≡ bit_xor b a
xor_comm_below zero a b h k = rw (none_left a h, none_left b k) refl
xor_comm_below (suc n) a b h k =
    same_halves (bit_xor a b) (bit_xor b a) (omega (arith, xor_last a b, xor_last b a)) (
      xor_half a b
      ∙ xor_comm_below n (a / 2) (b / 2) (omega (arith, h)) (omega (arith, k))
      ∙ sym (xor_half b a))

pub xor_comm : (a b : ℕ) → bit_xor a b ≡ bit_xor b a
xor_comm a b = xor_comm_below (a + b) a b (omega arith) (omega arith)

xor_twice_below :
    (n a s w : ℕ) → a ≤ n → s ≤ n → w ≤ n → bit_xor a (bit_xor (bit_xor s a) w) ≡ bit_xor s w
xor_twice_below zero a s w h k l = rw (none_left a h, none_left s k, none_left w l) refl
xor_twice_below (suc n) a s w h k l =
    same_halves (bit_xor a (bit_xor (bit_xor s a) w)) (bit_xor s w)
      (omega (
        arith,
        xor_last a (bit_xor (bit_xor s a) w),
        xor_last (bit_xor s a) w,
        xor_last s a,
        xor_last s w,
      ))
      (xor_half a (bit_xor (bit_xor s a) w)
        ∙ ap (bit_xor (a / 2))
            (xor_half (bit_xor s a) w ∙ ap (λ v. bit_xor v (w / 2)) (xor_half s a))
        ∙ xor_twice_below n (a / 2) (s / 2) (w / 2) (omega (arith, h)) (omega (arith, k))
            (omega (arith, l))
        ∙ sym (xor_half s w))

-- What is added twice is gone.
pub xor_twice : (a s w : ℕ) → bit_xor a (bit_xor (bit_xor s a) w) ≡ bit_xor s w
xor_twice a s w = xor_twice_below (a + s + w) a s w (omega arith) (omega arith) (omega arith)

-- The sum of two lists of one length.
unfoldable pub plus : List ℕ → List ℕ → List ℕ
plus [] ys = []
plus (x ∷ xs) [] = []
plus (x ∷ xs) (y ∷ ys) = bit_xor x y ∷ plus xs ys

-- The sum of a list and the front of one that is no shorter.
unfoldable pub plus_front : List ℕ → List ℕ → List ℕ
plus_front [] ys = ys
plus_front (x ∷ xs) [] = []
plus_front (x ∷ xs) (y ∷ ys) = bit_xor x y ∷ plus_front xs ys

pub plus_front-twice :
    (cs ss ws : List ℕ)
    → length cs ≡ length ss
    → length cs ≤ length ws
    → plus_front cs (plus_front (plus ss cs) ws) ≡ plus_front ss ws
unfolding plus_front plus
plus_front-twice [] [] ws h k = refl
plus_front-twice [] (s ∷ ss) ws h k = absurd (omega (arith, h))
plus_front-twice (a ∷ cs) [] ws h k = absurd (omega (arith, h))
plus_front-twice (a ∷ cs) (s ∷ ss) [] h k = absurd (omega (arith, k))
plus_front-twice (a ∷ cs) (s ∷ ss) (w ∷ ws) h k =
    rw (xor_twice a s w, plus_front-twice cs ss ws (omega (arith, h)) (omega (arith, k))) refl

-- A zero behind the shorter list adds nothing.
pub plus_front-zero :
    (xs ys : List ℕ) → length xs < length ys → plus_front (xs ++ 0 ∷ []) ys ≡ plus_front xs ys
unfolding plus_front
plus_front-zero [] [] h = absurd (omega (arith, h))
plus_front-zero [] (y ∷ ys) h = rw (xor_comm 0 y, xor-zero y) refl
plus_front-zero (x ∷ xs) [] h = absurd (omega (arith, h))
plus_front-zero (x ∷ xs) (y ∷ ys) h =
    ap (λ r. bit_xor x y ∷ r) (plus_front-zero xs ys (omega (arith, h)))

pub plus_front-zeros : (n : ℕ) (ys : List ℕ) → n ≤ length ys → plus_front (replicate n 0) ys ≡ ys
unfolding plus_front
plus_front-zeros zero ys h = refl
plus_front-zeros (suc n) [] h = absurd (omega (arith, h))
plus_front-zeros (suc n) (y ∷ ys) h =
    rw (xor_comm 0 y, xor-zero y, plus_front-zeros n ys (omega (arith, h))) refl

-- Zeros that are cs many cs the coefficients are the neutral element.
pub plus_front-all : (xs : List ℕ) → plus_front xs (replicate (length xs) 0) ≡ xs
unfolding plus_front
plus_front-all [] = refl
plus_front-all (x ∷ xs) = rw (xor-zero x, plus_front-all xs) refl
