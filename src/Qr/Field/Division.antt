-- ===== src/Qr/Field/Division.antt =====
-- `rsEcBytes` divides: the parity bytes are the remainder of the data on division by the generator polynomial.
use Prim.Native.Nat.{bit_xor}
use bitcoin_lisp.Prelude.Bits.{bit_xor-lt}
use bitcoin_lisp.Prelude.{
  ℕ, zero, suc, ◌≤◌, List, [], ◌∷◌, ◌++◌, length, replicate, All, Option, none, some, for_each,
  length-append, ◌≡◌, refl, ap, sym, ◌∙◌, arith,
}
use bitcoin_lisp.Qr.Field.{divide_byte, rs_ec_bytes, generator}
use bitcoin_lisp.Qr.Field.Sums.{plus_front, plus_front-zeros, plus_front-all}
use bitcoin_lisp.Qr.Field.Generator.{
  IsByte, times, product, times-IsByte, length-times, product-IsByte, length-product,
  generator-product, All-append-IsByte, plus-IsByte, length-plus, product-monic, zeros-IsByte,
}
use bitcoin_lisp.Qr.Field.Steps.{
  dividend, reduced, coefficient, step-dividend, coefficient-IsFactor, divide_byte-reduced,
}

reduced-IsByte :
    (q : Option ℕ) (gen rem : List ℕ)
    → All IsByte gen
    → All IsByte rem
    → All IsByte (reduced q gen rem)
unfolding reduced
reduced-IsByte none gen rem hg hr = hr
reduced-IsByte (some e) gen rem hg hr = plus-IsByte rem (times e gen) hr (times-IsByte e gen hg)

length-reduced :
    (q : Option ℕ) (gen rem : List ℕ)
    → length gen ≡ length rem
    → length (reduced q gen rem) ≡ length rem
unfolding reduced
length-reduced none gen rem e = refl
length-reduced (some k) gen rem e = length-plus rem (times k gen) (sym e ∙ sym (length-times k gen))

abbrev zeros : ℕ → List ℕ
zeros n = replicate n 0

length-zeros : (n : ℕ) → length (zeros n) ≡ n
length-zeros zero = refl
length-zeros (suc n) = omega (arith, length-zeros n)

-- The remainder of a division has its size, and with the quotient it gives the dividend back.
abbrev IsDivided : List ℕ → List ℕ → List ℕ → List ℕ → Type 0
IsDivided gen bytes start out =
    (quotient : List (Option ℕ)) × (length quotient ≡ length bytes)
    × (length out ≡ length gen)
    × (dividend (1 ∷ gen) quotient out ≡ plus_front start (bytes ++ replicate (length gen) 0))

divide_each :
    (gen bytes rem : List ℕ)
    → 1 ≤ length gen
    → length rem ≡ length gen
    → All IsByte gen
    → All IsByte bytes
    → All IsByte rem
    → IsDivided gen bytes rem (for_each bytes (divide_byte (1 ∷ gen) (length gen)) rem)
unfolding dividend
divide_each gen [] rem p e hg hb hr =
    ([], refl, e, sym (ap (λ n. plus_front rem (replicate n 0)) (sym e) ∙ plus_front-all rem))
divide_each gen (b ∷ bytes) [] p e hg hb hr = absurd (omega (arith, p, e))
divide_each gen (b ∷ bytes) (r ∷ rem) p e hg hb hr =
    let f = bit_xor b r in
    let small = bit_xor-lt 8 b r hb.0 hr.0 in
    let shifted : length (rem ++ 0 ∷ []) ≡ length gen =
      omega (arith, e, length-append rem (0 ∷ [])) in
    let reached : divide_byte (1 ∷ gen) (length gen) b (r ∷ rem)
        ≡ reduced (coefficient f) gen (rem ++ 0 ∷ []) =
      ap (λ n. divide_byte (1 ∷ gen) n b (r ∷ rem)) (sym e)
      ∙ divide_byte-reduced 1 gen b r rem (sym e) hg hb.0 hr in
    let (quotient, count, size, back) =
      divide_each gen bytes (reduced (coefficient f) gen (rem ++ 0 ∷ [])) p
        (length-reduced (coefficient f) gen (rem ++ 0 ∷ []) (sym shifted) ∙ shifted) hg hb.1
        (reduced-IsByte (coefficient f) gen (rem ++ 0 ∷ []) hg
          (All-append-IsByte rem (0 ∷ []) hr.1 (omega arith, tt))) in
    rw reached (
      coefficient f ∷ quotient,
      omega (arith, count),
      size,
      rw back (
          step-dividend gen (coefficient f) b r rem (bytes ++ replicate (length gen) 0)
            (coefficient-IsFactor f small) (sym e)
            (omega
              (arith, length-append bytes (replicate (length gen) 0), length-zeros (length gen)))),
    )

same_bytes : {xs ys : List ℕ} → xs ≡ ys → All IsByte xs → All IsByte ys
same_bytes e h = rw (sym e) h

rs_ec_bytes-generator :
    (bytes : List ℕ) (n : ℕ)
    → rs_ec_bytes bytes n ≡ for_each bytes (divide_byte (generator n) n) (replicate n 0)
unfolding rs_ec_bytes
rs_ec_bytes-generator bytes n = refl

-- For 1 to 255 parity bytes and any list of bytes, rsEcBytes gives that many bytes, and they are the remainder of the
-- bytes, as the upper coefficients of a polynomial over the field, on division by the product of x + 2^i for each i below
-- their number: some quotient times that product, with the parity added, is the bytes with that many zeros behind.
pub rs_ec_bytes-remainder :
    (bytes : List ℕ) (n : ℕ)
    → All IsByte bytes
    → 1 ≤ n
    → n ≤ 255
    → (quotient : List (Option ℕ)) × (length quotient ≡ length bytes)
      × (length (rs_ec_bytes bytes n) ≡ n)
      × (dividend (product n) quotient (rs_ec_bytes bytes n) ≡ bytes ++ replicate n 0)
rs_ec_bytes-remainder bytes n h p le =
    let (gen, monic) = product-monic n in
    let size : length gen ≡ n = omega (arith, ap length monic, length-product n) in
    let bytes_gen : All IsByte (1 ∷ gen) = same_bytes monic (product-IsByte n) in
    let run : rs_ec_bytes bytes n
        ≡ for_each bytes (divide_byte (1 ∷ gen) (length gen)) (replicate (length gen) 0) =
      rs_ec_bytes-generator bytes n
      ∙ ap (λ g. for_each bytes (divide_byte g n) (replicate n 0)) (generator-product n le ∙ monic)
      ∙ ap (λ k. for_each bytes (divide_byte (1 ∷ gen) k) (replicate k 0)) (sym size) in
    let (quotient, count, long, back) =
      divide_each gen bytes (zeros (length gen)) (omega (arith, size, p))
        (length-zeros (length gen)) bytes_gen.1 h (zeros-IsByte (length gen)) in
    (
      quotient,
      count,
      ap length run ∙ long ∙ size,
      ap (λ g. dividend g quotient (rs_ec_bytes bytes n)) monic
          ∙ ap (dividend (1 ∷ gen) quotient) run
          ∙ back
          ∙ plus_front-zeros (length gen) (bytes ++ replicate (length gen) 0)
              (omega (arith, length-append bytes (zeros (length gen)), length-zeros (length gen)))
          ∙ ap (λ k. bytes ++ replicate k 0) size,
    )
