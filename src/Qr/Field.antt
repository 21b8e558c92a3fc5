-- ===== src/Qr/Field.antt =====
-- ui/js/qr.js, GF(256): the tables GF_EXP and GF_LOG, and the parity bytes of `rsEcBytes`.
pub mod Division
pub mod Generator
pub mod Powers
pub mod Steps
pub mod Sums
use Prim.Native.Nat.{bit_and, bit_xor}
use bitcoin_lisp.Prelude.{
  ℕ, zero, suc, ◌+◌, ◌-◌, ◌*◌, ◌%◌, List, [], ◌∷◌, ◌++◌, get_or, set, replicate, ◌==◌,
  if◌then◌else◌, for_up, for_each,
}

-- Typed arrays of bytes: a read out of range gives 0 where the code uses it, a write keeps 8 bits.
abbrev pub read : List ℕ → ℕ → ℕ
read a i = get_or a i 0

abbrev pub write : List ℕ → ℕ → ℕ → List ℕ
write a i v = set a i (v % 256)

pub record Tables : Type 0 where
  pub exp : List ℕ
  pub log : List ℕ
  pub x : ℕ

-- x <<= 1; if (x & 0x100) x ^= 0x11d
unfoldable pub double : ℕ → ℕ
double x = let y = x * 2 in if bit_and y 0x100 == 0 then y else bit_xor y 0x11d

-- The body of the first loop.
unfoldable pub table_step : ℕ → Tables → Tables
unfolding double
table_step i t = record { exp = write t.exp i t.x; log = write t.log t.x i; x = double t.x }

-- Both loops of the block.
unfoldable pub gf_tables : Tables
unfolding table_step
gf_tables =
    let start : Tables = record { exp = replicate 512 0; log = replicate 256 0; x = 1 } in
    let filled = for_up 255 0 table_step start in
    record filled { exp = for_up 257 255 (λ i e. write e i (read e (i - 255))) filled.exp }

unfoldable pub gf_exp : List ℕ
unfolding gf_tables
gf_exp = gf_tables.exp

unfoldable pub gf_log : List ℕ
unfolding gf_tables
gf_log = gf_tables.log

-- GF_EXP[GF_LOG[a] + e] where a is not 0
unfoldable pub scale : ℕ → ℕ → ℕ
scale a e = read gf_exp (read gf_log a + e)

-- for (let j = i + 1; j > 0; j -= 1): the rounds left are `j`
unfoldable pub gen_round : ℕ → ℕ → List ℕ → List ℕ
gen_round i zero gen = gen
gen_round i (suc j) gen = gen_round i j (
    write gen (suc j)
      (bit_xor (read gen (suc j)) (if read gen j == 0 then 0 else scale (read gen j) i)))

unfoldable pub generator : ℕ → List ℕ
unfolding gen_round
generator ec_count =
    for_up ec_count 0 (λ i gen. gen_round i (suc i) gen) (write (replicate (suc ec_count) 0) 0 1)

-- rem.copyWithin(0, 1); rem[ecCount - 1] = 0
unfoldable pub shift_rem : List ℕ → List ℕ
shift_rem [] = []
shift_rem (r ∷ rem) = rem ++ 0 ∷ []

-- The inner loop of the division: rem[j] ^= gen[j + 1] * factor
unfoldable pub add_multiple : List ℕ → ℕ → ℕ → List ℕ → List ℕ
add_multiple gen factor ec_count rem =
    for_up ec_count 0
      (λ j rem.
        if read gen (suc j) == 0
        then rem
        else write rem j (bit_xor (read rem j) (scale (read gen (suc j)) (read gf_log factor))))
      rem

unfoldable pub divide_byte : List ℕ → ℕ → ℕ → List ℕ → List ℕ
unfolding shift_rem add_multiple
divide_byte gen ec_count byte rem =
    let factor = bit_xor byte (read rem 0) in
    let shifted = shift_rem rem in
    if factor == 0 then shifted else add_multiple gen factor ec_count shifted

unfoldable pub rs_ec_bytes : List ℕ → ℕ → List ℕ
unfolding generator divide_byte
rs_ec_bytes bytes ec_count =
    for_each bytes (divide_byte (generator ec_count) ec_count) (replicate ec_count 0)
