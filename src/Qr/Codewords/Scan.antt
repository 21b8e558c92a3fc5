-- ===== src/Qr/Codewords/Scan.antt =====
-- A reader of the codewords that `buildCodewords` gives: it deals the data codewords out to their blocks, puts the
-- blocks behind each other, and reads the message.
use bitcoin_lisp.Prelude.{
  ℕ, zero, suc, ◌+◌, ◌*◌, ◌≤◌, List, [], ◌∷◌, ◌++◌, length, map, replicate, take, drop, Option,
  some, ok, for_each, ◌≡◌, refl, ap, sym, ◌∙◌, arith, append_assoc, take-append-drop, length-take,
  length-drop,
}
use bitcoin_lisp.Qr.Tables.{RsRun}
use bitcoin_lisp.Qr.Version.{blocks_of, data_codeword_count, pick_version}
use bitcoin_lisp.Qr.Codewords.{
  Block, split_run, split_blocks, interleave, data_codewords, build_codewords,
}
use bitcoin_lisp.Qr.Codewords.Deal.{deinterleave, deinterleave-interleave}
use bitcoin_lisp.Qr.Codewords.Payload.{IsBytes, read_payload, read_payload-data_codewords}

abbrev dc_of : List Block → List (List ℕ)
dc_of blocks = map (λ (b : Block). b.dc) blocks

-- The lengths of the data blocks of a version.
unfoldable pub lengths_of : List RsRun → List ℕ
lengths_of [] = []
lengths_of (b ∷ runs) = replicate b.count b.data_count ++ lengths_of runs

unfoldable pub flat : List (List ℕ) → List ℕ
flat [] = []
flat (b ∷ blocks) = b ++ flat blocks

unfoldable pub read_codewords : ℕ → List ℕ → Option (List ℕ)
read_codewords version codes =
    read_payload version (flat (deinterleave (lengths_of (blocks_of version)) codes))

unfoldable total_of : List RsRun → ℕ
total_of [] = 0
total_of (b ∷ runs) = b.count * b.data_count + total_of runs

for_each-total :
    (runs : List RsRun) (acc : ℕ)
    → for_each runs (λ b acc. acc + b.count * b.data_count) acc ≡ acc + total_of runs
unfolding total_of
for_each-total [] acc = omega arith
for_each-total (b ∷ runs) acc = omega (arith, for_each-total runs (acc + b.count * b.data_count))

-- What `split_run` gives: blocks of the run's length, which with the rest are the codewords.
abbrev IsCut : ℕ → ℕ → List ℕ → List Block × List ℕ → Type 0
IsCut n size codewords r =
    (map length (dc_of r.0) ≡ replicate n size)
    × (flat (dc_of r.0) ++ r.1 ≡ codewords)
    × (length r.1 + n * size ≡ length codewords)

times_suc : (n k : ℕ) → suc n * k ≡ k + n * k
times_suc n k = omega arith

split_run-IsCut :
    (n : ℕ) (b : RsRun) (codewords : List ℕ)
    → n * b.data_count ≤ length codewords
    → IsCut n b.data_count codewords (split_run n b codewords)
unfolding split_run flat
split_run-IsCut zero b codewords h = (refl, refl, omega arith)
split_run-IsCut (suc n) b codewords h =
    let size = b.data_count in
    let (lens, whole, left) =
      split_run-IsCut n b (drop size codewords) (omega (arith, h, length-drop size codewords)) in
    (
      ap (λ r. length (take size codewords) ∷ r) lens
          ∙ ap (λ k. k ∷ replicate n size)
              (omega (arith, length-take size codewords, h, times_suc n size)),
      append_assoc (take size codewords) _ _
          ∙ ap (λ r. take size codewords ++ r) whole
          ∙ take-append-drop size codewords,
      omega (arith, left, h, length-drop size codewords),
    )

map-append : {A B : Type 0} (f : A → B) (xs ys : List A) → map f (xs ++ ys) ≡ map f xs ++ map f ys
map-append f [] ys = refl
map-append f (x ∷ xs) ys = ap (λ r. f x ∷ r) (map-append f xs ys)

flat-append : (xs ys : List (List ℕ)) → flat (xs ++ ys) ≡ flat xs ++ flat ys
unfolding flat
flat-append [] ys = refl
flat-append (x ∷ xs) ys = rw (flat-append xs ys) (sym (append_assoc x (flat xs) (flat ys)))

-- The blocks of all runs have the lengths of the version, and are the codewords.
split_blocks-whole :
    (runs : List RsRun) (codewords : List ℕ)
    → length codewords ≡ total_of runs
    → (map length (dc_of (split_blocks runs codewords)) ≡ lengths_of runs)
      × (flat (dc_of (split_blocks runs codewords)) ≡ codewords)
unfolding split_blocks lengths_of flat total_of
split_blocks-whole [] [] h = (refl, refl)
split_blocks-whole [] (c ∷ codewords) h = absurd (omega (arith, h))
split_blocks-whole (b ∷ runs) codewords h =
    let r = split_run b.count b codewords in
    let (lens, whole, left) = split_run-IsCut b.count b codewords (omega (arith, h)) in
    let (more, behind) = split_blocks-whole runs r.1 (omega (arith, h, left)) in
    let both : dc_of (r.0 ++ split_blocks runs r.1) ≡ dc_of r.0 ++ dc_of (split_blocks runs r.1) =
      map-append (λ (x : Block). x.dc) r.0 (split_blocks runs r.1) in
    (
      ap (map length) both
          ∙ map-append length (dc_of r.0) (dc_of (split_blocks runs r.1))
          ∙ rw (lens, more) refl,
      ap flat both ∙ flat-append (dc_of r.0) (dc_of (split_blocks runs r.1)) ∙ rw behind whole,
    )

zero_plus : (n : ℕ) → 0 + n ≡ n
zero_plus n = omega arith

count-total : (version : ℕ) → data_codeword_count version ≡ total_of (blocks_of version)
unfolding data_codeword_count
count-total version =
    for_each-total (blocks_of version) 0 ∙ zero_plus (total_of (blocks_of version))

-- The codewords that a QR symbol carries for any list of bytes, in the version that pickVersion chooses, interleaved and
-- with their parity, are read back as exactly these bytes.
pub read_codewords-build_codewords :
    (bytes : List ℕ) (version : ℕ)
    → IsBytes bytes
    → pick_version (length bytes) ≡ ok version
    → read_codewords version (build_codewords bytes version) ≡ some bytes
unfolding read_codewords build_codewords
read_codewords-build_codewords bytes version h chosen =
    let (size, read) = read_payload-data_codewords bytes version h chosen in
    let codewords = data_codewords bytes version in
    let blocks = split_blocks (blocks_of version) codewords in
    let (lens, whole) =
      split_blocks-whole (blocks_of version) codewords (size ∙ count-total version) in
    let parity = interleave (map (λ (b : Block). b.ec) blocks) in
    let dealt : deinterleave (lengths_of (blocks_of version)) (interleave (dc_of blocks) ++ parity)
        ≡ dc_of blocks =
      ap (λ ls. deinterleave ls (interleave (dc_of blocks) ++ parity)) (sym lens)
      ∙ deinterleave-interleave (dc_of blocks) parity in
    ap (λ bs. read_payload version (flat bs)) dealt ∙ ap (read_payload version) whole ∙ read
