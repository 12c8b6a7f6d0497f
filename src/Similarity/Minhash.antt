-- ===== src/Similarity/Minhash.antt =====
-- Signatures of sequences and the pairs that share a band of them
-- (packages/pattern-engine/src/similarity.ts): 64 hashes of 32 bits, in 16 bands of 4.
use Prim.Native.Nat.{bit_xor}
use maman_agent.Prelude.{
  ℕ, zero, suc, ◌*◌, ◌%◌, ltb, ◌==◌, if◌then◌else◌, Bool, ◌&&◌, List, [], ◌∷◌, ◌++◌, same_codes,
  map, flat_map, any,
}

abbrev minhash_functions : ℕ
minhash_functions = 64

abbrev lsh_bands : ℕ
lsh_bands = 16

abbrev rows_per_band : ℕ
rows_per_band = 4

abbrev hash_code : ℕ → ℕ → ℕ
hash_code h c = (bit_xor h c * 16777619) % 0x100000000

abbrev hash_from : ℕ → List ℕ → ℕ
hash_from h [] = h
hash_from h (c ∷ cs) = hash_from (hash_code h c) cs

-- `hash32`; the seed is taken in 32 bits.
abbrev hash32 : List ℕ → ℕ → ℕ
hash32 value seed = hash_from (bit_xor 2166136261 (seed % 0x100000000)) value

abbrev shingle_pairs : List (List ℕ) → List (List ℕ)
shingle_pairs [] = []
shingle_pairs (s ∷ []) = []
shingle_pairs (s ∷ t ∷ ts) = (s ++ 1 ∷ t) ∷ shingle_pairs (t ∷ ts)

abbrev shingles : List (List ℕ) → List (List ℕ)
shingles (t ∷ []) = t ∷ []
shingles ts = shingle_pairs ts

-- The least hashes so far, from function `f` on, after one more shingle.
abbrev lower_hashes : List ℕ → ℕ → List ℕ → List ℕ
lower_hashes shingle f [] = []
lower_hashes shingle f (least ∷ sig) =
    let h = hash32 shingle (f * 0x9e3779b9) in
    (if ltb h least then h else least) ∷ lower_hashes shingle (suc f) sig

abbrev filled {ℓ} : {A : Type ℓ} → ℕ → A → List A
filled zero x = []
filled (suc n) x = x ∷ filled n x

abbrev add_shingles : List ℕ → List (List ℕ) → List ℕ
add_shingles sig [] = sig
add_shingles sig (s ∷ ss) = add_shingles (lower_hashes s 0 sig) ss

abbrev minhash_signature : List (List ℕ) → List ℕ
minhash_signature tokens = add_shingles (filled minhash_functions 0xffffffff) (shingles tokens)

abbrev take_first : ℕ → List ℕ → List ℕ
take_first zero xs = []
take_first (suc n) [] = []
take_first (suc n) (x ∷ xs) = x ∷ take_first n xs

abbrev drop_first : ℕ → List ℕ → List ℕ
drop_first zero xs = xs
drop_first (suc n) [] = []
drop_first (suc n) (x ∷ xs) = drop_first n xs

-- The buckets in the order in which their keys, a band and its hashes, were set.
record Bucket : Type 0 where
  band : ℕ
  hashes : List ℕ
  indices : List ℕ

abbrev same_bucket : ℕ → List ℕ → Bucket → Bool
same_bucket band hashes b = b.band == band && same_codes b.hashes hashes

abbrev put_index : ℕ → List ℕ → ℕ → List Bucket → List Bucket
put_index band hashes index [] = record { band = band; hashes = hashes; indices = index ∷ [] } ∷ []
put_index band hashes index (b ∷ bs) =
    let rest = put_index band hashes index bs in
    if same_bucket band hashes b
    then record b { indices = b.indices ++ index ∷ [] } ∷ bs
    else b ∷ rest

-- The bands of a signature from `band` on, `left` of them.
abbrev put_bands : ℕ → ℕ → List ℕ → ℕ → List Bucket → List Bucket
put_bands zero band sig index buckets = buckets
put_bands (suc left) band sig index buckets =
    put_bands left (suc band) (drop_first rows_per_band sig) index
      (put_index band (take_first rows_per_band sig) index buckets)

abbrev fill_buckets : ℕ → List (List (List ℕ)) → List Bucket → List Bucket
fill_buckets index [] buckets = buckets
fill_buckets index (tokens ∷ rest) buckets =
    fill_buckets (suc index) rest (put_bands lsh_bands 0 (minhash_signature tokens) index buckets)

abbrev pairs_within : List ℕ → List (ℕ × ℕ)
pairs_within [] = []
pairs_within (i ∷ is) = map (λ j. (i, j)) is ++ pairs_within is

abbrev pub same_pair : ℕ × ℕ → ℕ × ℕ → Bool
same_pair (i, j) (k, l) = i == k && j == l

-- Adding to a set, which keeps the first of equal pairs.
abbrev add_pairs : List (ℕ × ℕ) → List (ℕ × ℕ) → List (ℕ × ℕ)
add_pairs seen [] = seen
add_pairs seen (p ∷ ps) = add_pairs (if any (same_pair p) seen then seen else seen ++ p ∷ []) ps

unfoldable pub candidate_pairs : List (List (List ℕ)) → List (ℕ × ℕ)
candidate_pairs sequences =
    add_pairs [] (flat_map (λ b. pairs_within b.indices) (fill_buckets 0 sequences []))
