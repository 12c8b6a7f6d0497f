-- ===== src/Engine/Digest.antt =====
-- The hash that binds an approval to a diff (packages/agent-runtime/src/adapters.ts, `diffSha256`), on
-- the code units of the diff's JSON text. Words are 32 bits, and are kept below 2 ^ 32.
use Prim.Native.Nat.{bit_xor}
use maman_agent.Prelude.{
  ℕ, zero, suc, ◌+◌, ◌*◌, ◌/◌, ◌%◌, ltb, List, [], ◌∷◌, ◌++◌, flat_map, if◌then◌else◌, Bool, ◌<◌,
  all, All, ◌-◌, ◌≤◌, Bool-cases, inl, inr, length, leb, ◌≡◌, ◌&&◌, true, ◌||◌, arith,
  length-append, refl,
}

-- `(h ^ c) * 0x01000193` in 32 bits.
abbrev mix : ℕ → ℕ → ℕ
mix h c = (bit_xor h c * 0x01000193) % 0x100000000

unfoldable pub lane : ℕ → List ℕ → ℕ
lane h [] = h
lane h (c ∷ cs) = lane (mix h c) cs

abbrev hex_digit : ℕ → ℕ
hex_digit d = if ltb d 10 then 48 + d else 87 + d

-- `toString(16)`, for numbers of at most so many digits.
unfoldable pub hex_text : ℕ → ℕ → List ℕ
hex_text zero n = []
hex_text (suc k) n =
    let high = hex_text k (n / 16) in
    if ltb n 16 then hex_digit n ∷ [] else high ++ hex_digit (n % 16) ∷ []

abbrev padding : ℕ → List ℕ
padding zero = []
padding (suc k) = 48 ∷ padding k

-- `padStart(width, "0")`.
abbrev pad_start : ℕ → List ℕ → List ℕ
pad_start width text = padding (width - length text) ++ text

-- `toString(16).padStart(width, "0")`, for numbers below 2 ^ 64.
unfoldable pub hex : ℕ → ℕ → List ℕ
hex width n = pad_start width (hex_text 16 n)

abbrev seeds : List ℕ
seeds =
    0x811c9dc5 ∷ 0x01000193 ∷ 0x9e3779b9 ∷ 0x85ebca6b ∷ 0xc2b2ae35 ∷ 0x27d4eb2f ∷ 0x165667b1
    ∷ 0xdeadbeef ∷ []

unfoldable pub diff_sha256 : List ℕ → List ℕ
unfolding hex lane
diff_sha256 input = flat_map (λ seed. hex 8 (lane seed input)) seeds

-- The digits `0` to `9` and `a` to `f`.
abbrev pub is_hex_code : ℕ → Bool
is_hex_code c = leb 48 c && ltb c 58 || leb 97 c && ltb c 103

hex_digit-IsHex : (d : ℕ) → d < 16 → is_hex_code (hex_digit d) ≡ true
hex_digit-IsHex d h = ground arith

all-append :
    (xs ys : List ℕ)
    → all is_hex_code xs ≡ true
    → all is_hex_code ys ≡ true
    → all is_hex_code (xs ++ ys) ≡ true
all-append [] ys h k = k
all-append (x ∷ xs) ys h k = let g = all-append xs ys in ground arith

-- The powers of 16.
pow16 : ℕ → ℕ
pow16 zero = 1
pow16 (suc d) = 16 * pow16 d

hex_text-le : (k d n : ℕ) → n < pow16 (suc d) → length (hex_text k n) ≤ suc d
unfolding hex_text pow16
hex_text-le zero d n h = omega arith
hex_text-le (suc k) zero n h =
    let small : n < 16 = omega arith in let t : ltb n 16 ≡ true = ground arith in rw t (omega arith)
hex_text-le (suc k) (suc d) n h = elim (Bool-cases (ltb n 16)) [
  | inl e ↦ rw e (omega arith)
  | inr e ↦ rw e (
      let ih = hex_text-le k d (n / 16) (omega arith) in
      omega (arith, length-append (hex_text k (n / 16)) (hex_digit (n % 16) ∷ []), ih))
]

hex_text-IsHex : (k n : ℕ) → all is_hex_code (hex_text k n) ≡ true
unfolding hex_text
hex_text-IsHex zero n = refl
hex_text-IsHex (suc k) n = elim (Bool-cases (ltb n 16)) [
  | inl e ↦ rw e (let d = hex_digit-IsHex n (ground arith) in ground arith)
  | inr e ↦ rw e (
      all-append (hex_text k (n / 16)) _ (hex_text-IsHex k (n / 16))
        (let d = hex_digit-IsHex (n % 16) (omega arith) in ground arith))
]

padding-digits : (k : ℕ) → length (padding k) ≡ k × all is_hex_code (padding k) ≡ true
padding-digits zero = (refl, refl)
padding-digits (suc k) = let (l, h) = padding-digits k in (omega arith, h)

hex-digits : (n : ℕ) → n < 0x100000000 → length (hex 8 n) ≡ 8 × all is_hex_code (hex 8 n) ≡ true
unfolding hex pow16
hex-digits n h =
    let text = hex_text 16 n in
    let short = hex_text-le 16 7 n h in
    let (l, z) = padding-digits (8 - length text) in
    (
      omega (arith, length-append (padding (8 - length text)) text, l, short),
      all-append (padding (8 - length text)) text z (hex_text-IsHex 16 n),
    )

lane-word : (h : ℕ) (input : List ℕ) → h < 0x100000000 → lane h input < 0x100000000
unfolding lane
lane-word h [] b = b
lane-word h (c ∷ cs) b = lane-word (mix h c) cs (omega arith)

lanes-digits :
    (input seeds : List ℕ)
    → All (λ seed. seed < 0x100000000) seeds
    → length (flat_map (λ seed. hex 8 (lane seed input)) seeds) ≡ 8 * length seeds
      × all is_hex_code (flat_map (λ seed. hex 8 (lane seed input)) seeds) ≡ true
lanes-digits input [] b = (omega arith, refl)
lanes-digits input (seed ∷ rest) (b, bs) =
    let h = hex-digits (lane seed input) (lane-word seed input b) in
    let ih = lanes-digits input rest bs in
    (
      omega (
        arith,
        length-append (hex 8 (lane seed input)) (flat_map (λ seed. hex 8 (lane seed input)) rest),
        h.0,
        ih.0,
      ),
      all-append (hex 8 (lane seed input)) _ h.1 ih.1,
    )

-- The hash of a diff is 64 hexadecimal digits in lower case, whatever the diff.
pub diff_sha256-digits :
    (input : List ℕ) → length (diff_sha256 input) ≡ 64 × all is_hex_code (diff_sha256 input) ≡ true
unfolding diff_sha256
diff_sha256-digits input = lanes-digits input seeds (
  omega arith,
  (
    omega arith,
    (omega arith, (omega arith, (omega arith, (omega arith, (omega arith, (omega arith, tt)))))),
  ),
)
