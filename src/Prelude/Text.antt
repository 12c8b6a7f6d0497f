-- ===== src/Prelude/Text.antt =====
-- Whole texts and the lists of texts that the program looks them up in.
use Prim.Native.Char.{code}
use Prim.Native.Nat.{ℕ, ◌+◌}
use Prim.Native.String.{String}
use mathlib.Core.Path.{◌≡◌, sym, refl}
use mathlib.Core.Bool.{Bool, true, false, ◌||◌, ◌&&◌}
use mathlib.Core.List.{List, [], ◌∷◌, ◌++◌, reverse, Memᴰ}
use text.Mathlib.Text.{◌==◌ as str_eq}
use text.Mathlib.TextEquality.{eq_iff}
use mathlib.Core.Logic.{inl, inr}
use native.Mathlib.Omega.{arith}
use maman_agent.Prelude.Tests.{Bool-cases, leb, ◌==◌, if◌then◌else◌}

-- JavaScript's `===` on strings.
infix 50 ◌===◌
abbrev pub ◌===◌ : String → String → Bool
s === t = str_eq s t

pub ===→≡ : (s t : String) → (s === t) ≡ true → s ≡ t
===→≡ s t h = (eq_iff s t).0 h

pub ≡→=== : (s t : String) → s ≡ t → (s === t) ≡ true
≡→=== s t h = (eq_iff s t).1 h

-- `list.includes(s)` on a list of strings.
abbrev pub includes : List String → String → Bool
includes [] s = false
includes (t ∷ ts) s = t === s || includes ts s

pub includes→mem : (ts : List String) (s : String) → includes ts s ≡ true → Memᴰ s ts
includes→mem (t ∷ ts) s h = elim (Bool-cases (t === s)) [
  | inl e ↦ Memᴰ.head (sym (===→≡ t s e))
  | inr e ↦ Memᴰ.tail (includes→mem ts s (ground arith))
]
includes→mem [] s h = absurd (ground arith)

-- The code points of a text, and ASCII lower case.
abbrev pub codes : String → List ℕ
codes String.[] = []
codes (String.◌∷◌ c s) = code c ∷ codes s

abbrev pub lower_code : ℕ → ℕ
lower_code c = if leb b'A' c && leb c b'Z' then c + 32 else c

abbrev pub lower_codes : List ℕ → List ℕ
lower_codes [] = []
lower_codes (c ∷ cs) = lower_code c ∷ lower_codes cs

abbrev pub same_codes : List ℕ → List ℕ → Bool
same_codes [] [] = true
same_codes (a ∷ as_) (b ∷ bs) = a == b && same_codes as_ bs
same_codes _ _ = false

pub same_codes_refl : (as_ : List ℕ) → same_codes as_ as_ ≡ true
same_codes_refl [] = refl
same_codes_refl (a ∷ as_) = ground (arith, same_codes_refl as_)

pub same_codes_comm : (as_ bs : List ℕ) → same_codes as_ bs ≡ same_codes bs as_
same_codes_comm [] [] = refl
same_codes_comm [] (b ∷ bs) = refl
same_codes_comm (a ∷ as_) [] = refl
same_codes_comm (a ∷ as_) (b ∷ bs) = ground (arith, same_codes_comm as_ bs)

pub same_codes→≡ : (xs ys : List ℕ) → same_codes xs ys ≡ true → xs ≡ ys
same_codes→≡ [] [] h = refl
same_codes→≡ (x ∷ xs) (y ∷ ys) h =
    let ih = same_codes→≡ xs ys (ground arith) in let same : x ≡ y = ground arith in cc
same_codes→≡ [] (y ∷ ys) h = absurd (ground arith)
same_codes→≡ (x ∷ xs) [] h = absurd (ground arith)

-- `text.startsWith(part)` and `text.includes(part)`.
abbrev pub has_prefix : List ℕ → List ℕ → Bool
has_prefix text [] = true
has_prefix [] (_ ∷ _) = false
has_prefix (a ∷ text) (b ∷ part) = a == b && has_prefix text part

abbrev pub contains : List ℕ → List ℕ → Bool
contains [] part = has_prefix [] part
contains (c ∷ text) part = has_prefix (c ∷ text) part || contains text part

has_prefix-append : (part rest : List ℕ) → has_prefix (part ++ rest) part ≡ true
has_prefix-append [] rest = refl
has_prefix-append (c ∷ part) rest = ground (arith, has_prefix-append part rest)

-- A text with the part anywhere inside contains it.
pub contains-append : (before part after : List ℕ) → contains (before ++ part ++ after) part ≡ true
contains-append [] [] [] = refl
contains-append [] [] (c ∷ after) = refl
contains-append [] (c ∷ part) after = ground (arith, has_prefix-append part after)
contains-append (c ∷ before) part after = ground (arith, contains-append before part after)

-- The white space that `trim` removes, as code points.
abbrev pub is_space : ℕ → Bool
is_space c =
    (leb 9 c && leb c 13)
    || c == 32
    || c == 160
    || c == 5760
    || (leb 8192 c && leb c 8202)
    || c == 8232
    || c == 8233
    || c == 8239
    || c == 8287
    || c == 12288
    || c == 65279

abbrev pub trim_start : List ℕ → List ℕ
trim_start [] = []
trim_start (c ∷ cs) = let rest = trim_start cs in if is_space c then rest else c ∷ cs

-- `text.trim()`.
abbrev pub trim : List ℕ → List ℕ
trim cs = reverse (trim_start (reverse (trim_start cs)))

-- `text.trim() === ""`.
abbrev pub is_blank : String → Bool
is_blank s = same_codes (trim_start (codes s)) []
