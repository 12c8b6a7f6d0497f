-- ===== src/Validator/Regex.antt =====
-- Regular expressions as the program uses them in `test`: classes of characters, sequences,
-- alternatives, repetitions, and word boundaries at the ends. Texts are code points.
use maman_agent.Prelude.{
  ℕ, zero, suc, Bool, true, false, ◌&&◌, ◌||◌, not, leb, ◌==◌, if◌then◌else◌, List, [], ◌∷◌, Option,
  none, some,
}

pub data Regex : Type 0 where
  never empty : Regex
  one : (ℕ → Bool) → Regex
  seq alt : Regex → Regex → Regex
  many : Regex → Regex

abbrev nullable : Regex → Bool
nullable never = false
nullable empty = true
nullable (one p) = false
nullable (seq r s) = nullable r && nullable s
nullable (alt r s) = nullable r || nullable s
nullable (many r) = true

-- What is left to match after one character.
abbrev derivative : ℕ → Regex → Regex
derivative c never = never
derivative c empty = never
derivative c (one p) = if p c then empty else never
derivative c (seq r s) =
    let first = seq (derivative c r) s in
    let second = derivative c s in if nullable r then alt first second else first
derivative c (alt r s) = alt (derivative c r) (derivative c s)
derivative c (many r) = seq (derivative c r) (many r)

-- An expression that may ask for a word boundary `\b` before and after it.
pub record Pattern : Type 0 where
  pub before : Bool
  pub body : Regex
  pub after : Bool

abbrev pub is_digit : ℕ → Bool
is_digit c = leb b'0' c && leb c b'9'

abbrev pub is_upper : ℕ → Bool
is_upper c = leb b'A' c && leb c b'Z'

abbrev pub is_alnum : ℕ → Bool
is_alnum c = is_digit c || is_upper c || leb b'a' c && leb c b'z'

-- `\w`
abbrev pub is_word : ℕ → Bool
is_word c = is_alnum c || c == b'_'

abbrev is_word_at : Option ℕ → Bool
is_word_at none = false
is_word_at (some c) = is_word c

abbrev first_of : List ℕ → Option ℕ
first_of [] = none
first_of (c ∷ cs) = some c

abbrev at_boundary : Option ℕ → List ℕ → Bool
at_boundary previous rest =
    if is_word_at previous then not (is_word_at (first_of rest)) else is_word_at (first_of rest)

-- Some prefix of the text matches, and ends where the pattern may end.
abbrev matches_prefix : Bool → Option ℕ → Regex → List ℕ → Bool
matches_prefix after previous r [] = nullable r && (not after || at_boundary previous [])
matches_prefix after previous r (c ∷ cs) =
    nullable r && (not after || at_boundary previous (c ∷ cs))
    || matches_prefix after (some c) (derivative c r) cs

abbrev pub starts_with : Pattern → Option ℕ → List ℕ → Bool
starts_with p previous cs =
    (not p.before || at_boundary previous cs) && matches_prefix p.after previous p.body cs

-- `pattern.test(text)`: a match starts somewhere.
abbrev pub search_from : Pattern → Option ℕ → List ℕ → Bool
search_from p previous [] = starts_with p previous []
search_from p previous (c ∷ cs) = starts_with p previous (c ∷ cs) || search_from p (some c) cs

abbrev pub word : List ℕ → Regex
word [] = empty
word (c ∷ cs) = seq (one (λ d. d == c)) (word cs)

abbrev pub times : ℕ → Regex → Regex
times zero r = empty
times (suc n) r = seq r (times n r)

abbrev pub at_least : ℕ → Regex → Regex
at_least n r = seq (times n r) (many r)

abbrev pub maybe : Regex → Regex
maybe r = alt empty r
