-- ===== src/Validator/Cron.antt =====
-- The least interval of a cron expression (packages/agent-runtime/src/validator.ts,
-- `minCronIntervalMinutes`). A negative interval, which values above 59 can give, is 0.
use maman_agent.Prelude.{
  ℕ, ◌+◌, ◌-◌, ◌*◌, ◌≤◌, ◌<◌, ◌≡◌, refl, arith, Bool, true, false, ◌&&◌, not, ◌==◌, if◌then◌else◌,
  String, codes, is_space, trim, same_codes, all, is_empty, List, [], ◌∷◌, map, Option, none, some,
  sort_by, min, IsSortedBy, sort_by-IsSortedBy, Memᴰ, mem-sort_by,
}
use maman_agent.Validator.Regex.{is_digit}

abbrev extend_word : ℕ → List (List ℕ) → List (List ℕ)
extend_word c [] = (c ∷ []) ∷ []
extend_word c (w ∷ ws) = (c ∷ w) ∷ ws

abbrev ends_word : List ℕ → Bool
ends_word [] = true
ends_word (c ∷ cs) = is_space c

-- `text.split(/\s+/)` of a trimmed text that is not empty.
abbrev words : List ℕ → List (List ℕ)
words [] = []
words (c ∷ cs) =
    let rest = words cs in
    if is_space c then rest else if ends_word cs then (c ∷ []) ∷ rest else extend_word c rest

abbrev split_comma : List ℕ → List (List ℕ)
split_comma [] = [] ∷ []
split_comma (c ∷ cs) =
    let rest = split_comma cs in if c == b',' then [] ∷ rest else extend_word c rest

-- `/^\d+$/`
abbrev is_number : List ℕ → Bool
is_number ds = not (is_empty ds) && all is_digit ds

abbrev number_from : ℕ → List ℕ → ℕ
number_from n [] = n
number_from n (d ∷ ds) = number_from (n * 10 + (d - b'0')) ds

abbrev last_of : ℕ → List ℕ → ℕ
last_of x [] = x
last_of x (y ∷ ys) = last_of y ys

abbrev least_gap : ℕ → ℕ → List ℕ → ℕ
least_gap least x [] = least
least_gap least x (y ∷ ys) = least_gap (min least (y - x)) y ys

abbrev sorted_interval : List ℕ → Option ℕ
sorted_interval [] = none
sorted_interval (x ∷ xs) = some (least_gap (60 + x - last_of x xs) x xs)

unfoldable pub list_interval : List ℕ → Option ℕ
list_interval values = sorted_interval (sort_by (λ v. v) values)

abbrev at_least_two : List (List ℕ) → Bool
at_least_two (x ∷ y ∷ xs) = true
at_least_two _ = false

abbrev plain_interval : List ℕ → Option ℕ
plain_interval minute =
    let fields = split_comma minute in
    if is_number minute
    then some 60
    else if at_least_two fields && all is_number fields
    then list_interval (map (number_from 0) fields)
    else none

abbrev after_star_slash : List ℕ → Option (List ℕ)
after_star_slash (a ∷ b ∷ ds) = if a == b'*' && b == b'/' then some ds else none
after_star_slash _ = none

abbrev step_interval : Option (List ℕ) → List ℕ → Option ℕ
step_interval none minute = plain_interval minute
step_interval (some ds) minute =
    if is_number ds then some (number_from 0 ds) else plain_interval minute

abbrev minute_interval : List ℕ → Option ℕ
minute_interval minute =
    if same_codes minute (b'*' ∷ []) then some 1 else step_interval (after_star_slash minute) minute

abbrev minute_of : List (List ℕ) → Option (List ℕ)
minute_of (m ∷ _ ∷ _ ∷ _ ∷ _ ∷ []) = some m
minute_of _ = none

abbrev field_interval : Option (List ℕ) → Option ℕ
field_interval none = none
field_interval (some minute) = minute_interval minute

unfoldable pub min_cron_interval_minutes : String → Option ℕ
unfolding list_interval
min_cron_interval_minutes cron = field_interval (minute_of (words (trim (codes cron))))

least_gap-le : (least x : ℕ) (xs : List ℕ) → least_gap least x xs ≤ least
least_gap-le least x [] = omega arith
least_gap-le least x (y ∷ ys) = omega (arith, least_gap-le (min least (y - x)) y ys)

-- In a sorted list every value is at least the first and at most the last one.
sorted_bounds :
    (x v : ℕ) (xs : List ℕ)
    → IsSortedBy (λ v. v) (x ∷ xs)
    → Memᴰ v (x ∷ xs)
    → (x ≤ v) × (v ≤ last_of x xs)
sorted_bounds x v [] s (Memᴰ.head e) = (omega arith, omega arith)
sorted_bounds x v [] s (Memᴰ.tail m) = elim m [ ]
sorted_bounds x v (y ∷ ys) (h, s) (Memᴰ.head e) =
    let (low, high) = sorted_bounds y y ys s (Memᴰ.head refl) in (omega arith, omega arith)
sorted_bounds x v (y ∷ ys) (h, s) (Memᴰ.tail m) =
    let (low, high) = sorted_bounds y v ys s m in (omega arith, high)

least_gap-between :
    (least x v w : ℕ) (xs : List ℕ)
    → IsSortedBy (λ v. v) (x ∷ xs)
    → Memᴰ v (x ∷ xs)
    → Memᴰ w (x ∷ xs)
    → v < w
    → v + least_gap least x xs ≤ w
least_gap-between least x v w [] s (Memᴰ.head e) (Memᴰ.head f) h = absurd (omega arith)
least_gap-between least x v w [] s (Memᴰ.head e) (Memᴰ.tail m) h = elim m [ ]
least_gap-between least x v w [] s (Memᴰ.tail m) k h = elim m [ ]
least_gap-between least x v w (y ∷ ys) (o, s) (Memᴰ.head e) (Memᴰ.head f) h = absurd (omega arith)
least_gap-between least x v w (y ∷ ys) (o, s) (Memᴰ.head e) (Memᴰ.tail m) h =
    let (low, high) = sorted_bounds y w ys s m in
    omega (arith, least_gap-le (min least (y - x)) y ys)
least_gap-between least x v w (y ∷ ys) (o, s) (Memᴰ.tail m) (Memᴰ.head f) h =
    let (low, high) = sorted_bounds y v ys s m in absurd (omega arith)
least_gap-between least x v w (y ∷ ys) (o, s) (Memᴰ.tail m) (Memᴰ.tail k) h =
    least_gap-between (min least (y - x)) y v w ys s m k h

sorted_interval-le :
    (v w i : ℕ) (xs : List ℕ)
    → IsSortedBy (λ v. v) xs
    → sorted_interval xs ≡ some i
    → Memᴰ v xs
    → Memᴰ w xs
    → v < w
    → (v + i ≤ w) × (i ≤ 60 + v - w)
sorted_interval-le v w i [] s e m k h = absurd (ground arith)
sorted_interval-le v w i (x ∷ xs) s e m k h =
    let wrap = 60 + x - last_of x xs in
    let same : least_gap wrap x xs ≡ i = cc in
    let (low, _) = sorted_bounds x v xs s m in
    let (_, high) = sorted_bounds x w xs s k in
    (omega (arith, least_gap-between wrap x v w xs s m k h), omega (arith, least_gap-le wrap x xs))

-- The interval of a list of minutes is at most the distance of any two of them, within an hour and
-- across its end.
pub list_interval-le :
    (values : List ℕ) (v w i : ℕ)
    → list_interval values ≡ some i
    → Memᴰ v values
    → Memᴰ w values
    → v < w
    → (v + i ≤ w) × (i ≤ 60 + v - w)
unfolding list_interval
list_interval-le values v w i e m k h =
    sorted_interval-le v w i (sort_by (λ v. v) values) (sort_by-IsSortedBy (λ v. v) values) e
      (mem-sort_by (λ v. v) v values m) (mem-sort_by (λ v. v) w values k) h
