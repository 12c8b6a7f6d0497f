-- ===== src/Pattern/Events.antt =====
-- Observed events (packages/contracts/src/pattern.ts, packages/pattern-engine/src/segmentation.ts).
-- `parse` stands for Date.parse, in milliseconds.
use maman_agent.Prelude.{
  ℕ, ◌-◌, ltb, leb, ◌==◌, Bool, true, false, ◌||◌, String, ◌===◌, codes, Option, none, some, List,
  [], ◌∷◌, ◌++◌, if◌then◌else◌, ◌*◌,
}

pub data Sensitivity : Type 0 where
  public internal confidential restricted : Sensitivity

-- `PatternFeatureEvent`, the fields that are read.
pub record FeatureEvent : Type 0 where
  pub event_id : String
  pub occurred_at : String
  pub monotonic_ms : ℕ
  pub source : String
  pub app_category : String
  pub event_type : String
  pub target_role : Option String
  pub semantic_type : Option String
  pub object_type : Option String
  pub duration_ms : Option ℕ
  pub sensitivity : Sensitivity
  pub excluded_from_learning : Bool

abbrev pub derived_duration_cap_ms : ℕ
derived_duration_cap_ms = 30 * 1000

abbrev pub derived_trailing_ms : ℕ
derived_trailing_ms = 1000

-- `SENSITIVITY_ORDER.indexOf`.
abbrev pub sensitivity_order : Sensitivity → ℕ
sensitivity_order public = 0
sensitivity_order internal = 1
sensitivity_order confidential = 2
sensitivity_order restricted = 3

abbrev pub max_sensitivity : Sensitivity → Sensitivity → Sensitivity
max_sensitivity a b = if leb (sensitivity_order b) (sensitivity_order a) then a else b

abbrev or_dash : Option String → List ℕ
or_dash none = codes "-"
or_dash (some s) = codes s

-- `canonicalToken`, as code points.
unfoldable pub canonical_token : FeatureEvent → List ℕ
canonical_token e =
    codes e.source
    ++ codes ":"
    ++ codes e.app_category
    ++ codes ":"
    ++ codes e.event_type
    ++ codes ":"
    ++ or_dash e.target_role
    ++ codes ":"
    ++ or_dash e.semantic_type
    ++ codes ":"
    ++ or_dash e.object_type

unfoldable pub is_boundary_event : FeatureEvent → Bool
is_boundary_event e = e.event_type === "idle_started" || e.event_type === "boundary_redacted"

-- `a < b` on strings.
unfoldable pub precedes : List ℕ → List ℕ → Bool
precedes [] [] = false
precedes [] (_ ∷ _) = true
precedes (_ ∷ _) [] = false
precedes (a ∷ as_) (b ∷ bs) = if a == b then precedes as_ bs else ltb a b

-- The comparison of the sort is not positive.
abbrev pub in_order : FeatureEvent → FeatureEvent → Bool
in_order a b =
    if a.occurred_at === b.occurred_at
    then leb a.monotonic_ms b.monotonic_ms
    else precedes (codes a.occurred_at) (codes b.occurred_at)

unfoldable pub insert_event : FeatureEvent → List FeatureEvent → List FeatureEvent
insert_event e [] = e ∷ []
insert_event e (x ∷ xs) =
    let later = x ∷ insert_event e xs in if in_order e x then e ∷ x ∷ xs else later

unfoldable pub sort_events : List FeatureEvent → List FeatureEvent
sort_events [] = []
sort_events (e ∷ es) = insert_event e (sort_events es)

abbrev min : ℕ → ℕ → ℕ
min a b = if ltb b a then b else a

module _ (parse : String → ℕ) where
  -- The time to the next event, at most the cap.
  unfoldable pub derived_ms : FeatureEvent → List FeatureEvent → ℕ
  derived_ms e [] = derived_trailing_ms
  derived_ms e (next ∷ _) =
      min (parse next.occurred_at - parse e.occurred_at) derived_duration_cap_ms

  unfoldable pub derive_durations : List FeatureEvent → List (String × ℕ)
  derive_durations [] = []
  derive_durations (e ∷ es) =
      let rest = derive_durations es in
      elim e.duration_ms [ some _ ↦ rest | none ↦ (e.event_id, derived_ms e es) ∷ rest ]

-- The last entry for an id is the one that `set` leaves.
unfoldable pub lookup_derived : String → List (String × ℕ) → Option ℕ
lookup_derived id [] = none
lookup_derived id ((j, ms) ∷ rest) = elim (lookup_derived id rest) [
  | some later ↦ some later
  | none ↦ if j === id then some ms else none
]

-- `e.duration_ms ?? derivedDurations.get(e.event_id) ?? 0`.
unfoldable pub active_ms : List (String × ℕ) → FeatureEvent → ℕ
active_ms derived e = elim e.duration_ms [
  | some ms ↦ ms
  | none ↦ elim (lookup_derived e.event_id derived) [ some ms ↦ ms | none ↦ 0 ]
]
