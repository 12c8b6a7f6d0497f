-- ===== src/Pattern/Segment.antt =====
-- The loop that closes episodes (packages/pattern-engine/src/segmentation.ts, `segmentEpisodes`,
-- `buildEpisode`). The events of the episodes are closed first and built at the end, since a built
-- episode is never read by the loop. The id of an episode is left out.
use maman_agent.Prelude.{
  ℕ, ◌-◌, ltb, leb, Bool, false, ◌||◌, ◌&&◌, not, String, ◌===◌, same_codes, is_empty, Option, none,
  some, List, [], ◌∷◌, ◌++◌, length, if◌then◌else◌, ◌*◌, filter, includes, map, ◌+◌, any,
}
use maman_agent.Pattern.Events.{
  FeatureEvent, canonical_token, is_boundary_event, Sensitivity, active_ms, max_sensitivity,
  derive_durations, public, sort_events,
}

pub record SegmentationOptions : Type 0 where
  pub event_gap_boundary_ms : Option ℕ
  pub inactivity_boundary_ms : Option ℕ
  pub split_on_sequence_restart : Option Bool

abbrev or_default {ℓ} : {A : Type ℓ} → Option A → A → A
or_default (some a) d = a
or_default none d = d

abbrev pub gap_boundary : SegmentationOptions → ℕ
gap_boundary o = or_default o.event_gap_boundary_ms (10 * 60 * 1000)

abbrev pub inactivity_boundary : SegmentationOptions → ℕ
inactivity_boundary o = or_default o.inactivity_boundary_ms (5 * 60 * 1000)

abbrev splits_on_restart : SegmentationOptions → Bool
splits_on_restart o = or_default o.split_on_sequence_restart false

abbrev pub min_episode_events : ℕ
min_episode_events = 3

abbrev pub min_episode_active_ms : ℕ
min_episode_active_ms = 10 * 1000

abbrev pub object_family_switch_min_events : ℕ
object_family_switch_min_events = 3

-- The variables of the loop.
pub record Open : Type 0 where
  pub closed : List (List FeatureEvent)
  pub current : List FeatureEvent
  pub last_time : Option ℕ
  pub object_family : Option String

unfoldable pub flush : Open → Open
flush g =
    if is_empty g.current then g else record g { closed = g.closed ++ g.current ∷ []; current = [] }

-- `flush(); objectFamily = null`.
abbrev pub close_if : Bool → Open → Open
close_if b g = if b then record (flush g) { object_family = none } else g

-- The token of the first event of the episode recurs.
unfoldable pub recurs : FeatureEvent → List FeatureEvent → Bool
recurs e [] = false
recurs e (c ∷ _) = same_codes (canonical_token e) (canonical_token c)

-- The object's family is known, and another than the last one.
unfoldable pub differs : Option String → Option String → Bool
differs (some family) (some last) = not (family === last)
differs _ _ = false

abbrev or_last : Option String → Option String → Option String
or_last (some family) last = some family
or_last none last = last

unfoldable pub split_on_family : FeatureEvent → Open → Open
split_on_family e g =
    if differs e.object_type g.object_family
      && leb object_family_switch_min_events (length g.current)
    then flush g
    else g

unfoldable pub on_boundary : Open → Open
on_boundary g = record (flush g) { last_time = none; object_family = none }

abbrev pub nothing_open : Open
nothing_open = record { closed = []; current = []; last_time = none; object_family = none }

module _ (parse : String → ℕ) (o : SegmentationOptions) where
  -- A gap, or unexplained inactivity, since the time of the event before.
  unfoldable pub is_far : Option ℕ → FeatureEvent → Bool
  is_far none e = false
  is_far (some last) e =
      let gap = parse e.occurred_at - last in
      ltb (gap_boundary o) gap || ltb (inactivity_boundary o) (gap - or_default e.duration_ms 0)

  unfoldable pub split_on_gap : FeatureEvent → Open → Open
  split_on_gap e g = close_if (is_far g.last_time e) g

  unfoldable pub split_on_restart : FeatureEvent → Open → Open
  split_on_restart e g =
      close_if
        (splits_on_restart o && leb min_episode_events (length g.current) && recurs e g.current) g

  unfoldable pub add_event : FeatureEvent → Open → Open
  add_event e g = record g {
    current = g.current ++ e ∷ [];
    last_time = some (parse e.occurred_at);
    object_family = or_last e.object_type g.object_family;
  }

  unfoldable pub take_event : FeatureEvent → Open → Open
  take_event e g =
      if is_boundary_event e
      then on_boundary g
      else add_event e (split_on_family e (split_on_restart e (split_on_gap e g)))

  unfoldable pub take_events : List FeatureEvent → Open → Open
  take_events [] g = g
  take_events (e ∷ es) g = take_events es (take_event e g)

  unfoldable pub closed_groups : List FeatureEvent → List (List FeatureEvent)
  closed_groups sorted = (flush (take_events sorted nothing_open)).closed

pub record SegmentedEpisode : Type 0 where
  pub started_at : String
  pub ended_at : String
  pub active_duration_ms : ℕ
  pub events : List FeatureEvent
  pub canonical_tokens : List (List ℕ)
  pub app_categories : List String
  pub outcome_token : Option (List ℕ)
  pub sensitivity_max : Sensitivity
  pub excluded_from_learning : Bool

unfoldable pub sum_active : List (String × ℕ) → List FeatureEvent → ℕ
sum_active derived [] = 0
sum_active derived (e ∷ es) = active_ms derived e + sum_active derived es

-- `new Set(…)` keeps the first of equal texts.
unfoldable pub distinct : List String → List String
distinct [] = []
distinct (s ∷ ss) = s ∷ filter (λ t. not (t === s)) (distinct ss)

unfoldable pub last_meaningful_token : List FeatureEvent → Option (List ℕ)
last_meaningful_token [] = none
last_meaningful_token (e ∷ es) = elim (last_meaningful_token es) [
  | some later ↦ some later
  | none ↦
      if includes ("table_exported" ∷ "record_updated" ∷ "value_committed" ∷ []) e.event_type
      then some (canonical_token e)
      else none
]

unfoldable pub highest_sensitivity : Sensitivity → List FeatureEvent → Sensitivity
highest_sensitivity acc [] = acc
highest_sensitivity acc (e ∷ es) = highest_sensitivity (max_sensitivity acc e.sensitivity) es

unfoldable pub last_event : FeatureEvent → List FeatureEvent → FeatureEvent
last_event e [] = e
last_event e (x ∷ xs) = last_event x xs

abbrev pub episode : List (String × ℕ) → FeatureEvent → List FeatureEvent → SegmentedEpisode
episode derived first rest = record {
  started_at = first.occurred_at;
  ended_at = (last_event first rest).occurred_at;
  active_duration_ms = sum_active derived (first ∷ rest);
  events = first ∷ rest;
  canonical_tokens = map canonical_token (first ∷ rest);
  app_categories = distinct (map (λ e. e.app_category) (first ∷ rest));
  outcome_token = last_meaningful_token (first ∷ rest);
  sensitivity_max = highest_sensitivity public (first ∷ rest);
  excluded_from_learning = any (λ e. e.excluded_from_learning) (first ∷ rest);
}

-- `buildEpisode`.
unfoldable pub build_episode : List (String × ℕ) → List FeatureEvent → Option SegmentedEpisode
build_episode derived [] = none
build_episode derived (first ∷ rest) =
    if ltb (length (first ∷ rest)) min_episode_events
      || ltb (sum_active derived (first ∷ rest)) min_episode_active_ms
    then none
    else some (episode derived first rest)

abbrev pub add_episode : Option SegmentedEpisode → List SegmentedEpisode → List SegmentedEpisode
add_episode none rest = rest
add_episode (some e) rest = e ∷ rest

unfoldable pub build_episodes : List (String × ℕ) → List (List FeatureEvent) → List SegmentedEpisode
build_episodes derived [] = []
build_episodes derived (g ∷ gs) = add_episode (build_episode derived g) (build_episodes derived gs)

-- `segmentEpisodes`.
unfoldable pub segment_episodes :
    (parse : String → ℕ) → SegmentationOptions → List FeatureEvent → List SegmentedEpisode
segment_episodes parse o events =
    build_episodes (derive_durations parse (sort_events events))
      (closed_groups parse o (sort_events events))
