-- ===== src/Pattern/Examples.antt =====
-- Episodes of concrete events. The instants are written as their millisecond in a few digits.
use maman_agent.Prelude.{
  ℕ, ◌≡◌, ◌+◌, ◌*◌, ◌-◌, String, codes, false, none, List, [], ◌∷◌, All, refl, map,
}
use maman_agent.Pattern.Events.{
  FeatureEvent, internal, sort_events, insert_event, precedes, is_boundary_event, active_ms,
  canonical_token, derive_durations, derived_ms, lookup_derived,
}
use maman_agent.Pattern.Segment.{
  SegmentationOptions, closed_groups, segment_episodes, build_episodes, flush, take_events,
  take_event, add_event, split_on_family, differs, split_on_restart, split_on_gap, is_far,
  on_boundary, build_episode, distinct, highest_sensitivity, last_event, last_meaningful_token,
  recurs, sum_active,
}
use maman_agent.Pattern.Episodes.{IsEpisode, segment_episodes-IsEpisode}

digits_value : ℕ → List ℕ → ℕ
digits_value acc [] = acc
digits_value acc (c ∷ cs) = digits_value (10 * acc + (c - 48)) cs

abbrev parse : String → ℕ
parse s = digits_value 0 (codes s)

abbrev event : String → String → String → FeatureEvent
event id at type = record {
  event_id = id;
  occurred_at = at;
  monotonic_ms = 0;
  source = "ax";
  app_category = "crm";
  event_type = type;
  target_role = none;
  semantic_type = none;
  object_type = none;
  duration_ms = none;
  sensitivity = internal;
  excluded_from_learning = false;
}

-- Out of order, with an idle boundary.
abbrev observed : List FeatureEvent
observed =
    event "b" "010000" "value_committed"
    ∷ event "a" "000000" "click"
    ∷ event "c" "030000" "record_updated"
    ∷ event "d" "040000" "idle_started"
    ∷ event "e" "050000" "click"
    ∷ []

abbrev defaults : SegmentationOptions
defaults = record {
  event_gap_boundary_ms = none;
  inactivity_boundary_ms = none;
  split_on_sequence_restart = none;
}

one_episode :
    map (λ ep. ep.active_duration_ms) (segment_episodes parse defaults observed) ≡ 40000 ∷ []
unfolding segment_episodes build_episodes closed_groups flush take_events sort_events insert_event
    precedes take_event is_boundary_event add_event split_on_family differs split_on_restart
    split_on_gap is_far on_boundary active_ms canonical_token derive_durations derived_ms
    lookup_derived build_episode distinct highest_sensitivity last_event last_meaningful_token
    recurs sum_active digits_value
one_episode = refl

segment_episodes-IsEpisode_example :
    All (IsEpisode parse defaults observed) (segment_episodes parse defaults observed)
segment_episodes-IsEpisode_example = segment_episodes-IsEpisode parse defaults observed
