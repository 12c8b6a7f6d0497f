-- ===== src/Pattern/Episodes.antt =====
-- What an episode is (packages/pattern-engine/src/segmentation.ts, `buildEpisode`).
use maman_agent.Prelude.{
  ℕ, ◌≤◌, ◌≡◌, true, ◌++◌, ◌∷◌, [], List, Option, some, none, String, refl, Bool-cases, arith, All,
  Memᴰ, length, flat_map, filter, map, inl, inr, sym,
}
use maman_agent.Pattern.Segment.{
  SegmentationOptions, highest_sensitivity, SegmentedEpisode, closed_groups, build_episode,
  build_episodes, segment_episodes, min_episode_events, min_episode_active_ms, sum_active, episode,
  add_episode,
}
use maman_agent.Pattern.Events.{
  insert_event, sort_events, FeatureEvent, in_order, Sensitivity, sensitivity_order,
  max_sensitivity, derive_durations, canonical_token,
}
use maman_agent.Pattern.Partition.{is_work, closed_groups-partition}
use mathlib.Core.Path.{subst}
use maman_agent.Pattern.Chains.{IsTight, closed_groups-IsTight}

module _ (parse : String → ℕ) (o : SegmentationOptions) (input : List FeatureEvent) where
  -- A work event of the input.
  IsFrom : FeatureEvent → Type 0
  IsFrom e = Memᴰ e input × is_work e ≡ true

  -- An episode has at least three events and ten seconds of active time, which is the sum over its events. Each is a work
  -- event of the input, not far from the one before it, and not more sensitive than the episode.
  pub record IsEpisode (ep : SegmentedEpisode) : Type 0 where
    enough_events : min_episode_events ≤ length ep.events
    enough_time : min_episode_active_ms ≤ ep.active_duration_ms
    total :
        ep.active_duration_ms ≡ sum_active (derive_durations parse (sort_events input)) ep.events
    tight : IsTight parse o ep.events
    source : All IsFrom ep.events
    bounded :
        All (λ e. sensitivity_order e.sensitivity ≤ sensitivity_order ep.sensitivity_max) ep.events
    one_token_each : length ep.canonical_tokens ≡ length ep.events

module _ {ℓ} {A : Type ℓ} (P : A → Type 0) where
  All-flat : (gs : List (List A)) → All P (flat_map (λ g. g) gs) → All (All P) gs
  All-flat [] h = tt
  All-flat (g ∷ gs) h = (all_left g h, All-flat gs (all_right g h))
    where
      all_left : (xs : List A) → All P (xs ++ flat_map (λ g. g) gs) → All P xs
      all_left [] h = tt
      all_left (x ∷ xs) (p, h) = (p, all_left xs h)

      all_right : (xs : List A) → All P (xs ++ flat_map (λ g. g) gs) → All P (flat_map (λ g. g) gs)
      all_right [] h = h
      all_right (x ∷ xs) (p, h) = all_right xs h

insert_event-All :
    (P : FeatureEvent → Type 0) (e : FeatureEvent) (xs : List FeatureEvent)
    → P e
    → All P xs
    → All P (insert_event e xs)
unfolding insert_event
insert_event-All P e [] p h = (p, tt)
insert_event-All P e (x ∷ xs) p (q, h) = elim (Bool-cases (in_order e x)) [
  | inl b ↦ rw b (p, (q, h))
  | inr b ↦ rw b (q, insert_event-All P e xs p h)
]

sort_events-All :
    (P : FeatureEvent → Type 0) (es : List FeatureEvent) → All P es → All P (sort_events es)
unfolding sort_events
sort_events-All P [] h = tt
sort_events-All P (e ∷ es) (p, h) = insert_event-All P e (sort_events es) p (sort_events-All P es h)

All-from :
    (es input : List FeatureEvent)
    → ((e : FeatureEvent) → Memᴰ e es → Memᴰ e input)
    → All (λ e. Memᴰ e input) es
All-from [] input k = tt
All-from (e ∷ es) input k = (k e (Memᴰ.head refl), All-from es input (λ x m. k x (Memᴰ.tail m)))

filter_passes :
    (xs : List FeatureEvent) (P : FeatureEvent → Type 0)
    → All P xs
    → All (λ e. P e × is_work e ≡ true) (filter is_work xs)
filter_passes [] P h = tt
filter_passes (x ∷ xs) P (p, h) = elim (Bool-cases (is_work x)) [
  | inl b ↦ rw b ((p, b), filter_passes xs P h)
  | inr b ↦ rw b (filter_passes xs P h)
]

highest_sensitivity-ge :
    (acc : Sensitivity) (es : List FeatureEvent)
    → sensitivity_order acc ≤ sensitivity_order (highest_sensitivity acc es)
unfolding highest_sensitivity
highest_sensitivity-ge acc [] = omega arith
highest_sensitivity-ge acc (e ∷ es) =
    ground (arith, highest_sensitivity-ge (max_sensitivity acc e.sensitivity) es)

highest_sensitivity-bounds :
    (acc : Sensitivity) (es : List FeatureEvent)
    → All (λ e. sensitivity_order e.sensitivity ≤ sensitivity_order (highest_sensitivity acc es)) es
unfolding highest_sensitivity
highest_sensitivity-bounds acc [] = tt
highest_sensitivity-bounds acc (e ∷ es) =
    let top = highest_sensitivity-ge (max_sensitivity acc e.sensitivity) es in
    (ground (arith, top), highest_sensitivity-bounds (max_sensitivity acc e.sensitivity) es)

length-map {ℓ κ} :
    {A : Type ℓ} {B : Type κ} (f : A → B) (xs : List A) → length (map f xs) ≡ length xs
length-map f [] = refl
length-map f (x ∷ xs) = omega (arith, length-map f xs)

module _ (parse : String → ℕ) (o : SegmentationOptions) (input : List FeatureEvent) where
  closed_groups-IsFrom :
      All (All (IsFrom parse o input)) (closed_groups parse o (sort_events input))
  unfolding IsFrom
  closed_groups-IsFrom =
      All-flat (IsFrom parse o input) (closed_groups parse o (sort_events input)) (
        subst (All (IsFrom parse o input))
          (sym (closed_groups-partition parse o (sort_events input)))
          (filter_passes (sort_events input) (λ e. Memᴰ e input)
            (sort_events-All (λ e. Memᴰ e input) input (All-from input input (λ e m. m)))))

  build_episode-IsEpisode :
      (g : List FeatureEvent) (ep : SegmentedEpisode)
      → All (IsFrom parse o input) g
      → IsTight parse o g
      → build_episode (derive_durations parse (sort_events input)) g ≡ some ep
      → IsEpisode parse o input ep
  unfolding build_episode
  build_episode-IsEpisode [] ep f t e = ground arith
  build_episode-IsEpisode (x ∷ xs) ep f t e =
      let derived = derive_durations parse (sort_events input) in
      let same : episode derived x xs ≡ ep = ground arith in
      let enough : min_episode_events ≤ length (x ∷ xs) = ground arith in
      let long : min_episode_active_ms ≤ sum_active derived (x ∷ xs) = ground arith in
      subst (IsEpisode parse o input) same (record {
        enough_events = enough;
        enough_time = long;
        total = refl;
        tight = t;
        source = f;
        bounded = highest_sensitivity-bounds Sensitivity.public (x ∷ xs);
        one_token_each = length-map canonical_token (x ∷ xs);
      })

  build_episodes-All :
      (gs : List (List FeatureEvent))
      → All (All (IsFrom parse o input)) gs
      → All (IsTight parse o) gs
      → All
          (IsEpisode parse o input)
          (build_episodes (derive_durations parse (sort_events input)) gs)
  unfolding build_episodes
  build_episodes-All [] f t = tt
  build_episodes-All (g ∷ gs) (f, fs) (t, ts) =
      added (build_episode (derive_durations parse (sort_events input)) g)
        (build_episodes-All gs fs ts) (λ ep e. build_episode-IsEpisode g ep f t e)
    where
      added :
          (r : Option SegmentedEpisode)
          → All
              (IsEpisode parse o input)
              (build_episodes (derive_durations parse (sort_events input)) gs)
          → ((ep : SegmentedEpisode) → r ≡ some ep → IsEpisode parse o input ep)
          → All
              (IsEpisode parse o input)
              (add_episode r (build_episodes (derive_durations parse (sort_events input)) gs))
      added none rest k = rest
      added (some ep) rest k = (k ep refl, rest)

  -- Every episode has at least three events and ten seconds of active time, which is the sum over its events; each
  -- is a work event of the input, neither far from the one before it nor more sensitive than the episode is said to be.
  pub segment_episodes-IsEpisode : All (IsEpisode parse o input) (segment_episodes parse o input)
  unfolding segment_episodes
  segment_episodes-IsEpisode =
      build_episodes-All (closed_groups parse o (sort_events input)) closed_groups-IsFrom
        (closed_groups-IsTight parse o (sort_events input))
