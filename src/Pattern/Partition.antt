-- ===== src/Pattern/Partition.antt =====
-- No event is lost or moved (packages/pattern-engine/src/segmentation.ts, `segmentEpisodes`).
use maman_agent.Prelude.{
  ℕ, ◌≡◌, Bool, true, false, not, ◌++◌, ◌∷◌, [], List, String, refl, filter, flat_map, is_empty,
  Bool-cases, sym, ◌∙◌, ap, inl, inr, List-cases, filter-append, ◌&&◌, leb, length,
}
use maman_agent.Pattern.Segment.{
  Open, flush, close_if, SegmentationOptions, split_on_family, take_event, take_events,
  closed_groups, differs, on_boundary, nothing_open, add_event, split_on_gap,
  object_family_switch_min_events, split_on_restart, is_far,
}
use maman_agent.Pattern.Events.{FeatureEvent, is_boundary_event}

abbrev pub is_work : FeatureEvent → Bool
is_work e = not (is_boundary_event e)

-- The events that were taken so far, in their order.
abbrev pub taken : Open → List FeatureEvent
taken g = flat_map (λ x. x) g.closed ++ g.current

append_assoc {ℓ} : {A : Type ℓ} (xs ys zs : List A) → (xs ++ ys) ++ zs ≡ xs ++ (ys ++ zs)
append_assoc [] ys zs = refl
append_assoc (x ∷ xs) ys zs = ap (λ l. x ∷ l) (append_assoc xs ys zs)

append_nil {ℓ} : {A : Type ℓ} (xs : List A) → xs ++ [] ≡ xs
append_nil [] = refl
append_nil (x ∷ xs) = ap (λ l. x ∷ l) (append_nil xs)

flat_map-snoc {ℓ} :
    {A : Type ℓ} (gs : List (List A)) (g : List A)
    → flat_map (λ x. x) (gs ++ g ∷ []) ≡ flat_map (λ x. x) gs ++ g
flat_map-snoc [] g = append_nil g
flat_map-snoc (h ∷ gs) g =
    ap (λ l. h ++ l) (flat_map-snoc gs g) ∙ sym (append_assoc h (flat_map (λ x. x) gs) g)

flush-taken : (g : Open) → taken (flush g) ≡ taken g
unfolding flush
flush-taken g = elim (Bool-cases (is_empty g.current)) [
  | inl e ↦ rw e refl
  | inr e ↦ rw e (append_nil _ ∙ flat_map-snoc g.closed g.current)
]

close_if-taken : (b : Bool) (g : Open) → taken (close_if b g) ≡ taken g
close_if-taken true g = flush-taken g
close_if-taken false g = refl

pub flush_empty : (g : Open) → (flush g).current ≡ []
unfolding flush
flush_empty g = elim (List-cases g.current) [ inl e ↦ rw e refl | inr (x, rest, e) ↦ rw e refl ]

module _ (parse : String → ℕ) (o : SegmentationOptions) where
  split_on_family-taken : (e : FeatureEvent) (g : Open) → taken (split_on_family e g) ≡ taken g
  unfolding split_on_family
  split_on_family-taken e g =
      elim (Bool-cases (
        differs e.object_type g.object_family
        && leb object_family_switch_min_events (length g.current))) [
          | inl h ↦ rw h (flush-taken g)
          | inr h ↦ rw h refl
        ]

  take_event-taken :
      (e : FeatureEvent) (g : Open)
      → taken (take_event parse o e g) ≡ taken g ++ filter is_work (e ∷ [])
  unfolding take_event on_boundary add_event split_on_gap split_on_restart
  take_event-taken e g = elim (Bool-cases (is_boundary_event e)) [
    | inl h ↦ rw h (flush-taken g ∙ sym (append_nil (taken g)))
    | inr h ↦ rw h (
        sym (
          append_assoc
            (flat_map (λ x. x)
              (split_on_family e (split_on_restart parse o e (split_on_gap parse o e g))).closed)
            _ (e ∷ []))
        ∙ ap (λ l. l ++ e ∷ [])
            (split_on_family-taken e (split_on_restart parse o e (split_on_gap parse o e g))
              ∙ close_if-taken _ (split_on_gap parse o e g)
              ∙ close_if-taken (is_far parse o g.last_time e) g))
  ]

  take_events-taken :
      (es : List FeatureEvent) (g : Open)
      → taken (take_events parse o es g) ≡ taken g ++ filter is_work es
  unfolding take_events
  take_events-taken [] g = sym (append_nil (taken g))
  take_events-taken (e ∷ es) g =
      take_events-taken es (take_event parse o e g)
      ∙ ap (λ l. l ++ filter is_work es) (take_event-taken e g)
      ∙ append_assoc (taken g) (filter is_work (e ∷ [])) (filter is_work es)
      ∙ ap (λ l. taken g ++ l) (sym (filter-append is_work (e ∷ []) es))

  -- The groups of events that are closed, one after another, are the events that are no boundaries, each once
  -- and in their order.
  pub closed_groups-partition :
      (sorted : List FeatureEvent)
      → flat_map (λ g. g) (closed_groups parse o sorted) ≡ filter is_work sorted
  unfolding closed_groups
  closed_groups-partition sorted =
      let g = take_events parse o sorted nothing_open in
      sym (append_nil (flat_map (λ x. x) (flush g).closed))
      ∙ ap (λ l. flat_map (λ x. x) (flush g).closed ++ l) (sym (flush_empty g))
      ∙ flush-taken g
      ∙ take_events-taken sorted nothing_open
