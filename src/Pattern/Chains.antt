-- ===== src/Pattern/Chains.antt =====
-- The events of a group follow each other closely (packages/pattern-engine/src/segmentation.ts,
-- `segmentEpisodes`).
use maman_agent.Prelude.{
  ◌⊎◌, inl, inr, sym, ℕ, ◌≡◌, Bool, true, false, ◌++◌, ◌∷◌, [], List, Option, some, none, String,
  refl, is_empty, Bool-cases, All, All-append, ◌&&◌, leb, length,
}
use maman_agent.Pattern.Segment.{
  Open, flush, SegmentationOptions, close_if, split_on_gap, split_on_family, add_event, on_boundary,
  take_events, closed_groups, is_far, differs, take_event, nothing_open,
  object_family_switch_min_events, split_on_restart,
}
use maman_agent.Pattern.Events.{FeatureEvent, is_boundary_event}
use maman_agent.Pattern.Partition.{flush_empty}
use mathlib.Core.Path.{subst}

module _ (parse : String → ℕ) (o : SegmentationOptions) where
  -- No event is far from the one before it.
  unfoldable pub IsTight : List FeatureEvent → Type 0
  IsTight [] = Unit
  IsTight (e ∷ []) = Unit
  IsTight (e ∷ x ∷ xs) = is_far parse o (some (parse e.occurred_at)) x ≡ false × IsTight (x ∷ xs)

  -- The time of the last event, if there is one, is the one that the loop compares with.
  unfoldable IsTimed : List FeatureEvent → Option ℕ → Type 0
  IsTimed [] t = Unit
  IsTimed (e ∷ []) t = t ≡ some (parse e.occurred_at)
  IsTimed (e ∷ x ∷ xs) t = IsTimed (x ∷ xs) t

  IsTight-snoc :
      (xs : List FeatureEvent) (e : FeatureEvent) (t : Option ℕ)
      → IsTight xs
      → IsTimed xs t
      → is_far parse o t e ≡ false
      → IsTight (xs ++ e ∷ [])
  unfolding IsTight IsTimed
  IsTight-snoc [] e t h k f = tt
  IsTight-snoc (x ∷ []) e t h k f = (subst (λ l. is_far parse o l e ≡ false) k f, tt)
  IsTight-snoc (x ∷ y ∷ ys) e t (p, h) k f = (p, IsTight-snoc (y ∷ ys) e t h k f)

  IsTimed-snoc :
      (xs : List FeatureEvent) (e : FeatureEvent)
      → IsTimed (xs ++ e ∷ []) (some (parse e.occurred_at))
  unfolding IsTimed
  IsTimed-snoc [] e = refl
  IsTimed-snoc (x ∷ []) e = refl
  IsTimed-snoc (x ∷ y ∷ ys) e = IsTimed-snoc (y ∷ ys) e

  -- What holds between two events of the loop.
  record IsClose (g : Open) : Type 0 where
    groups : All IsTight g.closed
    current : IsTight g.current
    timed : IsTimed g.current g.last_time

  -- The event can be added to the open group.
  CanFollow : Open → FeatureEvent → Type 0
  CanFollow g e = (g.current ≡ []) ⊎ (is_far parse o g.last_time e ≡ false)

  Ready : Open → FeatureEvent → Type 0
  Ready g e = IsClose g × CanFollow g e

  flush-IsClose : (g : Open) → IsClose g → IsClose (flush g)
  unfolding flush IsTight IsTimed
  flush-IsClose g h = elim (Bool-cases (is_empty g.current)) [
    | inl e ↦ rw e h
    | inr e ↦ rw e (record {
      groups = All-append IsTight g.closed (g.current ∷ []) h.groups (h.current, tt);
      current = tt;
      timed = tt;
    })
  ]

  close_if-IsClose : (b : Bool) (g : Open) → IsClose g → IsClose (close_if b g)
  close_if-IsClose true g h =
      let k = flush-IsClose g h in
      record { groups = k.groups; current = k.current; timed = k.timed }
  close_if-IsClose false g h = h

  split_on_gap-Ready :
      (e : FeatureEvent) (g : Open) → IsClose g → Ready (split_on_gap parse o e g) e
  unfolding split_on_gap Ready CanFollow
  split_on_gap-Ready e g h = elim (Bool-cases (is_far parse o g.last_time e)) [
    | inl f ↦ rw f (close_if-IsClose true g h, inl (flush_empty g))
    | inr f ↦ rw f (h, inr f)
  ]

  close_if-Ready : (b : Bool) (e : FeatureEvent) (g : Open) → Ready g e → Ready (close_if b g) e
  unfolding Ready CanFollow
  close_if-Ready true e g (h, f) = (close_if-IsClose true g h, inl (flush_empty g))
  close_if-Ready false e g r = r

  split_on_family-Ready : (e : FeatureEvent) (g : Open) → Ready g e → Ready (split_on_family e g) e
  unfolding Ready CanFollow split_on_family
  split_on_family-Ready e g (h, f) =
      elim (Bool-cases (
        differs e.object_type g.object_family
        && leb object_family_switch_min_events (length g.current))) [
          | inl d ↦ rw d (flush-IsClose g h, inl (flush_empty g))
          | inr d ↦ rw d (h, f)
        ]

  extended : (e : FeatureEvent) (g : Open) → Ready g e → IsTight (g.current ++ e ∷ [])
  unfolding Ready CanFollow IsTight
  extended e g (h, inl n) = subst (λ xs. IsTight (xs ++ e ∷ [])) (sym n) tt
  extended e g (h, inr f) = IsTight-snoc g.current e g.last_time h.current h.timed f

  add_event-IsClose : (e : FeatureEvent) (g : Open) → Ready g e → IsClose (add_event parse o e g)
  unfolding Ready add_event
  add_event-IsClose e g r = record {
    groups = r.0.groups;
    current = extended e g r;
    timed = IsTimed-snoc g.current e;
  }

  on_boundary-IsClose : (g : Open) → IsClose g → IsClose (on_boundary g)
  unfolding on_boundary IsTimed
  on_boundary-IsClose g h =
      let k = flush-IsClose g h in
      record {
        groups = k.groups;
        current = k.current;
        timed = subst (λ xs. IsTimed xs none) (sym (flush_empty g)) tt;
      }

  take_events-IsClose :
      (es : List FeatureEvent) (g : Open) → IsClose g → IsClose (take_events parse o es g)
  unfolding take_events take_event split_on_restart
  take_events-IsClose [] g h = h
  take_events-IsClose (e ∷ es) g h =
      take_events-IsClose es (take_event parse o e g) (elim (Bool-cases (is_boundary_event e)) [
        | inl b ↦ rw b (on_boundary-IsClose g h)
        | inr b ↦ rw b (
            add_event-IsClose e _
              (split_on_family-Ready e _ (close_if-Ready _ e _ (split_on_gap-Ready e g h))))
      ])

  -- Within each group of events that is closed, no event is more than the gap away from the one before it,
  -- and none leaves more inactivity unexplained than the boundary.
  pub closed_groups-IsTight :
      (sorted : List FeatureEvent) → All IsTight (closed_groups parse o sorted)
  unfolding closed_groups IsTight IsTimed
  closed_groups-IsTight sorted =
      (flush-IsClose (take_events parse o sorted nothing_open) (
        take_events-IsClose sorted nothing_open
          (record { groups = tt; current = tt; timed = tt }))).groups
