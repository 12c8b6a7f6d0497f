-- ===== src/Router/Laws.antt =====
-- What a route promises (packages/capability-router/src/router.ts).
use maman_agent.Prelude.{
  ◌≡◌, ◌≤◌, true, false, ◌===◌, includes, none, List, Memᴰ, filter, filter-mem, sort_by-mem, any,
  is_empty, refl, arith, All, map, ◌∷◌, sym, [], ◌↔◌, List-cases, filter-nil_iff, sort_by-nil, ap,
  sort_by, inl, inr, Bool, if◌then◌else◌,
}
use mathlib.Core.Path.{subst}
use maman_agent.Router.Types.{
  api, browser_extension, macos_accessibility, teach_mode, CapabilitySource, CapabilityAvailability,
  StepOutcome, RoutingPolicy, ExecutionRoute, routed, ask_user, stop_and_ask_user, independent_read,
}
use maman_agent.Router.Route.{
  same_source, obstacle, status_obstacle, grant_obstacle, lane_obstacle, browser_obstacle,
  is_candidate, candidates, missing, is_critical, sort_rank, route_to, route_step, first_route,
}

-- The conditions on an offer to take the step.
pub record IsEligible (a : CapabilityAvailability) (outcome : StepOutcome) (policy : RoutingPolicy)
    : Type 0 where
  usable : status_obstacle a.status ≡ none
  scoped : same_source a.source api ≡ true → is_empty (missing a outcome) ≡ true
  source_free : any (same_source a.source) policy.blocked_sources ≡ false
  capability_free : includes policy.blocked_capabilities a.capability_id ≡ false
  affordable : a.estimated_cost_usd ≤ policy.max_step_cost_usd
  reads_only : outcome.consequential ≡ true → same_source a.source macos_accessibility ≡ false
  taught : same_source a.source teach_mode ≡ true → outcome.teach_mode_active ≡ true
  supervised :
      outcome.consequential ≡ true
      → same_source a.source browser_extension ≡ true
      → (policy.allow_supervised_browser_writes ≡ true)
        × (outcome.user_present ≡ true)
        × (a.requires_approval ≡ true)
  not_critical : is_critical a.risk_level ≡ false

obstacle-none :
    (a : CapabilityAvailability) (outcome : StepOutcome) (policy : RoutingPolicy)
    → obstacle a outcome policy ≡ none
    → IsEligible a outcome policy
unfolding obstacle grant_obstacle lane_obstacle browser_obstacle
obstacle-none a outcome policy h = ground arith

module _ (outcome : StepOutcome) (policy : RoutingPolicy) where
  pub candidates-mem :
      (a : CapabilityAvailability) (offers : List CapabilityAvailability)
      → Memᴰ a (candidates outcome offers policy)
      → Memᴰ a offers × (is_candidate outcome policy a ≡ true)
  unfolding candidates
  candidates-mem a offers m =
      filter-mem (is_candidate outcome policy) a offers
        (sort_by-mem (sort_rank outcome) a (filter (is_candidate outcome policy) offers) m)

  -- A source that some eligible offer for the step's capability has.
  abbrev pub IsLane : List CapabilityAvailability → CapabilitySource → Type 0
  IsLane offers s =
      (a : CapabilityAvailability) × Memᴰ a offers
      × ((a.capability_id === outcome.capability_id) ≡ true)
      × (a.source ≡ s)
      × IsEligible a outcome policy

  candidate-IsLane :
      (a : CapabilityAvailability) (offers : List CapabilityAvailability)
      → Memᴰ a (candidates outcome offers policy)
      → IsLane offers a.source
  unfolding is_candidate
  candidate-IsLane a offers m =
      let (here, ok) = candidates-mem a offers m in
      let free : obstacle a outcome policy ≡ none = ground arith in
      (a, here, ground arith, refl, obstacle-none a outcome policy free)

  All-IsLane :
      (offers rest : List CapabilityAvailability)
      → ((a : CapabilityAvailability) → Memᴰ a rest → IsLane offers a.source)
      → All (IsLane offers) (map (λ a. a.source) rest)
  All-IsLane offers [] h = tt
  All-IsLane offers (a ∷ rest) h =
      (h a (Memᴰ.head refl), All-IsLane offers rest (λ b m. h b (Memᴰ.tail m)))

  fallbacks-IsLane :
      (write : Bool) (offers rest : List CapabilityAvailability)
      → ((a : CapabilityAvailability) → Memᴰ a rest → IsLane offers a.source)
      → All (IsLane offers) (if write then [] else map (λ a. a.source) rest)
  fallbacks-IsLane true offers rest h = tt
  fallbacks-IsLane false offers rest h = All-IsLane offers rest h

  route_to-IsLane :
      (offers rest : List CapabilityAvailability) (a : CapabilityAvailability)
      → ((b : CapabilityAvailability) → Memᴰ b (a ∷ rest) → IsLane offers b.source)
      → IsLane offers (route_to outcome a rest).selected_source
        × All (IsLane offers) (route_to outcome a rest).fallback_sources
  unfolding route_to
  route_to-IsLane offers rest a h = (
    h a (Memᴰ.head refl),
    fallbacks-IsLane outcome.consequential offers rest (λ b m. h b (Memᴰ.tail m)),
  )

  -- The first candidate and the others, of a step that was routed.
  pub routed-candidates :
      (offers : List CapabilityAvailability) (r : ExecutionRoute)
      → route_step outcome offers policy ≡ routed r
      → (a : CapabilityAvailability) × (rest : List CapabilityAvailability) × (candidates outcome
            offers policy
          ≡ a ∷ rest)
        × (r ≡ route_to outcome a rest)
  unfolding route_step first_route
  routed-candidates offers r h = elim (List-cases (candidates outcome offers policy)) [
    | inl e ↦ absurd (ground arith)
    | inr (a, rest, e) ↦ (a, rest, e, ground arith)
  ]

  -- The selected source and every fallback is that of an eligible offer for the step's capability.
  route_step-IsLane :
      (offers : List CapabilityAvailability) (r : ExecutionRoute)
      → route_step outcome offers policy ≡ routed r
      → IsLane offers r.selected_source × All (IsLane offers) r.fallback_sources
  route_step-IsLane offers r h =
      let (a, rest, e, same) = routed-candidates offers r h in
      rw same (
        route_to-IsLane offers rest a (λ b m. candidate-IsLane b offers (subst (Memᴰ b) (sym e) m)))

  -- A step that changes something is never routed to desktop accessibility; it is routed to the browser
  -- only if the policy allows supervised writes and the user is present; and it has no fallback, so
  -- that no failure turns it into a write elsewhere: the run stops and asks, and an independent read
  -- verifies it.
  pub route_step-write :
      (offers : List CapabilityAvailability) (r : ExecutionRoute)
      → outcome.consequential ≡ true
      → route_step outcome offers policy ≡ routed r
      → (same_source r.selected_source macos_accessibility ≡ false)
        × (same_source r.selected_source browser_extension ≡ true
            → (policy.allow_supervised_browser_writes ≡ true) × (outcome.user_present ≡ true))
        × (r.fallback_sources ≡ [])
        × (r.on_failure ≡ stop_and_ask_user)
        × (r.verification ≡ independent_read)
  unfolding route_to
  route_step-write offers r w h =
      let (b, here, named, q, fit) = (route_step-IsLane offers r h).0 in
      let (a, rest, e, same) = routed-candidates offers r h in
      (
        rw (← q) (fit.reads_only w),
        λ k. let (allow, present, _) = fit.supervised w (rw q k) in (allow, present),
        rw same (rw w refl),
        rw same (rw w refl),
        rw same (rw w refl),
      )

  ask_user-candidates :
      (offers : List CapabilityAvailability)
      → (route_step outcome offers policy ≡ ask_user) ↔ (candidates outcome offers policy ≡ [])
  unfolding route_step first_route
  ask_user-candidates offers = elim (List-cases (candidates outcome offers policy)) [
    | inl e ↦ (λ _. e, λ _. rw e refl)
    | inr (a, rest, e) ↦ (λ h. absurd (ground arith), λ h. absurd (ground arith))
  ]

  -- The user is asked exactly when no offer for the capability is eligible.
  route_step-ask_user_iff :
      (offers : List CapabilityAvailability)
      → (route_step outcome offers policy ≡ ask_user)
        ↔ All (λ a. is_candidate outcome policy a ≡ false) offers
  unfolding candidates
  route_step-ask_user_iff offers =
      let step = ask_user-candidates offers in
      let none_kept = filter-nil_iff (is_candidate outcome policy) offers in
      (
        λ h. none_kept.0 (
            sort_by-nil (sort_rank outcome) (filter (is_candidate outcome policy) offers)
              (step.0 h)),
        λ h. step.1 (ap (sort_by (sort_rank outcome)) (none_kept.1 h)),
      )
