-- ===== src/Router/Best.antt =====
-- That the best offer is taken (packages/capability-router/src/router.ts).
use maman_agent.Prelude.{
  refl, ◌<◌, ◌≢◌, ◌≡◌, ◌≤◌, true, List, Memᴰ, filter, refl, arith, All, sym, sort_by-first, ap,
  All-both, All-kept,
}
use mathlib.Core.Path.{subst}
use maman_agent.Router.Types.{
  RouteRisk, low, medium, high, critical, human, api, browser_extension, macos_accessibility,
  teach_mode, CapabilitySource, CapabilityAvailability, StepOutcome, RoutingPolicy, ExecutionRoute,
  routed,
}
use maman_agent.Router.Route.{
  safety, auditability, semantic_fidelity, is_candidate, candidates, sort_rank, route_to,
  route_step, score_route, source_order,
}
use maman_agent.Router.Laws.{candidates-mem, routed-candidates}

safety-le : (r : RouteRisk) → safety r ≤ 12000000
safety-le low = omega arith
safety-le medium = omega arith
safety-le high = omega arith
safety-le critical = omega arith

auditability-le : (s : CapabilitySource) → auditability s ≤ 9000000
auditability-le api = omega arith
auditability-le browser_extension = omega arith
auditability-le macos_accessibility = omega arith
auditability-le teach_mode = omega arith
auditability-le human = omega arith

semantic_fidelity-le : (s : CapabilitySource) → semantic_fidelity s ≤ 9000000
semantic_fidelity-le api = omega arith
semantic_fidelity-le browser_extension = omega arith
semantic_fidelity-le macos_accessibility = omega arith
semantic_fidelity-le teach_mode = omega arith
semantic_fidelity-le human = omega arith

source_order-le : (s : CapabilitySource) → source_order s ≤ 4
source_order-le api = omega arith
source_order-le browser_extension = omega arith
source_order-le macos_accessibility = omega arith
source_order-le teach_mode = omega arith
source_order-le human = omega arith

-- The same offer scores strictly higher through an API than through any other source, whatever the
-- step.
score_route-api :
    (a : CapabilityAvailability) (outcome : StepOutcome) (s : CapabilitySource)
    → s ≢ api
    → score_route (record a { source = s }) outcome
      < score_route (record a { source = api }) outcome
unfolding score_route
score_route-api a outcome api h = absurd (h refl)
score_route-api a outcome browser_extension h = ground arith
score_route-api a outcome macos_accessibility h = ground arith
score_route-api a outcome teach_mode h = ground arith
score_route-api a outcome human h = ground arith

module _ (outcome : StepOutcome) (policy : RoutingPolicy) where
  score_route-le :
      (a : CapabilityAvailability)
      → a.reliability_score ≤ 1000000
      → score_route a outcome ≤ 78000000
  unfolding score_route
  score_route-le a h =
      ground
        (arith, safety-le a.risk_level, auditability-le a.source, semantic_fidelity-le a.source)

  better :
      (s a : CapabilityAvailability)
      → a.reliability_score ≤ 1000000
      → sort_rank outcome s ≤ sort_rank outcome a
      → score_route a outcome ≤ score_route s outcome
  better s a h le = omega (arith, score_route-le a h, source_order-le a.source)

  -- If reliabilities are at most 1, the offer that is selected is an eligible one for the capability,
  -- it has the highest score of all eligible offers for it, and the route has its source and its cost.
  pub route_step-best :
      (offers : List CapabilityAvailability) (r : ExecutionRoute)
      → All (λ a. a.reliability_score ≤ 1000000) offers
      → route_step outcome offers policy ≡ routed r
      → (s : CapabilityAvailability) × Memᴰ s offers
        × (is_candidate outcome policy s ≡ true)
        × (r.selected_source ≡ s.source)
        × (r.estimated_cost_usd ≡ s.estimated_cost_usd)
        × All
            (λ a.
              is_candidate outcome policy a ≡ true → score_route a outcome ≤ score_route s outcome)
            offers
  unfolding candidates route_to
  route_step-best offers r bounded h =
      let (s, rest, e, same) = routed-candidates outcome policy offers r h in
      let (here, ok) =
        candidates-mem outcome policy s offers (subst (Memᴰ s) (sym e) (Memᴰ.head refl)) in
      let least =
        sort_by-first (sort_rank outcome) s rest (filter (is_candidate outcome policy) offers) e in
      (
        s,
        here,
        ok,
        ap (λ x. x.selected_source) same,
        ap (λ x. x.estimated_cost_usd) same,
        All-both (λ a. a.reliability_score ≤ 1000000)
            (λ a. is_candidate outcome policy a ≡ true → sort_rank outcome s ≤ sort_rank outcome a)
            (λ a.
              is_candidate outcome policy a ≡ true → score_route a outcome ≤ score_route s outcome)
            offers bounded
            (All-kept (λ a. sort_rank outcome s ≤ sort_rank outcome a) (is_candidate outcome policy)
              offers least)
            (λ a p q c. better s a p (q c)),
      )
