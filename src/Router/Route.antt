-- ===== src/Router/Route.antt =====
-- The choice of a route (packages/capability-router/src/router.ts).
--
-- The source scores in doubles. Here a score is exact and scaled by 60,000,000; what the source
-- subtracts from a degraded offer is added to the others, so that nothing goes below 0.
use maman_agent.Prelude.{
  ℕ, ◌+◌, ◌-◌, ◌*◌, ◌/◌, min, ltb, ◌==◌, Bool, true, false, not, ◌&&◌, ◌||◌, String, ◌===◌,
  includes, Option, none, some, List, [], ◌∷◌, map, filter, any, sort_by, is_empty, if◌then◌else◌,
  ◌++◌,
}
use maman_agent.Router.Types.{
  AvailabilityStatus, CapabilityAvailability, CapabilitySource, ExecutionRoute, RouteRisk,
  RoutingPolicy, RoutingResult, StepOutcome, api, ask_user, browser_extension, critical, degraded,
  high, human, independent_read, low, macos_accessibility, medium, none_asked, permission_required,
  routed, stop_and_ask_user, teach_mode, try_next_fallback, unavailable,
}

-- `localeCompare` on the sources: their alphabetical order.
abbrev pub source_order : CapabilitySource → ℕ
source_order api = 0
source_order browser_extension = 1
source_order human = 2
source_order macos_accessibility = 3
source_order teach_mode = 4

abbrev pub same_source : CapabilitySource → CapabilitySource → Bool
same_source a b = source_order a == source_order b

abbrev is_degraded : AvailabilityStatus → Bool
is_degraded degraded = true
is_degraded _ = false

abbrev pub is_critical : RouteRisk → Bool
is_critical critical = true
is_critical _ = false

-- The terms of the score: safety, auditability and semantic fidelity.
abbrev pub safety : RouteRisk → ℕ
safety low = 12000000
safety medium = 8400000
safety high = 4200000
safety critical = 1200000

abbrev pub auditability : CapabilitySource → ℕ
auditability api = 9000000
auditability browser_extension = 5400000
auditability _ = 3600000

abbrev pub semantic_fidelity : CapabilitySource → ℕ
semantic_fidelity api = 9000000
semantic_fidelity browser_extension = 6750000
semantic_fidelity macos_accessibility = 4500000
semantic_fidelity _ = 3600000

-- `scoreRoute`, plus the 9,000,000 that a degraded offer loses.
unfoldable pub score_route : CapabilityAvailability → StepOutcome → ℕ
score_route a outcome =
    15 * a.reliability_score
    + safety a.risk_level
    + auditability a.source
    + semantic_fidelity a.source
    + (6000000 - 200 * min 30000 a.estimated_latency_ms)
    + (6000000 - 6 * min 1000000 a.estimated_cost_usd)
    + (if a.requires_foreground || a.requires_approval then 0 else 3000000)
    + (if is_degraded a.status then 0 else 9000000)
    + (if same_source a.source api && not outcome.teach_mode_active then 9000000 else 0)

-- Why an offer is not eligible. A missing scope carries the list that the text joins.
pub data Obstacle : Type 0 where
  is_unavailable needs_permission source_blocked capability_blocked over_cost_ceiling : Obstacle
  missing_scopes : List String → Obstacle
  never_writes teach_mode_inactive browser_writes_disabled user_needed : Obstacle
  approval_needed critical_risk : Obstacle

-- The conditions on a browser write.
unfoldable pub browser_obstacle :
    CapabilityAvailability → StepOutcome → RoutingPolicy → Option Obstacle
browser_obstacle a outcome policy =
    if not policy.allow_supervised_browser_writes
    then some browser_writes_disabled
    else (if not outcome.user_present
        then some user_needed
        else (if not a.requires_approval then some approval_needed else none))

abbrev pub status_obstacle : AvailabilityStatus → Option Obstacle
status_obstacle unavailable = some is_unavailable
status_obstacle permission_required = some needs_permission
status_obstacle _ = none

-- The second half of `eligible`, behind the cost ceiling.
unfoldable pub lane_obstacle :
    CapabilityAvailability → StepOutcome → RoutingPolicy → Option Obstacle
lane_obstacle a outcome policy =
    if same_source a.source macos_accessibility && outcome.consequential
    then some never_writes
    else (if same_source a.source teach_mode && not outcome.teach_mode_active
        then some teach_mode_inactive
        else elim (if same_source a.source browser_extension && outcome.consequential
            then browser_obstacle a outcome policy
            else none) [
              | some o ↦ some o
              | none ↦ if is_critical a.risk_level then some critical_risk else none
            ])

abbrev pub missing : CapabilityAvailability → StepOutcome → List String
missing a outcome = filter (λ s. not (includes a.scopes s)) outcome.required_scopes

-- The part of `eligible` behind the status.
unfoldable pub grant_obstacle :
    CapabilityAvailability → StepOutcome → RoutingPolicy → Option Obstacle
grant_obstacle a outcome policy =
    if same_source a.source api && not (is_empty (missing a outcome))
    then some (missing_scopes (missing a outcome))
    else (if any (same_source a.source) policy.blocked_sources
        then some source_blocked
        else (if includes policy.blocked_capabilities a.capability_id
            then some capability_blocked
            else (if ltb policy.max_step_cost_usd a.estimated_cost_usd
                then some over_cost_ceiling
                else lane_obstacle a outcome policy)))

-- `eligible`: the obstacle, if there is one.
unfoldable pub obstacle : CapabilityAvailability → StepOutcome → RoutingPolicy → Option Obstacle
obstacle a outcome policy = elim (status_obstacle a.status) [
  | some o ↦ some o
  | none ↦ grant_obstacle a outcome policy
]

abbrev pub is_none : Option Obstacle → Bool
is_none none = true
is_none (some _) = false

unfoldable pub is_candidate : StepOutcome → RoutingPolicy → CapabilityAvailability → Bool
is_candidate outcome policy a =
    a.capability_id === outcome.capability_id && is_none (obstacle a outcome policy)

-- The comparison of the sort: by score, the best first, then by the source's name. No score exceeds
-- 78,000,000 for a reliability of at most 1, and there are five sources.
abbrev pub sort_rank : StepOutcome → CapabilityAvailability → ℕ
sort_rank outcome a = 5 * (78000000 - score_route a outcome) + source_order a.source

unfoldable pub candidates :
    StepOutcome → List CapabilityAvailability → RoutingPolicy → List CapabilityAvailability
candidates outcome availabilities policy =
    sort_by (sort_rank outcome) (filter (is_candidate outcome policy) availabilities)

-- `Math.round(Math.min(1, score) * 100)`.
abbrev confidence_percent : ℕ → ℕ
confidence_percent score = (200 * min 60000000 (score - 9000000) + 60000000) / 120000000

-- The parts that `buildReason` joins.
abbrev source_reason : CapabilitySource → Bool → List String
source_reason api _ = "api selected" ∷ "API produces an equivalent, auditable outcome" ∷ []
source_reason browser_extension true =
    "browser_extension selected" ∷ "supervised browser action with user present and approval gate"
    ∷ []
source_reason browser_extension false =
    "browser_extension selected" ∷ "current-page context via the Browser Relay" ∷ []
source_reason macos_accessibility _ =
    "macos_accessibility selected" ∷ "discovery-only desktop context" ∷ []
source_reason teach_mode _ = "teach_mode selected" ∷ "explicit teach-mode session" ∷ []
source_reason human _ =
    "human selected" ∷ "no automated route is safe; human performs the step" ∷ []

unfoldable pub build_reason : CapabilityAvailability → StepOutcome → List String
build_reason a outcome =
    source_reason a.source outcome.consequential
    ++ (if is_degraded a.status then "source is degraded — fidelity reduced" ∷ [] else [])

-- The route to the best candidate.
unfoldable pub route_to :
    StepOutcome → CapabilityAvailability → List CapabilityAvailability → ExecutionRoute
route_to outcome selected others = record {
  step_id = outcome.step_id;
  selected_source = selected.source;
  fallback_sources = if outcome.consequential then [] else map (λ a. a.source) others;
  reason = build_reason selected outcome;
  estimated_cost_usd = selected.estimated_cost_usd;
  confidence = confidence_percent (score_route selected outcome);
  verification = if outcome.consequential then independent_read else none_asked;
  on_failure = if outcome.consequential then stop_and_ask_user else try_next_fallback;
}

unfoldable pub first_route : StepOutcome → List CapabilityAvailability → RoutingResult
first_route outcome [] = ask_user
first_route outcome (a ∷ others) = routed (route_to outcome a others)

-- `routeStep`.
unfoldable pub route_step :
    StepOutcome → List CapabilityAvailability → RoutingPolicy → RoutingResult
route_step outcome availabilities policy =
    first_route outcome (candidates outcome availabilities policy)
