-- ===== src/Router/Examples.antt =====
-- Runs of the router on concrete offers.
use maman_agent.Prelude.{◌≢◌, ◌≡◌, ◌≤◌, true, false, List, [], ◌∷◌, Memᴰ, All, refl, arith}
use maman_agent.Router.Types.{
  api, browser_extension, macos_accessibility, available, low, CapabilityAvailability, StepOutcome,
  RoutingPolicy, ExecutionRoute, routed, independent_read, stop_and_ask_user,
}
use maman_agent.Router.Route.{
  same_source, score_route, is_candidate, candidates, route_to, first_route, route_step, obstacle,
  grant_obstacle, lane_obstacle, browser_obstacle,
}
use maman_agent.Router.Best.{route_step-best}
use maman_agent.Router.Laws.{route_step-write}

abbrev update : StepOutcome
update = record {
  step_id = "s1";
  capability_id = "salesforce.update_fields";
  consequential = true;
  required_scopes = "write" ∷ [];
  teach_mode_active = false;
  user_present = true;
}

abbrev policy : RoutingPolicy
policy = record {
  blocked_sources = [];
  blocked_capabilities = [];
  allow_supervised_browser_writes = true;
  max_step_cost_usd = 1000000;
}

abbrev by_browser : CapabilityAvailability
by_browser = record {
  capability_id = "salesforce.update_fields";
  source = browser_extension;
  status = available;
  scopes = [];
  risk_level = low;
  reliability_score = 900000;
  estimated_latency_ms = 3000;
  estimated_cost_usd = 0;
  requires_foreground = true;
  requires_approval = true;
}

abbrev by_api : CapabilityAvailability
by_api = record by_browser { source = api; scopes = "write" ∷ []; requires_foreground = false }

abbrev offers : List CapabilityAvailability
offers = by_browser ∷ by_api ∷ []

-- The routes with and without the API.
abbrev api_route : ExecutionRoute
api_route = route_to update by_api (by_browser ∷ [])

update-api : route_step update offers policy ≡ routed api_route
unfolding route_step first_route candidates is_candidate obstacle grant_obstacle lane_obstacle
    browser_obstacle score_route
update-api = refl

update-source : api_route.selected_source ≡ api
unfolding route_to
update-source = refl

route_step-write_example :
    (same_source api_route.selected_source macos_accessibility ≡ false)
    × (same_source api_route.selected_source browser_extension ≡ true
        → (policy.allow_supervised_browser_writes ≡ true) × (update.user_present ≡ true))
    × (api_route.fallback_sources ≡ [])
    × (api_route.on_failure ≡ stop_and_ask_user)
    × (api_route.verification ≡ independent_read)
route_step-write_example = route_step-write update policy offers api_route refl update-api

offers-AreBounded : All (λ a. a.reliability_score ≤ 1000000) offers
offers-AreBounded = (omega arith, (omega arith, tt))

route_step-best_example :
    (s : CapabilityAvailability) × Memᴰ s offers
    × (is_candidate update policy s ≡ true)
    × (api_route.selected_source ≡ s.source)
    × (api_route.estimated_cost_usd ≡ s.estimated_cost_usd)
    × All
        (λ a. is_candidate update policy a ≡ true → score_route a update ≤ score_route s update)
        offers
route_step-best_example =
    route_step-best update policy offers api_route offers-AreBounded update-api

api-ne-browser : browser_extension ≢ api
api-ne-browser e = absurd (ground arith)
