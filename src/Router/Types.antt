-- ===== src/Router/Types.antt =====
-- Offers, steps, policies and routes (packages/capability-router/src/types.ts). Reliability is in
-- millionths, cost in millionths of a dollar, latency in milliseconds, and confidence in percent.
use maman_agent.Prelude.{ℕ, Bool, String, List}

pub data CapabilitySource : Type 0 where
  api browser_extension macos_accessibility teach_mode human : CapabilitySource

pub data AvailabilityStatus : Type 0 where
  available unavailable permission_required degraded : AvailabilityStatus

pub data RouteRisk : Type 0 where
  low medium high critical : RouteRisk

pub record CapabilityAvailability : Type 0 where
  pub capability_id : String
  pub source : CapabilitySource
  pub status : AvailabilityStatus
  pub scopes : List String
  pub risk_level : RouteRisk
  pub reliability_score : ℕ
  pub estimated_latency_ms : ℕ
  pub estimated_cost_usd : ℕ
  pub requires_foreground : Bool
  pub requires_approval : Bool

pub record StepOutcome : Type 0 where
  pub step_id : String
  pub capability_id : String
  pub consequential : Bool
  pub required_scopes : List String
  pub teach_mode_active : Bool
  pub user_present : Bool

pub record RoutingPolicy : Type 0 where
  pub blocked_sources : List CapabilitySource
  pub blocked_capabilities : List String
  pub allow_supervised_browser_writes : Bool
  pub max_step_cost_usd : ℕ

pub data Verification : Type 0 where
  independent_read none_asked : Verification

pub data OnFailure : Type 0 where
  try_next_fallback stop_and_ask_user : OnFailure

pub record ExecutionRoute : Type 0 where
  pub step_id : String
  pub selected_source : CapabilitySource
  pub fallback_sources : List CapabilitySource
  pub reason : List String
  pub estimated_cost_usd : ℕ
  pub confidence : ℕ
  pub verification : Verification
  pub on_failure : OnFailure

pub data RoutingResult : Type 0 where
  routed : ExecutionRoute → RoutingResult
  ask_user : RoutingResult
