-- ===== src/Mesh.antt =====
-- The lifecycle from an observed workflow to an autonomous agent
-- (packages/agent-runtime/src/mesh-lifecycle.ts).
pub mod Journeys
mod Examples
use maman_agent.Prelude.{
  ℕ, ◌==◌, ltb, Bool, true, false, not, ◌&&◌, ◌||◌, Option, none, some, List, [], ◌∷◌, any,
  if◌then◌else◌,
}

pub data MeshState : Type 0 where
  observed candidate_detected connector_suggested shadowing draft_agent supervised : MeshState
  approved autonomous paused retired : MeshState

pub data Actor : Type 0 where
  user admin system : Actor

-- `AgentState`, the states of the run engine.
pub data AgentState : Type 0 where
  draft shadow supervised active paused degraded revoked archived : AgentState

abbrev index : MeshState → ℕ
index observed = 0
index candidate_detected = 1
index connector_suggested = 2
index shadowing = 3
index draft_agent = 4
index supervised = 5
index approved = 6
index autonomous = 7
index paused = 8
index retired = 9

abbrev pub eq_state : MeshState → MeshState → Bool
eq_state s t = index s == index t

-- `MESH_TRANSITIONS`.
abbrev pub mesh_transitions : MeshState → List MeshState
mesh_transitions observed = candidate_detected ∷ retired ∷ []
mesh_transitions candidate_detected = connector_suggested ∷ shadowing ∷ draft_agent ∷ retired ∷ []
mesh_transitions connector_suggested = shadowing ∷ candidate_detected ∷ retired ∷ []
mesh_transitions shadowing = draft_agent ∷ candidate_detected ∷ retired ∷ []
mesh_transitions draft_agent = supervised ∷ shadowing ∷ retired ∷ []
mesh_transitions supervised = approved ∷ shadowing ∷ paused ∷ retired ∷ []
mesh_transitions approved = autonomous ∷ supervised ∷ paused ∷ retired ∷ []
mesh_transitions autonomous = paused ∷ supervised ∷ retired ∷ []
mesh_transitions paused = supervised ∷ approved ∷ autonomous ∷ retired ∷ []
mesh_transitions retired = []

-- `HUMAN_GATED`.
abbrev pub human_gated : List (MeshState × MeshState)
human_gated =
    (shadowing, draft_agent)
    ∷ (draft_agent, supervised)
    ∷ (supervised, approved)
    ∷ (approved, autonomous)
    ∷ (paused, autonomous)
    ∷ (paused, approved)
    ∷ []

pub record ShadowAgreement : Type 0 where
  pub successful_comparisons : ℕ
  pub required_comparisons : ℕ

pub record MeshTransitionRequest : Type 0 where
  pub «from» : MeshState
  pub to : MeshState
  pub actor : Actor
  pub shadow_agreement : Option ShadowAgreement
  pub org_policy_allows_autonomy : Option Bool

-- The reasons, with the values that their texts show.
pub data Refusal : Type 0 where
  not_allowed : MeshState → MeshState → Refusal
  human_decision_required : Refusal
  comparisons_required : Option ℕ → Refusal
  approval_required : Refusal
  autonomy_forbidden : Refusal

pub data MeshTransitionResult : Type 0 where
  allowed : MeshTransitionResult
  refused : Refusal → MeshTransitionResult

abbrev is_system : Actor → Bool
is_system system = true
is_system _ = false

-- A condition on an optional flag: `undefined` is falsy.
abbrev truthy : Option Bool → Bool
truthy none = false
truthy (some b) = b

-- `!agreement || agreement.successful_comparisons < agreement.required_comparisons`
abbrev falls_short : Option ShadowAgreement → Bool
falls_short none = true
falls_short (some a) = ltb a.successful_comparisons a.required_comparisons

abbrev required : Option ShadowAgreement → Option ℕ
required none = none
required (some a) = some a.required_comparisons

check_autonomy : MeshTransitionRequest → MeshTransitionResult
check_autonomy req =
    if is_system req.actor
    then refused approval_required
    else (if not (truthy req.org_policy_allows_autonomy)
        then refused autonomy_forbidden
        else allowed)

unfoldable pub evaluate_mesh_transition : MeshTransitionRequest → MeshTransitionResult
unfolding check_autonomy
evaluate_mesh_transition req =
    if not (any (eq_state req.to) (mesh_transitions req.«from»))
    then refused (not_allowed req.«from» req.to)
    else (if any (λ g. eq_state g.0 req.«from» && eq_state g.1 req.to) human_gated
          && is_system req.actor
        then refused human_decision_required
        else (if eq_state req.«from» shadowing
              && eq_state req.to draft_agent
              && falls_short req.shadow_agreement
            then refused (comparisons_required (required req.shadow_agreement))
            else (if eq_state req.to autonomous then check_autonomy req else allowed)))

unfoldable pub mesh_to_agent_state : MeshState → AgentState
mesh_to_agent_state observed = draft
mesh_to_agent_state candidate_detected = draft
mesh_to_agent_state connector_suggested = draft
mesh_to_agent_state shadowing = shadow
mesh_to_agent_state draft_agent = draft
mesh_to_agent_state supervised = AgentState.supervised
mesh_to_agent_state approved = active
mesh_to_agent_state autonomous = active
mesh_to_agent_state paused = AgentState.paused
mesh_to_agent_state retired = archived
