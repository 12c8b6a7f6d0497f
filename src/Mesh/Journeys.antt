-- ===== src/Mesh/Journeys.antt =====
-- Which journeys the lifecycle allows, and who has to take part in them (mesh-lifecycle.ts).
use maman_agent.Prelude.{◌≤◌, ◌≡◌, ◌≢◌, inl, inr, Option-cases, Bool, true, Option, some, arith}
use maman_agent.Mesh.{
  MeshState, observed, candidate_detected, shadowing, draft_agent, supervised, approved, autonomous,
  paused, retired, Actor, system, active, ShadowAgreement, MeshTransitionRequest, allowed,
  evaluate_mesh_transition, mesh_to_agent_state,
}

-- No request is allowed to leave `retired`.
pub retired_final :
    (req : MeshTransitionRequest) → evaluate_mesh_transition req ≡ allowed → req.«from» ≢ retired
unfolding evaluate_mesh_transition
retired_final req h = ground arith

-- An allowed request into `autonomous` came from a person, and the organization allows autonomy.
autonomous_needs_consent :
    (req : MeshTransitionRequest)
    → evaluate_mesh_transition req ≡ allowed
    → req.to ≡ autonomous
    → (req.actor ≢ system) × (req.org_policy_allows_autonomy ≡ some true)
unfolding evaluate_mesh_transition
autonomous_needs_consent req h e = ground arith

-- The system never makes an agent active in the run engine, whatever the shadow agreement.
active_needs_person :
    (req : MeshTransitionRequest)
    → evaluate_mesh_transition req ≡ allowed
    → mesh_to_agent_state req.to ≡ active
    → req.actor ≢ system
unfolding evaluate_mesh_transition mesh_to_agent_state
active_needs_person req h e = ground arith

-- A shadowing agent is promoted only by a person and with the successful comparisons asked for.
promotion_needs_agreement :
    (req : MeshTransitionRequest)
    → evaluate_mesh_transition req ≡ allowed
    → req.«from» ≡ shadowing
    → req.to ≡ draft_agent
    → (req.actor ≢ system)
      × ((a : ShadowAgreement) × (req.shadow_agreement ≡ some a)
          × (a.required_comparisons ≤ a.successful_comparisons))
unfolding evaluate_mesh_transition
promotion_needs_agreement req h e k = elim (Option-cases req.shadow_agreement) [
  | inl missing ↦ absurd (ground arith)
  | inr (a, given) ↦ (ground arith, (a, given, ground arith))
]

-- Shadowing can be passed by: from `candidate_detected` the system alone reaches `draft_agent`, with
-- whatever agreement and policy.
candidate-draft_agent :
    (a : Option ShadowAgreement) (policy : Option Bool)
    → evaluate_mesh_transition (record {
      «from» = candidate_detected;
      to = draft_agent;
      actor = system;
      shadow_agreement = a;
      org_policy_allows_autonomy = policy;
    })
      ≡ allowed
unfolding evaluate_mesh_transition
candidate-draft_agent a policy = ground arith

-- A sequence of allowed requests by actors that satisfy `By`, each from the state the one before led to.
pub data Journey (By : Actor → Type 0) : MeshState → MeshState → Type 0 where
  stay : {s : MeshState} → Journey By s s
  move :
      {s t : MeshState} (req : MeshTransitionRequest)
      → Journey By s t
      → req.«from» ≡ t
      → By req.actor
      → evaluate_mesh_transition req ≡ allowed
      → Journey By s req.to

-- The states that the system may reach by itself.
abbrev pub IsUnattended : MeshState → Type 0
IsUnattended s = (s ≢ supervised) × (s ≢ approved) × (s ≢ autonomous) × (s ≢ paused)

step-IsUnattended :
    (req : MeshTransitionRequest)
    → req.actor ≡ system
    → evaluate_mesh_transition req ≡ allowed
    → IsUnattended req.«from»
    → IsUnattended req.to
unfolding evaluate_mesh_transition
step-IsUnattended req a h u = ground arith

Journey-IsUnattended :
    {s t : MeshState} → Journey (λ a. a ≡ system) s t → IsUnattended s → IsUnattended t
Journey-IsUnattended stay u = u
Journey-IsUnattended (move req j e a h) u =
    step-IsUnattended req a h (rw e (Journey-IsUnattended j u))

-- However many requests the system makes alone, a workflow that starts as observed never becomes
-- supervised, approved, autonomous or paused.
pub system_alone : {t : MeshState} → Journey (λ a. a ≡ system) observed t → IsUnattended t
system_alone j = Journey-IsUnattended j ((λ e. cc), (λ e. cc), (λ e. cc), (λ e. cc))
