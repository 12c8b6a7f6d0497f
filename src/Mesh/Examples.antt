-- ===== src/Mesh/Examples.antt =====
-- Tests of the lifecycle, and its theorems at concrete requests.
use maman_agent.Prelude.{◌≡◌, ◌≢◌, refl, true, none, some}
use maman_agent.Mesh.{
  MeshState, observed, candidate_detected, shadowing, draft_agent, approved, autonomous, paused,
  retired, Actor, user, admin, system, MeshTransitionRequest, allowed, refused,
  human_decision_required, autonomy_forbidden, comparisons_required, evaluate_mesh_transition,
}
use maman_agent.Mesh.Journeys.{retired_final, stay, move, IsUnattended, system_alone}

abbrev ask : MeshState → MeshState → Actor → MeshTransitionRequest
ask s t a = record {
  «from» = s;
  to = t;
  actor = a;
  shadow_agreement = some (record { successful_comparisons = 3; required_comparisons = 3 });
  org_policy_allows_autonomy = some true;
}

answers :
    (evaluate_mesh_transition (ask shadowing draft_agent user) ≡ allowed)
    × (evaluate_mesh_transition (ask shadowing draft_agent system)
        ≡ refused human_decision_required)
    × (evaluate_mesh_transition (ask approved autonomous admin) ≡ allowed)
    × (evaluate_mesh_transition
          (record (ask approved autonomous admin) { org_policy_allows_autonomy = none })
        ≡ refused autonomy_forbidden)
    × (evaluate_mesh_transition
          (record (ask shadowing draft_agent user) { shadow_agreement = none })
        ≡ refused (comparisons_required none))
unfolding evaluate_mesh_transition
answers = (refl, refl, refl, refl, refl)

retired_final_example : paused ≢ retired
retired_final_example =
    retired_final (ask paused retired system) (unfold evaluate_mesh_transition in refl)

system_alone_example : IsUnattended candidate_detected
unfolding evaluate_mesh_transition
system_alone_example =
    system_alone (move (ask observed candidate_detected system) stay refl refl refl)
