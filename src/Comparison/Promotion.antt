-- ===== src/Comparison/Promotion.antt =====
-- Which comparisons succeed, and when enough of them let a person promote a workflow
-- (packages/agent-runtime/src/shadow.ts, mesh-lifecycle.ts).
use native.Mathlib.Nat.{le-div_iff_mul-le}
use maman_agent.Prelude.{
  ℕ, zero, suc, ◌+◌, ◌*◌, ◌≤◌, ◌≡◌, ◌↔◌, refl, ap, arith, Bool, true, false, String, List, Option,
  some,
}
use maman_agent.Mesh.{
  MeshTransitionRequest, evaluate_mesh_transition, allowed, shadowing, draft_agent, Actor, user,
  admin, system,
}
use maman_agent.Comparison.{
  ProposedChange, ShadowComparison, rounded, compare_shadow_run, succeeds, promotion_readiness,
  PromotionReadiness,
}
use maman_agent.Comparison.Laws.{compare_shadow_run-balanced}

rounded_threshold :
    (matched union : ℕ) → (900 ≤ rounded matched union) ↔ (1799 * union ≤ 2000 * matched)
rounded_threshold matched zero = ((λ _. omega arith), (λ _. omega arith))
rounded_threshold matched (suc union) =
    let (to, from) =
      le-div_iff_mul-le {k = 2 * suc union} {x = 900} {y = 2000 * matched + suc union}
        (omega arith) in
    ((λ h. let k = to h in omega arith), (λ h. from (omega arith)))

-- A comparison succeeds exactly when at least 1799 in 2000 of all changes, those of the run and of the
-- user together, match: its agreement is rounded to thousandths before it is compared with 0.9.
pub compare_shadow_run-succeeds_iff :
    (run_id : String) (proposed actual : List ProposedChange)
    → let c = compare_shadow_run run_id proposed actual in
      (succeeds c ≡ true) ↔ (1799 * (c.matched + c.missed + c.extra) ≤ 2000 * c.matched)
unfolding compare_shadow_run
compare_shadow_run-succeeds_iff run_id proposed actual =
    let c = compare_shadow_run run_id proposed actual in
    let b = compare_shadow_run-balanced run_id proposed actual in
    let whole = c.matched + c.missed + c.extra in
    let same : c.agreement ≡ rounded c.matched whole =
      ap (rounded c.matched) (omega (arith, b.0, b.1)) in
    let (to, from) = rounded_threshold c.matched whole in
    ((λ h. to (let k = same in ground arith)), (λ h. let k = from h in ground (arith, same)))

-- The request to promote a shadowing workflow with the counts of its comparisons.
abbrev pub promotion_request : Actor → Option Bool → PromotionReadiness → MeshTransitionRequest
promotion_request actor autonomy readiness = record {
  «from» = shadowing;
  to = draft_agent;
  actor = actor;
  shadow_agreement = some (record {
    successful_comparisons = readiness.successful_comparisons;
    required_comparisons = readiness.required_comparisons;
  });
  org_policy_allows_autonomy = autonomy;
}

abbrev pub is_person : Actor → Bool
is_person system = false
is_person _ = true

-- With the counts of its comparisons, a shadowing workflow becomes a draft exactly when a person asks
-- for it and the comparisons are reported as ready.
pub promotion_readiness-allowed_iff :
    (actor : Actor) (autonomy : Option Bool) (comparisons : List ShadowComparison) (required : ℕ)
    → let readiness = promotion_readiness comparisons required in
      (evaluate_mesh_transition (promotion_request actor autonomy readiness) ≡ allowed)
      ↔ ((is_person actor ≡ true) × (readiness.ready ≡ true))
unfolding evaluate_mesh_transition promotion_readiness
promotion_readiness-allowed_iff system autonomy comparisons required =
    ((λ h. absurd (ground arith)), (λ h. let k = h.0 in absurd (ground arith)))
promotion_readiness-allowed_iff user autonomy comparisons required =
    ((λ h. (refl, ground arith)), (λ h. let k = h.1 in ground arith))
promotion_readiness-allowed_iff admin autonomy comparisons required =
    ((λ h. (refl, ground arith)), (λ h. let k = h.1 in ground arith))
