-- ===== src/Comparison/Examples.antt =====
-- Comparisons of concrete runs.
use maman_agent.Prelude.{
  filter, not, ◌≡◌, ◌≤◌, ◌↔◌, ◌+◌, ◌*◌, refl, List, [], ◌∷◌, String, true, none, length,
}
use maman_agent.Mesh.{evaluate_mesh_transition, allowed, user}
use maman_agent.Comparison.{
  ProposedChange, compare_shadow_run, promotion_readiness, not_learned, not_done, succeeds,
}
use maman_agent.Comparison.Changes.{distinct, made, compare_shadow_run-counts}
use maman_agent.Comparison.Promotion.{
  compare_shadow_run-succeeds_iff, promotion_request, is_person, promotion_readiness-allowed_iff,
}

abbrev change : String → String → ProposedChange
change field value = record { object_ref = "o1"; field = field; proposed_value_hash = value }

abbrev proposed : List ProposedChange
proposed = change "Stage" "h1" ∷ change "Amount" "h2" ∷ change "Stage" "h1" ∷ []

abbrev actual : List ProposedChange
actual = change "Amount" "h2" ∷ change "Owner" "h3" ∷ change "Owner" "h4" ∷ []

-- A change that is proposed twice counts once, and a field is named once.
compared : compare_shadow_run "r1" proposed actual ≡ record {
  run_id = "r1";
  agreement = 250;
  matched = 1;
  missed = 2;
  extra = 1;
  missing_rules = not_learned "Owner" ∷ not_done "Stage" ∷ [];
}
unfolding compare_shadow_run
compared = refl

-- The separator of a key can also stand in its parts: these two changes count as one.
joined_alike :
    (compare_shadow_run "r1"
      (record { object_ref = "o|f"; field = "g"; proposed_value_hash = "h" } ∷ [])
      (record { object_ref = "o"; field = "f|g"; proposed_value_hash = "h" } ∷ [])).matched
    ≡ 1
unfolding compare_shadow_run
joined_alike = refl

compare_shadow_run-counts_example :
    let c = compare_shadow_run "r1" proposed actual in
    (c.matched ≡ length (filter (made actual) (distinct proposed)))
    × (c.matched ≡ length (filter (made proposed) (distinct actual)))
    × (c.extra ≡ length (filter (λ d. not (made actual d)) (distinct proposed)))
    × (c.missed ≡ length (filter (λ d. not (made proposed d)) (distinct actual)))
compare_shadow_run-counts_example =
    compare_shadow_run-counts "r1" proposed actual
      ((refl, refl), ((refl, refl), ((refl, refl), tt)))
      ((refl, refl), ((refl, refl), ((refl, refl), tt)))

compare_shadow_run-succeeds_iff_example :
    let c = compare_shadow_run "r1" proposed actual in
    (succeeds c ≡ true) ↔ (1799 * (c.matched + c.missed + c.extra) ≤ 2000 * c.matched)
compare_shadow_run-succeeds_iff_example = compare_shadow_run-succeeds_iff "r1" proposed actual

promotion_readiness-allowed_iff_example :
    let readiness = promotion_readiness (compare_shadow_run "r1" proposed actual ∷ []) 1 in
    (evaluate_mesh_transition (promotion_request user none readiness) ≡ allowed)
    ↔ ((is_person user ≡ true) × (readiness.ready ≡ true))
promotion_readiness-allowed_iff_example =
    promotion_readiness-allowed_iff user none (compare_shadow_run "r1" proposed actual ∷ []) 1
