-- ===== src/AgentInputs/Laws.antt =====
-- When a run may start, as far as its inputs go (agent-inputs.ts).
use maman_agent.Prelude.{
  ◌≡◌, ◌↔◌, true, none, some, Option, false, is_blank, List, [], ◌∷◌, All, arith,
}
use maman_agent.Contracts.{AgentInput, AgentSpec}
use maman_agent.AgentInputs.{
  JsonValue, null, str, arr, nil, cons, Values, lookup, ready, shortfall, missing_inputs,
  validate_agent_inputs,
}

-- A value that counts as an answer.
abbrev pub IsAnswer : Option JsonValue → Type 0
IsAnswer none = ⊥
IsAnswer (some null) = ⊥
IsAnswer (some (str s)) = is_blank s ≡ false
IsAnswer (some (arr nil)) = ⊥
IsAnswer (some _) = Unit {0}

shortfall_iff : (v : Option JsonValue) → (shortfall v ≡ none) ↔ IsAnswer v
shortfall_iff none = ground arith
shortfall_iff (some (arr nil)) = ground arith
shortfall_iff (some (arr (cons v vs))) = ground arith
shortfall_iff (some _) = ground arith

-- What a run must have for one declared input.
abbrev pub IsSupplied : Values → AgentInput → Type 0
IsSupplied given i = i.required ≡ true → IsAnswer (lookup i.key given)

missing_inputs_iff :
    (is : List AgentInput) (given : Values)
    → (missing_inputs is given ≡ []) ↔ All (IsSupplied given) is
unfolding missing_inputs
missing_inputs_iff [] given = ground arith
missing_inputs_iff (i ∷ is) given =
    ground (arith, missing_inputs_iff is given, shortfall_iff (lookup i.key given))

-- A run is ready exactly when every required input of its spec is supplied with a value that is
-- neither absent, null, blank text nor an empty array.
pub validate_agent_inputs-ready_iff :
    (spec : AgentSpec) (given : Values)
    → (validate_agent_inputs spec given ≡ ready) ↔ All (IsSupplied given) spec.inputs
unfolding validate_agent_inputs
validate_agent_inputs-ready_iff spec given = ground (arith, missing_inputs_iff spec.inputs given)
