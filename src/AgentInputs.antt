-- ===== src/AgentInputs.antt =====
-- The check that a run's required inputs arrived (packages/agent-runtime/src/agent-inputs.ts), and
-- the JSON values that runs carry (packages/contracts/src/run.ts). Numbers are natural numbers.
pub mod Laws
use maman_agent.Prelude.{
  ℕ, Bool, true, false, String, ◌===◌, is_blank, Option, none, some, List, [], ◌∷◌, ◌++◌,
  if◌then◌else◌,
}
use maman_agent.Contracts.{AgentInput, InputSource, AgentSpec}

-- `JsonValue`; an array and an object have list types of their own.
mutual
  pub data JsonValue : Type 0 where
    str : String → JsonValue
    num : ℕ → JsonValue
    bool : Bool → JsonValue
    null : JsonValue
    arr : Items → JsonValue
    obj : Fields → JsonValue

  pub data Items : Type 0 where
    nil : Items
    cons : JsonValue → Items → Items

  pub data Fields : Type 0 where
    end : Fields
    field : String → JsonValue → Fields → Fields

-- A record of values by name, `obj[key]`.
abbrev pub Values : Type 0
Values = List (String × JsonValue)

unfoldable pub lookup : String → Values → Option JsonValue
lookup k [] = none
lookup k ((j, v) ∷ vs) = if j === k then some v else lookup k vs

pub data MissingReason : Type 0 where
  not_supplied empty : MissingReason

pub record MissingInput : Type 0 where
  pub key : String
  pub label : String
  pub source : InputSource
  pub reason : MissingReason

-- `InputReadiness`.
pub data InputReadiness : Type 0 where
  ready : InputReadiness
  not_ready : List MissingInput → InputReadiness

-- Why a supplied value does not count: `undefined` and `null`, blank text, an empty array.
abbrev pub shortfall : Option JsonValue → Option MissingReason
shortfall none = some not_supplied
shortfall (some null) = some not_supplied
shortfall (some (str s)) = if is_blank s then some empty else none
shortfall (some (arr nil)) = some empty
shortfall (some _) = none

missing_of : AgentInput → Option MissingReason → List MissingInput
missing_of i none = []
missing_of i (some r) = record { key = i.key; label = i.label; source = i.source; reason = r } ∷ []

-- The loop over `spec.inputs`.
unfoldable pub missing_inputs : List AgentInput → Values → List MissingInput
unfolding missing_of
missing_inputs [] given = []
missing_inputs (i ∷ is) given =
    (if i.required then missing_of i (shortfall (lookup i.key given)) else [])
    ++ missing_inputs is given

abbrev readiness : List MissingInput → InputReadiness
readiness [] = ready
readiness (m ∷ ms) = not_ready (m ∷ ms)

unfoldable pub validate_agent_inputs : AgentSpec → Values → InputReadiness
unfolding missing_inputs
validate_agent_inputs spec given = readiness (missing_inputs spec.inputs given)
