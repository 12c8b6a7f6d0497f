-- ===== src/Engine/Base.antt =====
-- Diffs, adapters and what a run does to them (packages/agent-runtime/src/adapters.ts,
-- packages/demo-fixtures/src/salesforce.ts).
--
-- An adapter is the set of its operations. What an operation answers, or throws, is up to a `World`,
-- by the number of the call in the run; each call is logged, the last one first.
use maman_agent.Prelude.{ℕ, ◌+◌, Bool, String, Option, List, ◌∷◌}
use maman_agent.Contracts.{RunMode}
use maman_agent.AgentInputs.{JsonValue}

pub record ProposedFieldChange : Type 0 where
  pub account_id : String
  pub account_name : String
  pub field : String
  pub old_value : String
  pub new_value : String

pub record DiffSummary : Type 0 where
  pub input_rows : ℕ
  pub confident_matches : ℕ
  pub ambiguous_skipped : ℕ
  pub missing : ℕ
  pub change_count : ℕ
  pub accounts_affected : ℕ

pub record ProposedDiff : Type 0 where
  pub summary : DiffSummary
  pub changes : List ProposedFieldChange

-- `CapabilityContext`, the fields that are read.
pub record CapabilityContext : Type 0 where
  pub run_id : String
  pub mode : RunMode

-- `CapabilityAdapter`: which operations it has.
pub record CapabilityAdapter : Type 0 where
  pub read : Bool
  pub propose_write : Bool
  pub write : Bool
  pub verify : Bool

-- What is stored under an output key: a value that an adapter returned, or a diff.
pub data Output : Type 0 where
  value : JsonValue → Output
  diff : ProposedDiff → Output

-- The inputs of a step by name; `none` is `undefined`.
abbrev pub Inputs : Type 0
Inputs = List (String × Option Output)

-- The pieces of the template string of an idempotency key.
pub data KeyPart : Type 0 where
  text : String → KeyPart
  number : ℕ → KeyPart
  digest : List ℕ → KeyPart

pub data Call : Type 0 where
  read_call : (step_id : String) → Inputs → Call
  propose_call : (step_id : String) → Inputs → Call
  write_call : (step_id : String) → Inputs → ProposedDiff → (key : List KeyPart) → Call
  verify_call : (step_id : String) → Inputs → Call

-- An answer, a `TransientAdapterError`, or any other error.
pub data Answer {ℓ} (A : Type ℓ) : Type ℓ where
  returned : A → Answer A
  transient permanent : (message : String) → Answer A

pub record Verification : Type 0 where
  pub verified : Bool
  pub detail : String

pub record World : Type 0 where
  pub read : ℕ → Answer Output
  pub propose_write : ℕ → Answer ProposedDiff
  pub write : ℕ → Answer Output
  pub verify : ℕ → Answer Verification

pub record EngineState : Type 0 where
  pub outputs : List (String × Output)
  pub calls : ℕ
  pub log : List Call
  pub last_run_at : Option ℕ

pub data ErrorCause : Type 0 where
  adapter_error : (message : String) → ErrorCause
  input_not_supplied : (step_id ref : String) → ErrorCause
  no_implementation : (capability_id : String) → ErrorCause
  no_approved_diff hash_mismatch : (step_id : String) → ErrorCause
  no_adapter : (capability_id : String) → ErrorCause

pub data Result {ℓ} (A : Type ℓ) : Type ℓ where
  ok : A → Result A
  threw : ErrorCause → Result A

-- Code that may call adapters, store outputs and throw. What was done before a throw stays done.
abbrev pub Run {ℓ} : Type ℓ → Type ℓ
Run A = EngineState → Result A × EngineState

abbrev pub and_then {ℓ κ} :
    {A : Type ℓ} {B : Type κ} → Result A × EngineState → (A → Run B) → Result B × EngineState
and_then (ok a, s) f = f a s
and_then (threw c, s) f = (threw c, s)

infixl 5 ◌>>=◌
abbrev pub ◌>>=◌ {ℓ κ} : {A : Type ℓ} {B : Type κ} → Run A → (A → Run B) → Run B
◌>>=◌ m f s = and_then (m s) f

abbrev pub pure {ℓ} : {A : Type ℓ} → A → Run A
pure a s = (ok a, s)

abbrev pub throw {ℓ} : {A : Type ℓ} → ErrorCause → Run A
throw c s = (threw c, s)

abbrev pub logged : Call → EngineState → EngineState
logged c s = record s { calls = s.calls + 1; log = c ∷ s.log }

-- `state.outputs[key] = output`.
abbrev pub store : String → Output → Run (Unit {0})
store key o s = (ok tt, record s { outputs = (key, o) ∷ s.outputs })

-- One call that is not retried.
abbrev pub answer {ℓ} : {A : Type ℓ} → Answer A → Result A
answer (returned a) = ok a
answer (transient m) = threw (adapter_error m)
answer (permanent m) = threw (adapter_error m)

unfoldable pub ask {ℓ} : {A : Type ℓ} → Call → (ℕ → Answer A) → Run A
ask c answers s = (answer (answers s.calls), logged c s)
