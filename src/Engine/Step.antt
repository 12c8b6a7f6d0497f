-- ===== src/Engine/Step.antt =====
-- The executor of one step (packages/agent-runtime/src/run-engine.ts). `stringify` is JSON.stringify on
-- diffs, as code units.
use maman_agent.Prelude.{
  ℕ, zero, suc, ltb, Bool, false, ◌&&◌, String, ◌===◌, same_codes, is_empty, Option, none, some,
  List, [], ◌∷◌, any, if◌then◌else◌,
}
use maman_agent.Contracts.{
  AgentSpec, AgentStep, StepInputBinding, literal, agent_input, step_output, Literal, StepMode,
  read, propose_write, write, StepRetry, is_shadow,
}
use maman_agent.AgentInputs.{JsonValue, Values, lookup}
use maman_agent.Engine.Base.{
  ProposedDiff, CapabilityContext, CapabilityAdapter, Output, value, diff, Inputs, KeyPart, Call,
  read_call, propose_call, write_call, verify_call, Answer, returned, transient, permanent,
  Verification, World, adapter_error, input_not_supplied, no_implementation, no_approved_diff,
  hash_mismatch, Result, ok, threw, Run, ◌>>=◌, pure, throw, logged, store, ask,
}
use maman_agent.Engine.Digest.{diff_sha256}

pub data StepExecution : Type 0 where
  read_done : Output → StepExecution
  proposed : ProposedDiff → (diff_sha256 : List ℕ) → StepExecution
  written :
      Output
      → (idempotency_key : List KeyPart) (verified : Bool) (verify_detail : String) → StepExecution
  skipped_shadow_write : StepExecution

abbrev pub literal_value : Literal → JsonValue
literal_value (Literal.text s) = JsonValue.str s
literal_value (Literal.num n) = JsonValue.num n
literal_value (Literal.flag b) = JsonValue.bool b

-- `state.outputs[ref]`.
unfoldable pub lookup_output : String → List (String × Output) → Option Output
lookup_output k [] = none
lookup_output k ((j, o) ∷ os) = if j === k then some o else lookup_output k os

abbrev pub is_required : AgentSpec → String → Bool
is_required spec ref = any (λ i. i.key === ref && i.required) spec.inputs

-- The value of an agent input, or the error when a required one is `undefined`.
unfoldable pub given_input :
    AgentSpec → AgentStep → String → Option JsonValue → Result (Option Output)
given_input spec step ref (some v) = ok (some (value v))
given_input spec step ref none =
    if is_required spec ref then threw (input_not_supplied step.step_id ref) else ok none

unfoldable pub resolve_binding :
    AgentSpec
    → AgentStep
    → List (String × Output)
    → Values
    → StepInputBinding
    → Result (Option Output)
resolve_binding spec step outputs given (literal v) = ok (some (value (literal_value v)))
resolve_binding spec step outputs given (step_output ref) = ok (lookup_output ref outputs)
resolve_binding spec step outputs given (agent_input ref) =
    given_input spec step ref (lookup ref given)

abbrev prepend : String → Option Output → Result Inputs → Result Inputs
prepend name o (ok rest) = ok ((name, o) ∷ rest)
prepend name o (threw c) = threw c

abbrev pub collect : String → Result (Option Output) → Result Inputs → Result Inputs
collect name (ok o) rest = prepend name o rest
collect name (threw c) rest = threw c

-- The loop over the entries of `step.inputs`.
unfoldable pub resolve_entries :
    AgentSpec
    → AgentStep
    → List (String × Output)
    → Values
    → List (String × StepInputBinding)
    → Result Inputs
resolve_entries spec step outputs given [] = ok []
resolve_entries spec step outputs given ((name, b) ∷ bs) =
    collect name (resolve_binding spec step outputs given b)
      (resolve_entries spec step outputs given bs)

-- `resolveStepInputs`.
unfoldable pub resolve_step_inputs : AgentSpec → AgentStep → Values → Run Inputs
resolve_step_inputs spec step given s = (resolve_entries spec step s.outputs given step.inputs, s)

-- The loop of `attempt` with the rounds that are left and the last error.
unfoldable pub attempt {ℓ} : {A : Type ℓ} → ℕ → String → Call → (ℕ → Answer A) → Run A
attempt zero last c answers s = (threw (adapter_error last), s)
attempt (suc n) last c answers s = elim (answers s.calls) [
  | returned a ↦ (ok a, logged c s)
  | permanent m ↦ (threw (adapter_error m), logged c s)
  | transient m ↦ attempt n m c answers (logged c s)
]

-- `Math.max(1, max)`.
abbrev pub max_attempts : Option ℕ → StepRetry → ℕ
max_attempts (some n) retry = if ltb n 1 then 1 else n
max_attempts none retry =
    if retry.allowed then (if ltb retry.max_attempts 1 then 1 else retry.max_attempts) else 1

-- `stepIdempotencyKey`.
abbrev pub step_idempotency_key :
    (run_id agent_version_id step_id : String) (capability_version : ℕ) (diff_hash : List ℕ)
    → List KeyPart
step_idempotency_key run_id agent_version_id step_id capability_version diff_hash =
    KeyPart.text run_id
    ∷ KeyPart.text ":"
    ∷ KeyPart.text agent_version_id
    ∷ KeyPart.text ":"
    ∷ KeyPart.text step_id
    ∷ KeyPart.text ":"
    ∷ KeyPart.number capability_version
    ∷ KeyPart.text ":"
    ∷ KeyPart.digest diff_hash
    ∷ []

module _ (stringify : ProposedDiff → List ℕ) (w : World) where
  unfoldable pub read_part : ℕ → AgentStep → Inputs → CapabilityAdapter → Run StepExecution
  read_part n step inputs adapter =
      if adapter.read
      then (do
        output ← attempt n "" (read_call step.step_id inputs) w.read
        _ ← store step.output_key output
        pure (read_done output))
      else throw (no_implementation step.capability_id)

  unfoldable pub propose_part : ℕ → AgentStep → Inputs → CapabilityAdapter → Run StepExecution
  propose_part n step inputs adapter =
      if adapter.propose_write
      then (do
        d ← attempt n "" (propose_call step.step_id inputs) w.propose_write
        _ ← store step.output_key (diff d)
        pure (proposed d (diff_sha256 (stringify d))))
      else throw (no_implementation step.capability_id)

  -- The check behind a write, if the adapter has one.
  unfoldable pub verify_part : AgentStep → Inputs → CapabilityAdapter → Run Verification
  verify_part step inputs adapter =
      if adapter.verify
      then ask (verify_call step.step_id inputs) w.verify
      else pure (record { verified = false; detail = "no verifier" })

  -- The part behind the adapter's write.
  unfoldable pub conclude_write :
      AgentStep → Inputs → CapabilityAdapter → List KeyPart → Output → Run StepExecution
  conclude_write step inputs adapter key output s =
      (do v ← verify_part step inputs adapter; pure (written output key v.verified v.detail))
        (record s { outputs = (step.output_key, output) ∷ s.outputs })

  -- The write of a diff whose hash was checked.
  unfoldable pub perform_write :
      AgentSpec
      → AgentStep
      → CapabilityContext
      → Inputs
      → CapabilityAdapter
      → ProposedDiff
      → (sha : List ℕ) → Run StepExecution
  perform_write spec step ctx inputs adapter approved sha =
      let key =
        step_idempotency_key ctx.run_id spec.version_id step.step_id step.capability_version sha in
      do
        output ← ask (write_call step.step_id inputs approved key) w.write
        conclude_write step inputs adapter key output

  unfoldable pub write_approved :
      AgentSpec
      → AgentStep
      → CapabilityContext
      → Inputs
      → CapabilityAdapter
      → Option (ProposedDiff × List ℕ)
      → Run StepExecution
  write_approved spec step ctx inputs adapter none = throw (no_approved_diff step.step_id)
  write_approved spec step ctx inputs adapter (some (approved, sha)) =
      if is_empty sha
      then throw (no_approved_diff step.step_id)
      else (if same_codes (diff_sha256 (stringify approved)) sha
          then perform_write spec step ctx inputs adapter approved sha
          else throw (hash_mismatch step.step_id))

  unfoldable pub write_part :
      AgentSpec
      → AgentStep
      → CapabilityContext
      → Inputs
      → CapabilityAdapter
      → Option (ProposedDiff × List ℕ)
      → Run StepExecution
  write_part spec step ctx inputs adapter approved =
      if is_shadow ctx.mode
      then pure skipped_shadow_write
      else (if adapter.write
          then write_approved spec step ctx inputs adapter approved
          else throw (no_implementation step.capability_id))

  unfoldable pub by_mode :
      AgentSpec
      → AgentStep
      → CapabilityContext
      → CapabilityAdapter
      → Option (ProposedDiff × List ℕ)
      → Option ℕ
      → Inputs
      → StepMode
      → Run StepExecution
  by_mode spec step ctx adapter approved max inputs read =
      read_part (max_attempts max step.retry) step inputs adapter
  by_mode spec step ctx adapter approved max inputs propose_write =
      propose_part (max_attempts max step.retry) step inputs adapter
  by_mode spec step ctx adapter approved max inputs write =
      write_part spec step ctx inputs adapter approved

  -- `executeStep`. The approved diff and its hash come together or not at all.
  unfoldable pub execute_step :
      AgentSpec
      → AgentStep
      → Values
      → CapabilityContext
      → CapabilityAdapter
      → Option (ProposedDiff × List ℕ)
      → Option ℕ
      → Run StepExecution
  execute_step spec step given ctx adapter approved max = do
    inputs ← resolve_step_inputs spec step given
    by_mode spec step ctx adapter approved max inputs step.mode
