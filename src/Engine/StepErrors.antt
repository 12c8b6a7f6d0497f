-- ===== src/Engine/StepErrors.antt =====
-- Which errors end a step that is given a diff with its own hash (packages/agent-runtime/src/run-engine.ts).
use maman_agent.Prelude.{
  ℕ, ◌∷◌, [], ◌≡◌, some, none, Option, List, length, true, false, refl, arith, same_codes, is_empty,
  same_codes_refl, Bool, String,
}
use maman_agent.Engine.Base.{
  ProposedDiff, World, Inputs, CapabilityContext, CapabilityAdapter, EngineState, KeyPart, Output,
  pure, read_call, propose_call, verify_call, ask, write_call, ErrorCause, adapter_error,
  input_not_supplied, no_implementation, Result, Run, and_then, ok, threw,
}
use maman_agent.Contracts.{AgentSpec, StepMode, AgentStep, read, is_shadow, propose_write, write}
use maman_agent.Engine.Step.{
  read_part, propose_part, verify_part, conclude_write, write_approved, by_mode, perform_write,
  write_part, execute_step, resolve_step_inputs, attempt, written, StepExecution,
}
use maman_agent.Engine.Digest.{diff_sha256, diff_sha256-digits}
use maman_agent.Engine.Local.{run_one, Registry, require_adapter}
use maman_agent.Engine.Errors.{
  Fine, if-Fine, and_then-Fine, ask-Fine, attempt-Fine, resolve_entries-Fine, implements,
  FineAdapter,
}
use mathlib.Core.Path.{subst}
use maman_agent.AgentInputs.{Values}

is_empty-digits : (ds : List ℕ) → length ds ≡ 64 → is_empty ds ≡ false
is_empty-digits [] h = ground arith
is_empty-digits (d ∷ ds) h = refl

module _ (stringify : ProposedDiff → List ℕ) where
  -- What a step may be given: nothing if it does not write, and else a diff with its own hash.
  abbrev pub IsSelfBound : StepMode → Option (ProposedDiff × List ℕ) → Type 0
  IsSelfBound write none = ⊥
  IsSelfBound write (some (d, sha)) = diff_sha256 (stringify d) ≡ sha
  IsSelfBound read _ = Unit
  IsSelfBound propose_write _ = Unit

module _ (bad : ErrorCause → Bool) (calls : (m : String) → bad (adapter_error m) ≡ false)
    (supplied : (id ref : String) → bad (input_not_supplied id ref) ≡ false)
    (stringify : ProposedDiff → List ℕ) (w : World) (spec : AgentSpec) where
  read_part-Fine :
      (n : ℕ) (step : AgentStep) (i : Inputs) (a : CapabilityAdapter) (s : EngineState)
      → (a.read ≡ false → bad (no_implementation step.capability_id) ≡ false)
      → Fine bad (read_part stringify w n step i a s)
  unfolding read_part
  read_part-Fine n step i a s lack =
      if-Fine bad s a.read _ _
        (λ _.
          and_then-Fine bad (attempt n "" (read_call step.step_id i) w.read s) _
            (attempt-Fine bad calls n "" (read_call step.step_id i) w.read s) (λ o t. tt))
        lack

  propose_part-Fine :
      (n : ℕ) (step : AgentStep) (i : Inputs) (a : CapabilityAdapter) (s : EngineState)
      → (a.propose_write ≡ false → bad (no_implementation step.capability_id) ≡ false)
      → Fine bad (propose_part stringify w n step i a s)
  unfolding propose_part
  propose_part-Fine n step i a s lack =
      if-Fine bad s a.propose_write _ _
        (λ _.
          and_then-Fine bad (attempt n "" (propose_call step.step_id i) w.propose_write s) _
            (attempt-Fine bad calls n "" (propose_call step.step_id i) w.propose_write s)
            (λ o t. tt))
        lack

  verify_part-Fine :
      (step : AgentStep) (i : Inputs) (a : CapabilityAdapter) (s : EngineState)
      → Fine bad (verify_part stringify w step i a s)
  unfolding verify_part
  verify_part-Fine step i a s =
      if-Fine bad s a.verify _ _ (λ _. ask-Fine bad calls (verify_call step.step_id i) w.verify s)
        (λ _. tt)

  conclude_write-Fine :
      (step : AgentStep) (i : Inputs) (a : CapabilityAdapter) (key : List KeyPart) (o : Output)
      (s : EngineState)
      → Fine bad (conclude_write stringify w step i a key o s)
  unfolding conclude_write
  conclude_write-Fine step i a key o s =
      let t : EngineState = record s { outputs = (step.output_key, o) ∷ s.outputs } in
      and_then-Fine bad (verify_part stringify w step i a t)
        (λ v. pure (written o key v.verified v.detail)) (verify_part-Fine step i a t) (λ v u. tt)

  module _ (step : AgentStep) (ctx : CapabilityContext) where
    write_approved-Fine :
        (i : Inputs) (a : CapabilityAdapter) (d : ProposedDiff) (sha : List ℕ) (s : EngineState)
        → diff_sha256 (stringify d) ≡ sha
        → Fine bad (write_approved stringify w spec step ctx i a (some (d, sha)) s)
    unfolding write_approved perform_write
    write_approved-Fine i a d sha s e =
        let filled : is_empty sha ≡ false =
          is_empty-digits sha (subst (λ h. length h ≡ 64) e (diff_sha256-digits (stringify d)).0) in
        let same : same_codes (diff_sha256 (stringify d)) sha ≡ true =
          subst (λ h. same_codes (diff_sha256 (stringify d)) h ≡ true) e
            (same_codes_refl (diff_sha256 (stringify d))) in
        rw filled (
          rw same (
            and_then-Fine bad (ask (write_call step.step_id i d _) w.write s) _
              (ask-Fine bad calls (write_call step.step_id i d _) w.write s)
              (λ o t. conclude_write-Fine step i a _ o t)))

    by_mode-Fine :
        (a : CapabilityAdapter) (approved : Option (ProposedDiff × List ℕ)) (n : Option ℕ)
        (i : Inputs) (mode : StepMode) (s : EngineState)
        → IsSelfBound stringify mode approved
        → (implements a mode ≡ false → bad (no_implementation step.capability_id) ≡ false)
        → Fine bad (by_mode stringify w spec step ctx a approved n i mode s)
    unfolding by_mode write_part
    by_mode-Fine a approved n i read s q lack = read_part-Fine _ step i a s lack
    by_mode-Fine a approved n i propose_write s q lack = propose_part-Fine _ step i a s lack
    by_mode-Fine a none n i write s q lack = absurd q
    by_mode-Fine a (some (d, sha)) n i write s q lack =
        if-Fine bad s (is_shadow ctx.mode) _ _ (λ _. tt)
          (λ _. if-Fine bad s a.write _ _ (λ _. write_approved-Fine i a d sha s q) lack)

    found-Fine :
        (r : Result CapabilityAdapter × EngineState) (f : CapabilityAdapter → Run StepExecution)
        → FineAdapter bad step r
        → ((a : CapabilityAdapter) (t : EngineState)
            → (implements a step.mode ≡ false → bad (no_implementation step.capability_id) ≡ false)
            → Fine bad (f a t))
        → Fine bad (and_then r f)
    found-Fine (ok a, t) f h k = k a t h
    found-Fine (threw c, t) f h k = h

    pub run_one-Fine :
        (registry : Registry) (given : Values) (approved : Option (ProposedDiff × List ℕ))
        (s : EngineState)
        → FineAdapter bad step (require_adapter registry step s)
        → IsSelfBound stringify step.mode approved
        → Fine bad (run_one stringify w registry spec given ctx approved step s)
    unfolding run_one execute_step resolve_step_inputs
    run_one-Fine registry given approved s h q =
        found-Fine (require_adapter registry step s) _ h (λ a t lack.
          and_then-Fine bad (resolve_step_inputs spec step given t) _
            (resolve_entries-Fine bad supplied spec step t.outputs given t step.inputs)
            (λ i u. by_mode-Fine a approved none i step.mode u q lack))
