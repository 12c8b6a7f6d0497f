-- ===== src/Engine/Logs.antt =====
-- What a piece of a run can add to the log (packages/agent-runtime/src/run-engine.ts).
use maman_agent.Prelude.{
  ℕ, zero, suc, ◌≡◌, true, false, String, Option, none, some, List, All, refl, Bool, same_codes,
  is_empty, ap, if◌then◌else◌, ◌∷◌,
}
use maman_agent.Contracts.{
  AgentSpec, AgentStep, StepMode, read, propose_write, write, is_write, is_shadow,
}
use maman_agent.AgentInputs.{Values}
use maman_agent.Engine.Base.{
  ProposedDiff, CapabilityContext, CapabilityAdapter, Inputs, Call, read_call, propose_call,
  write_call, verify_call, Answer, returned, transient, permanent, World, EngineState, Result, ok,
  threw, Run, ◌>>=◌, and_then, ask, logged, adapter_error, KeyPart, Output, pure,
}
use maman_agent.Engine.Step.{
  attempt, read_part, propose_part, verify_part, perform_write, write_approved, write_part, by_mode,
  execute_step, step_idempotency_key, resolve_step_inputs, conclude_write, written,
}
use maman_agent.Engine.Digest.{diff_sha256}

module _ (Q : Call → Type 0) where
  -- The log holds only such calls afterwards if it did before.
  abbrev pub Keeps {ℓ} : {A : Type ℓ} → Run A → Type 0
  Keeps m = (s : EngineState) → All Q s.log → All Q (m s).1.log

  and_then-Keeps {ℓ κ} :
      {A : Type ℓ} {B : Type κ} (r : Result A) (s : EngineState) (f : A → Run B)
      → ((a : A) → Keeps (f a))
      → All Q s.log
      → All Q (and_then (r, s) f).1.log
  and_then-Keeps (ok a) s f k h = k a s h
  and_then-Keeps (threw c) s f k h = h

  pub bind-Keeps {ℓ κ} :
      {A : Type ℓ} {B : Type κ} (m : Run A) (f : A → Run B)
      → Keeps m
      → ((a : A) → Keeps (f a))
      → Keeps (m >>= f)
  bind-Keeps m f h k s q = and_then-Keeps (m s).0 (m s).1 f k (h s q)

  ask-Keeps {ℓ} : {A : Type ℓ} (c : Call) (answers : ℕ → Answer A) → Q c → Keeps (ask c answers)
  unfolding ask
  ask-Keeps c answers q s h = (q, h)

  attempted-Keeps {ℓ} :
      {A : Type ℓ} (n : ℕ) (c : Call) (answers : ℕ → Answer A) (a : Answer A) (s : EngineState)
      → Q c
      → ((m : String) (t : EngineState) → All Q t.log → All Q (attempt n m c answers t).1.log)
      → All Q s.log
      → All Q
          (elim a as (λ _. Result A × EngineState) [
            | returned b ↦ (ok b, logged c s)
            | permanent m ↦ (threw (adapter_error m), logged c s)
            | transient m ↦ attempt n m c answers (logged c s)
          ]).1.log
  attempted-Keeps n c answers (returned b) s q ih h = (q, h)
  attempted-Keeps n c answers (permanent m) s q ih h = (q, h)
  attempted-Keeps n c answers (transient m) s q ih h = ih m (logged c s) (q, h)

  attempt-Keeps {ℓ} :
      {A : Type ℓ} (n : ℕ) (last : String) (c : Call) (answers : ℕ → Answer A)
      → Q c
      → Keeps (attempt n last c answers)
  unfolding attempt
  attempt-Keeps zero last c answers q s h = h
  attempt-Keeps (suc n) last c answers q s h =
      attempted-Keeps n c answers (answers s.calls) s q (λ m t k. attempt-Keeps n m c answers q t k)
        h

module _ (Q : Call → Type 0) where
  pub if-Keeps {ℓ} :
      {A : Type ℓ} (b : Bool) (m n : Run A)
      → (b ≡ true → Keeps Q m)
      → (b ≡ false → Keeps Q n)
      → Keeps Q (if b then m else n)
  if-Keeps true m n h k = h refl
  if-Keeps false m n h k = k refl

-- The calls that are no writes are allowed.
pub record AllowsReads (Q : Call → Type 0) : Type 0 where
  pub reads : (id : String) (i : Inputs) → Q (read_call id i)
  pub proposes : (id : String) (i : Inputs) → Q (propose_call id i)
  pub verifies : (id : String) (i : Inputs) → Q (verify_call id i)

module _ (Q : Call → Type 0) (allows : AllowsReads Q) (stringify : ProposedDiff → List ℕ)
    (w : World) where
  read_part-Keeps :
      (n : ℕ) (step : AgentStep) (i : Inputs) (a : CapabilityAdapter)
      → Keeps Q (read_part stringify w n step i a)
  unfolding read_part
  read_part-Keeps n step i a =
      if-Keeps Q a.read _ _
        (λ _.
          bind-Keeps Q (attempt n "" (read_call step.step_id i) w.read) _
            (attempt-Keeps Q n "" (read_call step.step_id i) w.read (allows.reads step.step_id i))
            (λ o s h. h))
        (λ _ s h. h)

  propose_part-Keeps :
      (n : ℕ) (step : AgentStep) (i : Inputs) (a : CapabilityAdapter)
      → Keeps Q (propose_part stringify w n step i a)
  unfolding propose_part
  propose_part-Keeps n step i a =
      if-Keeps Q a.propose_write _ _
        (λ _.
          bind-Keeps Q (attempt n "" (propose_call step.step_id i) w.propose_write) _
            (attempt-Keeps Q n "" (propose_call step.step_id i) w.propose_write
              (allows.proposes step.step_id i))
            (λ o s h. h))
        (λ _ s h. h)

  verify_part-Keeps :
      (step : AgentStep) (i : Inputs) (a : CapabilityAdapter)
      → Keeps Q (verify_part stringify w step i a)
  unfolding verify_part
  verify_part-Keeps step i a =
      if-Keeps Q a.verify _ _
        (λ _. ask-Keeps Q (verify_call step.step_id i) w.verify (allows.verifies step.step_id i))
        (λ _ s h. h)

  conclude_write-Keeps :
      (step : AgentStep) (i : Inputs) (a : CapabilityAdapter) (key : List KeyPart) (o : Output)
      → Keeps Q (conclude_write stringify w step i a key o)
  unfolding conclude_write
  conclude_write-Keeps step i a key o s h =
      bind-Keeps Q (verify_part stringify w step i a)
        (λ v. pure (written o key v.verified v.detail)) (verify_part-Keeps step i a) (λ v t k. k)
        (record s { outputs = (step.output_key, o) ∷ s.outputs }) h

  -- The writes that a step may make are allowed.
  abbrev pub AllowsWrites :
      AgentSpec → AgentStep → CapabilityContext → Option (ProposedDiff × List ℕ) → Type 0
  AllowsWrites spec step ctx approved =
      (i : Inputs) (d : ProposedDiff) (sha : List ℕ)
      → approved ≡ some (d, sha)
      → same_codes (diff_sha256 (stringify d)) sha ≡ true
      → is_shadow ctx.mode ≡ false
      → is_write step.mode ≡ true
      → Q (
          write_call step.step_id i d (
            step_idempotency_key ctx.run_id spec.version_id step.step_id step.capability_version
              sha))

  module _ (spec : AgentSpec) (step : AgentStep) (ctx : CapabilityContext) where
    perform_write-Keeps :
        (i : Inputs) (a : CapabilityAdapter) (d : ProposedDiff) (sha : List ℕ)
        → Q (
            write_call step.step_id i d (
              step_idempotency_key ctx.run_id spec.version_id step.step_id step.capability_version
                sha))
        → Keeps Q (perform_write stringify w spec step ctx i a d sha)
    unfolding perform_write
    perform_write-Keeps i a d sha q =
        bind-Keeps Q (ask (write_call step.step_id i d _) w.write) _
          (ask-Keeps Q (write_call step.step_id i d _) w.write q)
          (λ o. conclude_write-Keeps step i a _ o)

    write_approved-Keeps :
        (i : Inputs) (a : CapabilityAdapter) (approved : Option (ProposedDiff × List ℕ))
        → is_shadow ctx.mode ≡ false
        → is_write step.mode ≡ true
        → AllowsWrites spec step ctx approved
        → Keeps Q (write_approved stringify w spec step ctx i a approved)
    unfolding write_approved
    write_approved-Keeps i a none m k q = λ s h. h
    write_approved-Keeps i a (some (d, sha)) m k q =
        if-Keeps Q (is_empty sha) _ _ (λ _ s h. h)
          (λ _.
            if-Keeps Q (same_codes (diff_sha256 (stringify d)) sha) _ _
              (λ same. perform_write-Keeps i a d sha (q i d sha refl same m k)) (λ _ s h. h))

    write_part-Keeps :
        (i : Inputs) (a : CapabilityAdapter) (approved : Option (ProposedDiff × List ℕ))
        → is_write step.mode ≡ true
        → AllowsWrites spec step ctx approved
        → Keeps Q (write_part stringify w spec step ctx i a approved)
    unfolding write_part
    write_part-Keeps i a approved k q =
        if-Keeps Q (is_shadow ctx.mode) _ _ (λ _ s h. h)
          (λ m. if-Keeps Q a.write _ _ (λ _. write_approved-Keeps i a approved m k q) (λ _ s h. h))

    by_mode-Keeps :
        (a : CapabilityAdapter) (approved : Option (ProposedDiff × List ℕ)) (n : Option ℕ)
        (i : Inputs) (mode : StepMode)
        → step.mode ≡ mode
        → AllowsWrites spec step ctx approved
        → Keeps Q (by_mode stringify w spec step ctx a approved n i mode)
    unfolding by_mode
    by_mode-Keeps a approved n i read e q = read_part-Keeps _ step i a
    by_mode-Keeps a approved n i propose_write e q = propose_part-Keeps _ step i a
    by_mode-Keeps a approved n i write e q = write_part-Keeps i a approved (ap is_write e) q

    -- A step adds its reads, its proposals, its check, and the write that its approval allows.
    pub execute_step-Keeps :
        (given : Values) (a : CapabilityAdapter) (approved : Option (ProposedDiff × List ℕ))
        (n : Option ℕ)
        → AllowsWrites spec step ctx approved
        → Keeps Q (execute_step stringify w spec step given ctx a approved n)
    unfolding execute_step resolve_step_inputs
    execute_step-Keeps given a approved n q =
        bind-Keeps Q (resolve_step_inputs spec step given) _ (λ s h. h)
          (λ i. by_mode-Keeps a approved n i step.mode refl q)
