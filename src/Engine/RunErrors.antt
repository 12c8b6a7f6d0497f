-- ===== src/Engine/RunErrors.antt =====
-- Which errors end a run (packages/agent-runtime/src/local-runtime.ts), for any set of bad errors that the calls
-- of adapters and the inputs do not throw, if the lookups of adapters are fine.
use maman_agent.Prelude.{
  Memᴰ, sort_by-mem, ℕ, ◌∷◌, [], ◌≡◌, some, none, Option, List, false, String, refl, arith,
  same_codes, Bool-cases, inl, inr, Bool,
}
use maman_agent.Engine.Base.{
  ProposedDiff, World, CapabilityContext, EngineState, Result, ErrorCause, Run, ok, threw,
  adapter_error, input_not_supplied,
}
use maman_agent.Contracts.{
  AgentSpec, StepMode, AgentStep, read, propose_write, write, is_write, supervised,
}
use maman_agent.Engine.Step.{written, StepExecution, read_done, proposed, skipped_shadow_write}
use maman_agent.Engine.Digest.{diff_sha256}
use maman_agent.Engine.Local.{
  run_one, Registry, proposal_steps, add_execution, write_slice, write_steps, Fresh, Written,
  paired, WritePass, bound, pairs_with, wrote, proposes, require_adapter,
}
use maman_agent.Engine.Errors.{Fine, if-Fine, and_then-Fine, FineAdapter}
use mathlib.Core.Path.{subst}
use maman_agent.AgentInputs.{Values, InputReadiness, not_ready, validate_agent_inputs, ready}
use maman_agent.Engine.Runs.{
  ApprovedOutcome, finish_writes, after_proposals, if_fresh, approved_if, run_approved, context,
  in_order, nothing_fresh, from_scratch,
}
use maman_agent.Engine.StepErrors.{IsSelfBound, run_one-Fine}

module _ (bad : ErrorCause → Bool) (calls : (m : String) → bad (adapter_error m) ≡ false)
    (supplied : (id ref : String) → bad (input_not_supplied id ref) ≡ false)
    (stringify : ProposedDiff → List ℕ) (w : World) (spec : AgentSpec) where
  -- Looking up the adapter of the step is fine.
  abbrev pub Suits : Registry → AgentStep → Type 0
  Suits registry step = (s : EngineState) → FineAdapter bad step (require_adapter registry step s)

  module _ (registry : Registry) (given : Values) (ctx : CapabilityContext) where
    proposal_step-Fine :
        (step : AgentStep) (s : EngineState)
        → Suits registry step
        → is_write step.mode ≡ false
        → Fine bad (run_one stringify w registry spec given ctx none step s)
    proposal_step-Fine step s suits e =
        run_one-Fine bad calls supplied stringify w spec step ctx registry given none s (suits s)
          (unwritten step.mode e)
      where
        unwritten : (m : StepMode) → is_write m ≡ false → IsSelfBound stringify m none
        unwritten read e = tt
        unwritten propose_write e = tt
        unwritten write e = ground (arith, e)

    proposal_steps-Fine :
        (steps : List AgentStep) (f : Fresh) (s : EngineState)
        → ((step : AgentStep) → Memᴰ step steps → Suits registry step)
        → Fine bad (proposal_steps stringify w registry spec given ctx steps f s)
    unfolding proposal_steps
    proposal_steps-Fine [] f s suits = tt
    proposal_steps-Fine (step ∷ steps) f s suits =
        if-Fine bad s (is_write step.mode) _ _
          (λ _. proposal_steps-Fine steps f s (λ x m. suits x (Memᴰ.tail m)))
          (λ e.
            and_then-Fine bad (run_one stringify w registry spec given ctx none step s) _
              (proposal_step-Fine step s (suits step (Memᴰ.head refl)) e)
              (λ r t.
                proposal_steps-Fine steps (proposes f step r) t (λ x m. suits x (Memᴰ.tail m))))

    add_execution-Fine :
        (step : AgentStep) (before : Option Written) (after : Option Written → Run WritePass)
        (r : StepExecution) (t : EngineState)
        → ((so_far : Option Written) (t : EngineState) → Fine bad (after so_far t))
        → Fine bad (add_execution step before after r t)
    unfolding add_execution
    add_execution-Fine step before after (written _ _ v d) t k = k _ t
    add_execution-Fine step before after (read_done _) t k = tt
    add_execution-Fine step before after (proposed _ _) t k = tt
    add_execution-Fine step before after skipped_shadow_write t k = tt

    write_slice-Fine :
        (step : AgentStep) (before : Option Written) (after : Option Written → Run WritePass)
        (slice : Option ProposedDiff) (s : EngineState)
        → Suits registry step
        → ((so_far : Option Written) (t : EngineState) → Fine bad (after so_far t))
        → Fine bad (write_slice stringify w registry spec given ctx step before after slice s)
    unfolding write_slice
    write_slice-Fine step before after none s suits k = tt
    write_slice-Fine step before after (some d) s suits k =
        and_then-Fine bad
          (run_one stringify w registry spec given ctx (bound stringify w registry spec given d)
            step s)
          _
          (run_one-Fine bad calls supplied stringify w spec step ctx registry given _ s (suits s)
            (self_bound step.mode))
          (λ r t. add_execution-Fine step before after r t k)
      where
        self_bound :
            (m : StepMode) → IsSelfBound stringify m (bound stringify w registry spec given d)
        self_bound read = tt
        self_bound propose_write = tt
        self_bound write = refl

    write_steps-Fine :
        (f : Fresh) (steps : List AgentStep) (before : Option Written) (s : EngineState)
        → ((step : AgentStep) → Memᴰ step steps → Suits registry step)
        → Fine bad (write_steps stringify w registry spec given ctx f steps before s)
    unfolding write_steps
    write_steps-Fine f [] before s suits = tt
    write_steps-Fine f (step ∷ steps) before s suits =
        if-Fine bad s (is_write step.mode) _ _
          (λ _.
            write_slice-Fine step before _ (paired f (pairs_with step)) s
              (suits step (Memᴰ.head refl))
              (λ so_far t. write_steps-Fine f steps so_far t (λ x m. suits x (Memᴰ.tail m))))
          (λ _. write_steps-Fine f steps before s (λ x m. suits x (Memᴰ.tail m)))

  unfoldable pub IsFineEnd : ApprovedOutcome → Type 0
  IsFineEnd (ApprovedOutcome.failed c) = bad c ≡ false
  IsFineEnd _ = Unit

  module _ (registry : Registry) (given : Values) (run_id : String) (now : ℕ) (approved : List ℕ)
      (suits : (step : AgentStep) → Memᴰ step spec.steps → Suits registry step) where
    finish_writes-Fine :
        (d : ProposedDiff) (r : Result WritePass × EngineState)
        → Fine bad r
        → IsFineEnd (finish_writes now d r).0
    unfolding finish_writes IsFineEnd
    finish_writes-Fine d (ok (wrote (some wr)), t) h = tt
    finish_writes-Fine d (ok (wrote none), t) h = tt
    finish_writes-Fine d (ok (WritePass.no_proposal _), t) h = tt
    finish_writes-Fine d (ok (WritePass.unexpected_result _), t) h = tt
    finish_writes-Fine d (threw c, t) h = h

    after_proposals-Fine :
        (f : Fresh) (whole : Option ProposedDiff) (s : EngineState)
        → IsFineEnd
            (after_proposals stringify w registry spec given run_id now approved f whole s).0
    unfolding after_proposals IsFineEnd
    after_proposals-Fine f none s = tt
    after_proposals-Fine f (some whole) s =
        elim (Bool-cases (same_codes (diff_sha256 (stringify whole)) approved)) [
          | inl same ↦ rw same (
              finish_writes-Fine whole _ (
                write_steps-Fine registry given (context run_id supervised) f (in_order spec) none s
                  (λ x m. suits x (sort_by-mem (λ s. s.order) x spec.steps m))))
          | inr other ↦ rw other tt
        ]

    if_fresh-Fine :
        (r : Result Fresh × EngineState)
        → Fine bad r
        → IsFineEnd (if_fresh stringify w registry spec given run_id now approved r).0
    unfolding if_fresh IsFineEnd
    if_fresh-Fine (ok f, s) h = after_proposals-Fine f f.diff s
    if_fresh-Fine (threw c, s) h = h

    approved_if-Fine :
        (s : EngineState) (r : InputReadiness)
        → IsFineEnd (approved_if stringify w registry spec given run_id now approved s r).0
    unfolding approved_if IsFineEnd
    approved_if-Fine s (not_ready missing) = tt
    approved_if-Fine s ready = if_fresh-Fine _ (
        proposal_steps-Fine registry given (context run_id supervised) (in_order spec) nothing_fresh
          (from_scratch s) (λ x m. suits x (sort_by-mem (λ s. s.order) x spec.steps m)))

    -- The error that ends an approved run is none of the bad ones.
    pub run_approved-Fine :
        (s : EngineState) (c : ErrorCause)
        → (run_approved stringify w registry (some spec) given run_id now approved s).0
          ≡ ApprovedOutcome.failed c
        → bad c ≡ false
    unfolding run_approved IsFineEnd
    run_approved-Fine s c e =
        subst IsFineEnd e (approved_if-Fine s (validate_agent_inputs spec given))
