-- ===== src/Engine/Approved.antt =====
-- What an approved run writes (packages/agent-runtime/src/local-runtime.ts, `runApproved`).
use maman_agent.Prelude.{
  ℕ, ◌≡◌, some, none, Option, List, true, All, String, refl, Memᴰ, same_codes, sort_by-mem, sym,
  Bool-cases, inl, inr,
}
use maman_agent.Engine.Base.{ProposedDiff, World, EngineState, Result, Call, write_call, ok, threw}
use maman_agent.Engine.Local.{
  Registry, Fresh, proposal_steps, WritePass, wrote, write_steps, paired, pairs_with,
}
use maman_agent.AgentInputs.{Values, validate_agent_inputs, InputReadiness, not_ready, ready}
use maman_agent.Contracts.{AgentSpec, AgentStep, supervised, is_write}
use maman_agent.Engine.Runs.{
  run_approved, finish_writes, after_proposals, if_fresh, approved_if, context, in_order,
  nothing_fresh, from_scratch,
}
use maman_agent.Engine.Logs.{AllowsReads, Keeps}
use maman_agent.Engine.Digest.{diff_sha256}
use maman_agent.Engine.Passes.{proposal_steps-Keeps, write_steps-Keeps}
use maman_agent.Engine.Step.{step_idempotency_key}
use mathlib.Core.Path.{subst}

module _ (stringify : ProposedDiff → List ℕ) (w : World) (registry : Registry) (given : Values)
    (run_id : String) where
  -- The first pass: what the agent would write by now.
  abbrev pub first_pass : AgentSpec → EngineState → Result Fresh × EngineState
  first_pass spec s =
      proposal_steps stringify w registry spec given (context run_id supervised) (in_order spec)
        nothing_fresh (from_scratch s)

  -- The write is one of a write step of the agent, under the key of its own diff, and what it writes is
  -- the step's part of proposals that hash to the approval.
  abbrev pub IsBound : AgentSpec → EngineState → (approved : List ℕ) → Call → Type 0
  IsBound spec s approved (write_call id _ d key) =
      (step : AgentStep) × (f : Fresh) × (whole : ProposedDiff) × Memᴰ step spec.steps
      × is_write step.mode ≡ true
      × id ≡ step.step_id
      × key
        ≡ step_idempotency_key run_id spec.version_id step.step_id step.capability_version
            (diff_sha256 (stringify d))
      × (first_pass spec s).0 ≡ ok f
      × f.diff ≡ some whole
      × same_codes (diff_sha256 (stringify whole)) approved ≡ true
      × paired f (pairs_with step) ≡ some d
  IsBound spec s approved _ = Unit

  module _ (spec : AgentSpec) (start : EngineState) (approved : List ℕ) where
    abbrev Bound : Call → Type 0
    Bound = IsBound spec start approved

    Bound-reads : AllowsReads Bound
    Bound-reads = record { reads = λ _ _. tt; proposes = λ _ _. tt; verifies = λ _ _. tt }

    finish_writes-log :
        (now : ℕ) (d : ProposedDiff) (r : Result WritePass × EngineState)
        → (finish_writes now d r).1.log ≡ r.1.log
    unfolding finish_writes
    finish_writes-log now d (ok (wrote (some _)), s) = refl
    finish_writes-log now d (ok (wrote none), s) = refl
    finish_writes-log now d (ok (WritePass.no_proposal id), s) = refl
    finish_writes-log now d (ok (WritePass.unexpected_result id), s) = refl
    finish_writes-log now d (threw c, s) = refl

    Bound-writes :
        (f : Fresh) (whole : ProposedDiff)
        → (first_pass spec start).0 ≡ ok f
        → f.diff ≡ some whole
        → same_codes (diff_sha256 (stringify whole)) approved ≡ true
        → Keeps Bound (
            write_steps stringify w registry spec given
              (context run_id supervised)
              f
              (in_order spec)
              none)
    Bound-writes f whole p e same =
        write_steps-Keeps Bound Bound-reads stringify w registry spec given
          (context run_id supervised) f (in_order spec) none
          (λ step slice m q i d sha a same' live k. (
            step,
            f,
            whole,
            sort_by-mem (λ s. s.order) step spec.steps m,
            k,
            refl,
            cc,
            p,
            e,
            same,
            cc,
          ))

    after_proposals-Bound :
        (now : ℕ) (f : Fresh) (whole : Option ProposedDiff) (s : EngineState)
        → (first_pass spec start).0 ≡ ok f
        → f.diff ≡ whole
        → All Bound s.log
        → All Bound
            (after_proposals stringify w registry spec given run_id now approved f whole s).1.log
    unfolding after_proposals
    after_proposals-Bound now f none s p e h = h
    after_proposals-Bound now f (some whole) s p e h =
        elim (Bool-cases (same_codes (diff_sha256 (stringify whole)) approved)) [
          | inl same ↦ rw same (
              subst (All Bound) (sym (finish_writes-log now whole _))
                (Bound-writes f whole p e same s h))
          | inr other ↦ rw other h
        ]

    if_fresh-Bound :
        (now : ℕ) (r : Result Fresh) (s : EngineState)
        → (first_pass spec start).0 ≡ r
        → All Bound s.log
        → All Bound (if_fresh stringify w registry spec given run_id now approved (r, s)).1.log
    unfolding if_fresh
    if_fresh-Bound now (ok f) s p h = after_proposals-Bound now f f.diff s p refl h
    if_fresh-Bound now (threw c) s p h = h

    approved_if-Bound :
        (now : ℕ) (r : InputReadiness)
        → All Bound start.log
        → All Bound (approved_if stringify w registry spec given run_id now approved start r).1.log
    unfolding approved_if
    approved_if-Bound now (not_ready missing) h = h
    approved_if-Bound now ready h =
        if_fresh-Bound now (first_pass spec start).0 (first_pass spec start).1 refl (
          proposal_steps-Keeps Bound Bound-reads stringify w registry spec given
            (context run_id supervised) (in_order spec) nothing_fresh (from_scratch start) h)

  -- Every write that an approved run of a registered agent makes is one of a write step of the agent. The
  -- first pass has come to proposals whose merged diff hashes to what was approved. The written diff is the step's part of those
  -- proposals, or all of them, and the key of the write carries the hash of that diff. The calls that were logged before the
  -- run are required to be so, too; there are none when it starts from an empty log.
  pub run_approved-IsBound :
      (spec : AgentSpec) (now : ℕ) (approved : List ℕ) (s : EngineState)
      → All (IsBound spec s approved) s.log
      → All
          (IsBound spec s approved)
          (run_approved stringify w registry (some spec) given run_id now approved s).1.log
  unfolding run_approved
  run_approved-IsBound spec now approved s h =
      approved_if-Bound spec s approved now (validate_agent_inputs spec given) h
