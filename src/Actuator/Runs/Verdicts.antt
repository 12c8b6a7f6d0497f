-- ===== src/Actuator/Runs/Verdicts.antt =====
-- What each round pushes (packages/browser-actuator/src/execute.ts).
use maman_agent.Prelude.{
  ℕ, ◌≡◌, Bool, true, false, Option, none, some, List, arith, ◌++◌, ◌∷◌, [], ◌+◌, refl,
}
use maman_agent.Actuator.Plan.{PlanStep, Piece}
use maman_agent.Actuator.Verify.{
  BrowserObservation, WriteVerification, verified, value_mismatch, no_observation,
  requires_independent_read, not_applied, not_a_write, verify_write,
}
use maman_agent.Actuator.Execute.{
  Answer, answered, malformed, thrown, StepStatus, applied, observed, unverified, skipped,
  HaltReason, Verdict, judge_write, judge_result, judge, Execution, ExecuteContext, ExecuteDeps,
  plain, hold, settle, issue_input, send, issue, round, rounds,
}
use maman_agent.Actuator.Authorize.{IssueRefusal, authorize_issue}

abbrev pub is_applied : StepStatus → Bool
is_applied applied = true
is_applied _ = false

abbrev pub is_skipped : StepStatus → Bool
is_skipped skipped = true
is_skipped _ = false

-- The run goes on after these.
abbrev pub is_success : StepStatus → Bool
is_success applied = true
is_success observed = true
is_success _ = false

-- These are the writes that went in.
abbrev pub is_write_done : StepStatus → Bool
is_write_done applied = true
is_write_done unverified = true
is_write_done _ = false

abbrev pub goes_on : Option HaltReason → Bool
goes_on none = true
goes_on (some _) = false

-- A verdict is about its step, halts exactly when it is no success, and counts the writes that went in.
pub record IsVerdict (step : PlanStep) (v : Verdict) : Type 0 where
  pub same_id : v.outcome.step_id ≡ step.step_id
  pub same_write : v.outcome.write ≡ step.write
  pub goes : is_success v.outcome.status ≡ goes_on v.halt
  pub not_skipped : is_skipped v.outcome.status ≡ false
  pub counts : is_write_done v.outcome.status ≡ v.counted
  pub written : step.write ≡ true → goes_on v.halt ≡ is_applied v.outcome.status

judge_write-IsVerdict :
    (step : PlanStep) (seen : Option BrowserObservation) (w : WriteVerification)
    → IsVerdict step (judge_write step seen w)
unfolding judge_write
judge_write-IsVerdict step seen verified = ground arith
judge_write-IsVerdict step seen value_mismatch = ground arith
judge_write-IsVerdict step seen no_observation = ground arith
judge_write-IsVerdict step seen requires_independent_read = ground arith
judge_write-IsVerdict step seen not_applied = ground arith
judge_write-IsVerdict step seen not_a_write = ground arith

module _ (lower_case : List ℕ → List ℕ) where
  pub judge-IsVerdict : (step : PlanStep) (a : Answer) → IsVerdict step (judge lower_case step a)
  unfolding judge judge_result
  judge-IsVerdict step (answered r) =
      ground (arith, judge_write-IsVerdict step r.observed (verify_write lower_case step.action r))
  judge-IsVerdict step (malformed m) = ground arith
  judge-IsVerdict step (thrown m) = ground arith

pub hold-IsVerdict : (step : PlanStep) (r : IssueRefusal) → IsVerdict step (hold step r)
hold-IsVerdict step r = ground arith

-- What is kept by a skipped round, by a step that is held back and by one that is sent, is kept by a run.
module _ {κ} (P : Execution → Type κ) (lower_case : List ℕ → List ℕ) (ctx : ExecuteContext)
    (deps : ExecuteDeps)
    (skips : (step : PlanStep) (id : List Piece) (e : Execution)
      → e.halted_at ≡ some id
      → P e
      → P (record e { steps = e.steps ++ plain step skipped ∷ [] }))
    (holds : (step : PlanStep) (reason : IssueRefusal) (e : Execution)
      → e.halted_at ≡ none
      → P e
      → P (settle step (hold step reason) e))
    (sends : (i : ℕ) (step : PlanStep) (e : Execution)
      → e.halted_at ≡ none
      → authorize_issue (issue_input ctx deps i e step) ≡ none
      → P e
      → P (send lower_case ctx deps i step e)) where
  issue_keeps :
      (i : ℕ) (step : PlanStep) (gate : Option IssueRefusal) (e : Execution)
      → e.halted_at ≡ none
      → authorize_issue (issue_input ctx deps i e step) ≡ gate
      → P e
      → P (issue lower_case ctx deps i step gate e)
  unfolding issue
  issue_keeps i step none e h g p = sends i step e h g p
  issue_keeps i step (some reason) e h g p = holds step reason e h p

  round_keeps :
      (i : ℕ) (step : PlanStep) (halted : Option (List Piece)) (e : Execution)
      → e.halted_at ≡ halted
      → P e
      → P (round lower_case ctx deps i step halted e)
  unfolding round
  round_keeps i step (some id) e h p = skips step id e h p
  round_keeps i step none e h p = issue_keeps i step _ e h refl p

  pub rounds_keep :
      (i : ℕ) (steps : List PlanStep) (e : Execution)
      → P e
      → P (rounds lower_case ctx deps i steps e)
  unfolding rounds
  rounds_keep i [] e p = p
  rounds_keep i (step ∷ steps) e p =
      rounds_keep (i + 1) steps (round lower_case ctx deps i step e.halted_at e)
        (round_keeps i step e.halted_at e refl p)
