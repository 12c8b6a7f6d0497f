-- ===== src/Workflow/Steps.antt =====
-- The body of `agentRunWorkflow` (workflow.ts): policy, inputs, and the loop over the steps.
use maman_agent.Prelude.{
  ℕ, ◌+◌, Bool, true, false, not, ◌||◌, String, ◌===◌, Option, none, some, List, [], ◌∷◌, sort_by,
  if◌then◌else◌,
}
use maman_agent.Contracts.{
  AgentSpec, AgentStep, RunMode, shadow, StepMode, read, propose_write, write,
}
use maman_agent.AgentInputs.{Values, ready, not_ready, InputReadiness, validate_agent_inputs}
use maman_agent.Workflow.State.{
  ActivityStatus, StepActivityResult, SummaryStatus, RunStepSummary, FinalStatus, RunStatus,
  validating, running_read, preparing_diff, applying_write, verifying, policy_checked,
  step_executed, approval_created, write_executed, step_recorded, Vars, initial, PolicyAnswer, deny,
  World, await, noted, Flow, next, thrown, ◌>>=◌, bookkeep, record_status, finish,
}

-- `AgentRunInput`, the fields that the workflow reads.
pub record AgentRunInput : Type 0 where
  pub mode : RunMode
  pub agent_inputs : Values

abbrev pub is_some {ℓ} : {A : Type ℓ} → Option A → Bool
is_some none = false
is_some (some _) = true

-- A text that is set and not empty, as a condition reads it.
abbrev pub truthy_text : Option String → Option String
truthy_text none = none
truthy_text (some s) = if s === "" then none else some s

abbrev pub or_zero : Option ℕ → ℕ
or_zero none = 0
or_zero (some n) = n

abbrev pub is_failed : ActivityStatus → Bool
is_failed ActivityStatus.failed = true
is_failed _ = false

abbrev pub is_deny : PolicyAnswer → Bool
is_deny deny = true
is_deny _ = false

abbrev pub is_false : Option Bool → Bool
is_false (some false) = true
is_false _ = false

abbrev pub is_shadow : RunMode → Bool
is_shadow shadow = true
is_shadow _ = false

-- A change of the summary that the loop is working on.
abbrev pub on_summary :
    (RunStepSummary → RunStepSummary) → List RunStepSummary → List RunStepSummary
on_summary f [] = []
on_summary f (s ∷ ss) = f s ∷ ss

abbrev pub set_summary : SummaryStatus → Vars → Vars
set_summary s v = record v { summaries = on_summary (λ r. record r { status = s }) v.summaries }

abbrev pub set_error : Option String → Vars → Vars
set_error none v = v
set_error (some code) v = record v {
  summaries = on_summary (λ r. record r { error_code = some code }) v.summaries;
}

-- `stepSummaries.push(summary)`.
abbrev pub push_summary : AgentStep → Vars → Vars
push_summary s v = record v {
  summaries =
      record {
        step_id = s.step_id;
        step_order = s.order;
        capability_id = s.capability_id;
        mode = s.mode;
        status = SummaryStatus.running;
        diff_sha256 = none;
        error_code = none;
      }
      ∷ v.summaries;
}

-- What a result with a diff leaves behind.
abbrev pub keep_diff : StepActivityResult → Option String → Vars → Vars
keep_diff r none v = v
keep_diff r (some sha) v = record v {
  summaries = on_summary (λ s. record s { diff_sha256 = some sha }) v.summaries;
  last_diff_sha = some sha;
  last_diff = r.diff;
  proposed_diff = r.diff;
  proposed_changes = v.proposed_changes + or_zero r.change_count;
}

abbrev pub absorb : StepActivityResult → Vars → Vars
absorb r v = record v { outputs = r.outputs; total_cost = v.total_cost + or_zero r.cost_usd }

module _ (w : World) where
  -- What follows the read activity of a step.
  unfoldable pub after_read : AgentStep → Option StepActivityResult → Vars → Flow
  after_read s none v = finish w FinalStatus.failed (set_summary SummaryStatus.failed v)
  after_read s (some r) v =
      if is_failed r.status
      then (do
        v ←
            bookkeep w (step_recorded s)
              (set_error (truthy_text r.error_code) (set_summary SummaryStatus.failed (absorb r v)))
        finish w FinalStatus.failed v)
      else bookkeep w (step_recorded s) (
          keep_diff r (truthy_text r.diff_sha256)
            (set_summary SummaryStatus.completed (absorb r v)))

  -- A `read` or `propose_write` step, whose status is given.
  unfoldable pub read_step : RunStatus → AgentStep → Vars → Flow
  read_step status s v = do
    v ← record_status w status v
    after_read s (w.executed v.awaits) (await w (noted (step_executed s) v))

  -- How the wait for a decision ended.
  unfoldable pub decide : Vars → Flow
  decide v =
      if not (is_some v.approval || is_some v.rejection || is_some v.cancellation)
      then finish w FinalStatus.expired v
      else (if is_some v.cancellation
          then finish w FinalStatus.cancelled v
          else (if is_some v.rejection then finish w FinalStatus.cancelled v else next v))

  -- The wait itself: signals arrive until a decision or the timeout.
  unfoldable pub wait_decision : Vars → Vars
  wait_decision v = record (await w v) {
    intervention_ms = (await w v).intervention_ms + w.waited_ms v.awaits;
    pending_approval = none;
  }

  -- The approval gate of a write step for a proposed diff.
  unfoldable pub gate : AgentStep → String → Vars → Flow
  gate s sha v =
      if s.approval.required
      then (do
        v ← record_status w RunStatus.waiting_approval (
            set_summary SummaryStatus.waiting_approval (record v {
              pending_approval = some (record { step_id = s.step_id; diff_sha256 = sha });
              approval = none;
              rejection = none;
            }))
        v ← bookkeep w (approval_created s.step_id sha) v
        decide (wait_decision v))
      else next v

  -- What follows the write activity.
  unfoldable pub after_write : AgentStep → Option StepActivityResult → Vars → Flow
  after_write s none v = finish w FinalStatus.failed (set_summary SummaryStatus.failed v)
  after_write s (some r) v =
      if is_failed r.status
      then finish w FinalStatus.failed
          (set_error (truthy_text r.error_code) (set_summary SummaryStatus.failed (absorb r v)))
      else (do
        v ← record_status w verifying (absorb r v)
        bookkeep w (step_recorded s) (record (set_summary SummaryStatus.completed v) {
          completed_writes = v.completed_writes + 1;
          warnings = v.warnings || is_false r.verified;
        }))

  -- What follows the second policy check, which the run cannot pass if it is denied or fails.
  unfoldable pub after_recheck : AgentStep → String → Option PolicyAnswer → Vars → Flow
  after_recheck s sha none v = thrown v
  after_recheck s sha (some p) v = if is_deny p then finish w FinalStatus.policy_blocked v else (do
    v ← record_status w applying_write v
    after_write s (w.executed v.awaits) (await w (noted (write_executed s sha) v)))

  -- The approved write of a step.
  unfoldable pub apply_write : AgentStep → String → Vars → Flow
  apply_write s sha v = do
    v ← gate s sha v
    after_recheck s sha (w.policy v.awaits) (await w (noted policy_checked v))

  unfoldable pub write_with : AgentStep → Option String → Vars → Flow
  write_with s none v = finish w FinalStatus.failed (set_summary SummaryStatus.failed v)
  write_with s (some sha) v = apply_write s sha v

  -- A `write` step.
  unfoldable pub write_step : RunMode → AgentStep → Vars → Flow
  write_step mode s v =
      if is_shadow mode
      then bookkeep w (step_recorded s) (set_summary SummaryStatus.skipped v)
      else write_with s v.last_diff_sha v

  unfoldable pub by_mode : RunMode → AgentStep → StepMode → Vars → Flow
  by_mode mode s read v = read_step running_read s v
  by_mode mode s propose_write v = read_step preparing_diff s v
  by_mode mode s write v = write_step mode s v

  -- One round of the loop.
  unfoldable pub run_step : RunMode → AgentStep → Vars → Flow
  run_step mode s v =
      if is_some v.cancellation
      then finish w FinalStatus.cancelled v
      else by_mode mode s s.mode (push_summary s v)

  unfoldable pub run_steps : RunMode → List AgentStep → Vars → Flow
  run_steps mode [] v =
      finish w (if v.warnings then FinalStatus.completed_with_warnings else FinalStatus.completed) v
  run_steps mode (s ∷ ss) v = run_step mode s v >>= run_steps mode ss

  unfoldable pub if_ready : AgentSpec → AgentRunInput → InputReadiness → Vars → Flow
  if_ready spec run ready v = run_steps run.mode (sort_by (λ s. s.order) spec.steps) v
  if_ready spec run (not_ready ms) v = finish w FinalStatus.failed v

  unfoldable pub after_policy : AgentSpec → AgentRunInput → Option PolicyAnswer → Vars → Flow
  after_policy spec run none v = thrown v
  after_policy spec run (some p) v =
      if is_deny p
      then finish w FinalStatus.policy_blocked v
      else if_ready spec run (validate_agent_inputs spec run.agent_inputs) v

  unfoldable pub agent_run_workflow : AgentSpec → AgentRunInput → Flow
  agent_run_workflow spec run = do
    v ← record_status w validating (initial run.agent_inputs)
    after_policy spec run (w.policy v.awaits) (await w (noted policy_checked v))
