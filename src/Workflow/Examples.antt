-- ===== src/Workflow/Examples.antt =====
-- Tests of whole runs, and the theorems of the workflow at concrete worlds.
use maman_agent.Prelude.{
  ◌===◌, Bool, ◌≡◌, ◌≤◌, refl, true, none, some, Option, [], ◌∷◌, ◌==◌, if◌then◌else◌, ◌↔◌, All,
}
use maman_agent.Contracts.{shadow, supervised, AgentStep}
use maman_agent.AgentInputs.Laws.{IsSupplied, validate_agent_inputs-ready_iff}
use maman_agent.AgentInputs.{ready, str, lookup, validate_agent_inputs}
use maman_agent.Samples.{reconcile}
use maman_agent.Workflow.State.{
  StepActivityResult, Signal, approve_step, World, PolicyAnswer, FinalStatus, returned, Flow,
  ActivityStatus, handle, deliver, await, bookkeep, finish,
}
use maman_agent.Workflow.Steps
use maman_agent.Workflow.Steps.{AgentRunInput, agent_run_workflow}
use maman_agent.Workflow.Triples.{vars_of}
use maman_agent.Workflow.LogRules.{writes}
use maman_agent.Workflow.Shadow.{shadow-writes}
use maman_agent.Workflow.Approval.{IsJustified, workflow-IsJustified}
use maman_agent.Workflow.Accounting.{own, writes_of, write_steps, workflow-writes}

engine : Unit {0}
unfolding Steps.agent_run_workflow Steps.after_policy Steps.if_ready Steps.run_steps Steps.run_step
    Steps.by_mode Steps.write_step Steps.write_with Steps.apply_write Steps.after_recheck
    Steps.after_write Steps.gate Steps.wait_decision Steps.decide Steps.read_step Steps.after_read
    finish bookkeep await deliver handle validate_agent_inputs lookup
engine = tt

-- Every activity succeeds and proposes the same diff; the user approves it during the wait.
abbrev result : StepActivityResult
result = record {
  status = ActivityStatus.completed;
  outputs = [];
  diff_sha256 = some "d1";
  diff = none;
  change_count = some 2;
  verified = some true;
  error_code = none;
  cost_usd = some 1;
}

abbrev approve_d1 : Signal
approve_d1 = approve_step (record { step_id = "s3"; diff_hash = "d1"; approver_user_id = "ann" })

abbrev good : World
good = record {
  signals = λ n. if n == 10 then approve_d1 ∷ [] else [];
  recorded = λ n. true;
  policy = λ n. some PolicyAnswer.allow;
  executed = λ n. some result;
  waited_ms = λ n. 700;
}

-- The approval names another diff.
abbrev stale : World
stale = record good {
  signals = λ n.
      if n == 10
      then approve_step (record { step_id = "s3"; diff_hash = "d0"; approver_user_id = "ann" }) ∷ []
      else [];
}

abbrev supervised_run : AgentRunInput
supervised_run = record { mode = supervised; agent_inputs = ("account_csv", str "a,b") ∷ [] }

abbrev shadow_run : AgentRunInput
shadow_run = record { mode = shadow; agent_inputs = ("account_csv", str "a,b") ∷ [] }

abbrev status_of : Flow → Option FinalStatus
status_of (returned s v) = some s
status_of _ = none

outcomes :
    (status_of (agent_run_workflow good reconcile supervised_run) ≡ some FinalStatus.completed)
    × (status_of (agent_run_workflow stale reconcile supervised_run) ≡ some FinalStatus.expired)
    × (status_of (agent_run_workflow good reconcile shadow_run) ≡ some FinalStatus.completed)
    × (status_of
          (agent_run_workflow good reconcile (record { mode = supervised; agent_inputs = [] }))
        ≡ some FinalStatus.failed)
unfolding engine
outcomes = (refl, refl, refl, refl)

counts :
    (writes (vars_of (agent_run_workflow good reconcile supervised_run)).log ≡ 1)
    × ((vars_of (agent_run_workflow good reconcile supervised_run)).intervention_ms ≡ 700)
    × ((vars_of (agent_run_workflow good reconcile supervised_run)).total_cost ≡ 3)
unfolding engine
counts = (refl, refl, refl)

shadow-writes_example : writes (vars_of (agent_run_workflow good reconcile shadow_run)).log ≡ 0
shadow-writes_example = shadow-writes good reconcile shadow_run refl

workflow-IsJustified_example :
    IsJustified (vars_of (agent_run_workflow good reconcile supervised_run)).log
workflow-IsJustified_example = workflow-IsJustified good reconcile supervised_run

-- The steps with the id of the write step.
abbrev is_s3 : AgentStep → Bool
is_s3 s = s.step_id === "s3"

workflow-writes_example :
    (writes_of is_s3 (vars_of (agent_run_workflow good reconcile supervised_run)).log
      ≤ write_steps is_s3 reconcile.steps)
    × ((vars_of (agent_run_workflow good reconcile supervised_run)).completed_writes
        ≤ writes (vars_of (agent_run_workflow good reconcile supervised_run)).log)
workflow-writes_example = workflow-writes good reconcile supervised_run is_s3

-- One write of that step is made, and one at most may be.
s3_writes :
    (writes_of is_s3 (vars_of (agent_run_workflow good reconcile supervised_run)).log ≡ 1)
    × (write_steps is_s3 reconcile.steps ≡ 1)
unfolding engine own
s3_writes = (refl, refl)

validate_agent_inputs-ready_iff_example :
    (validate_agent_inputs reconcile supervised_run.agent_inputs ≡ ready)
    ↔ All (IsSupplied supervised_run.agent_inputs) reconcile.inputs
validate_agent_inputs-ready_iff_example =
    validate_agent_inputs-ready_iff reconcile supervised_run.agent_inputs
