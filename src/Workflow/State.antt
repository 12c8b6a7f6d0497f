-- ===== src/Workflow/State.antt =====
-- The workflow's variables, signal handlers and awaits (workflow.ts).
--
-- Activities, timers and signals belong to Temporal and to the worker. A `World` answers the n-th
-- await of a run and says which signals are delivered while the run waits there; every theorem holds
-- for each world. An activity that has used up its retries answers `none`, which is an exception.
-- `log` records what the run asked of its activities and which approvals it accepted, newest first;
-- the code has no such variable and nothing reads it. Summaries are newest first too, so that the
-- one that the loop still changes is at the head.
use maman_agent.Prelude.{
  ℕ, ◌+◌, Bool, false, ◌&&◌, String, ◌===◌, Option, none, some, List, [], ◌∷◌, if◌then◌else◌,
}
use maman_agent.Contracts.{AgentStep, StepMode}
use maman_agent.AgentInputs.{JsonValue, Values}

pub data ActivityStatus : Type 0 where
  completed proposed skipped_shadow_write failed : ActivityStatus

-- `StepActivityResult`, the fields that the workflow reads.
pub record StepActivityResult : Type 0 where
  pub status : ActivityStatus
  pub outputs : Values
  pub diff_sha256 : Option String
  pub diff : Option JsonValue
  pub change_count : Option ℕ
  pub verified : Option Bool
  pub error_code : Option String
  pub cost_usd : Option ℕ

pub record ApproveStepPayload : Type 0 where
  pub step_id : String
  pub diff_hash : String
  pub approver_user_id : String

pub record RejectStepPayload : Type 0 where
  pub step_id : String
  pub reason : String

pub record CancelRunPayload : Type 0 where
  pub actor_user_id : String
  pub reason : String

pub data Signal : Type 0 where
  approve_step : ApproveStepPayload → Signal
  reject_step : RejectStepPayload → Signal
  cancel_run : CancelRunPayload → Signal

pub data SummaryStatus : Type 0 where
  pending running waiting_approval completed failed skipped : SummaryStatus

-- `RunStepSummary`, without its times.
pub record RunStepSummary : Type 0 where
  pub step_id : String
  pub step_order : ℕ
  pub capability_id : String
  pub mode : StepMode
  pub status : SummaryStatus
  pub diff_sha256 : Option String
  pub error_code : Option String

pub data FinalStatus : Type 0 where
  completed completed_with_warnings failed cancelled expired policy_blocked : FinalStatus

pub data RunStatus : Type 0 where
  validating running_read preparing_diff waiting_approval applying_write verifying : RunStatus
  final : FinalStatus → RunStatus

-- The activities that the run called, and the approvals that it accepted.
pub data Entry : Type 0 where
  status_recorded : RunStatus → Entry
  policy_checked : Entry
  step_executed : AgentStep → Entry
  approval_created : (step_id diff_sha256 : String) → Entry
  write_executed : AgentStep → (diff_sha256 : String) → Entry
  step_recorded : AgentStep → Entry
  finalized : FinalStatus → Entry
  approval_accepted : ApproveStepPayload → Entry

pub record PendingApproval : Type 0 where
  pub step_id : String
  pub diff_sha256 : String

-- The variables of `agentRunWorkflow`; `awaits` counts the awaits behind the run.
pub record Vars : Type 0 where
  pub awaits : ℕ
  pub status : RunStatus
  pub pending_approval : Option PendingApproval
  pub approval : Option ApproveStepPayload
  pub rejection : Option RejectStepPayload
  pub cancellation : Option CancelRunPayload
  pub total_cost : ℕ
  pub intervention_ms : ℕ
  pub summaries : List RunStepSummary
  pub outputs : Values
  pub proposed_changes : ℕ
  pub completed_writes : ℕ
  pub warnings : Bool
  pub proposed_diff : Option JsonValue
  pub last_diff_sha : Option String
  pub last_diff : Option JsonValue
  pub log : List Entry

-- The variables before the first await.
abbrev pub initial : Values → Vars
initial agent_inputs = record {
  awaits = 0;
  status = validating;
  pending_approval = none;
  approval = none;
  rejection = none;
  cancellation = none;
  total_cost = 0;
  intervention_ms = 0;
  summaries = [];
  outputs = agent_inputs;
  proposed_changes = 0;
  completed_writes = 0;
  warnings = false;
  proposed_diff = none;
  last_diff_sha = none;
  last_diff = none;
  log = [];
}

pub data PolicyAnswer : Type 0 where
  allow require_approval deny : PolicyAnswer

pub record World : Type 0 where
  pub signals : ℕ → List Signal
  -- a bookkeeping activity returned
  pub recorded : ℕ → Bool
  pub policy : ℕ → Option PolicyAnswer
  pub executed : ℕ → Option StepActivityResult
  pub waited_ms : ℕ → ℕ

abbrev pub accepts : Option PendingApproval → ApproveStepPayload → Bool
accepts none p = false
accepts (some q) p = p.step_id === q.step_id && p.diff_hash === q.diff_sha256

abbrev pub rejects : Option PendingApproval → RejectStepPayload → Bool
rejects none p = false
rejects (some q) p = p.step_id === q.step_id

-- The signal handlers.
unfoldable pub handle : Signal → Vars → Vars
handle (approve_step p) v =
    if accepts v.pending_approval p
    then record v { approval = some p; log = approval_accepted p ∷ v.log }
    else v
handle (reject_step p) v =
    if rejects v.pending_approval p then record v { rejection = some p } else v
handle (cancel_run p) v = record v { cancellation = some p }

unfoldable pub deliver : List Signal → Vars → Vars
deliver [] v = v
deliver (s ∷ ss) v = deliver ss (handle s v)

-- One await: its entry is logged when the call is made, then the signals arrive.
unfoldable pub await : World → Vars → Vars
await w v = deliver (w.signals v.awaits) (record v { awaits = v.awaits + 1 })

abbrev pub noted : Entry → Vars → Vars
noted e v = record v { log = e ∷ v.log }

-- How a part of the run ends: it goes on, the run has returned, or an exception has left it.
pub data Flow : Type 0 where
  next : Vars → Flow
  returned : FinalStatus → Vars → Flow
  thrown : Vars → Flow

infixl 5 ◌>>=◌
abbrev pub ◌>>=◌ : Flow → (Vars → Flow) → Flow
next v >>= k = k v
returned s v >>= k = returned s v
thrown v >>= k = thrown v

-- Awaiting a bookkeeping activity.
unfoldable pub bookkeep : World → Entry → Vars → Flow
bookkeep w e v =
    if w.recorded v.awaits then next (await w (noted e v)) else thrown (await w (noted e v))

-- `recordRunStatus` with the status just set.
abbrev pub record_status : World → RunStatus → Vars → Flow
record_status w s v = bookkeep w (status_recorded s) (record v { status = s })

-- `finish`.
unfoldable pub finish : World → FinalStatus → Vars → Flow
finish w s v = do v ← bookkeep w (finalized s) (record v { status = final s }); returned s v
