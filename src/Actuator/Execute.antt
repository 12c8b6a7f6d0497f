-- ===== src/Actuator/Execute.antt =====
-- The run of an approved plan (packages/browser-actuator/src/execute.ts).
--
-- What the platform does is in `ExecuteDeps`, by the number of the round: the answer to a dispatch, as
-- the contract's parser leaves it, or what it threw; the token that is minted; and the time. The
-- requests that are sent are kept in `dispatched`. Request and run identifiers are left out.
use maman_agent.Prelude.{
  ℕ, ◌+◌, Bool, true, false, not, String, Option, none, some, List, [], ◌∷◌, ◌++◌, min,
  if◌then◌else◌,
}
use maman_agent.Actuator.Action.{BrowserActionRequest, BrowserActionRefusal, is_browser_write}
use maman_agent.Actuator.Authorize.{
  IssueRefusal, IssueMode, IssueInput, authorize_issue, max_authorization_window_ms,
}
use maman_agent.Actuator.Plan.{Piece, PlanStep}
use maman_agent.Actuator.Verify.{
  BrowserActionResult, BrowserObservation, WriteVerification, verified, requires_independent_read,
  is_failed, verify_write,
}

-- `REQUEST_WINDOW_MS`.
abbrev request_window_ms : ℕ
request_window_ms = min 30000 max_authorization_window_ms

pub record ExecuteContext : Type 0 where
  pub routed_source : String
  pub mode : IssueMode
  pub allow_supervised_browser_writes : Bool
  pub approval_granted : Bool
  pub user_present : Bool
  pub allowed_origins : List String

-- What comes back from a dispatch.
pub data Answer : Type 0 where
  answered : BrowserActionResult → Answer
  malformed thrown : (message : String) → Answer

pub record ExecuteDeps : Type 0 where
  pub dispatch : ℕ → Answer
  pub mint_authorization : ℕ → String
  pub now : ℕ → ℕ

pub data StepStatus : Type 0 where
  applied observed refused failed not_issued unverified skipped : StepStatus

-- Why a run halted; the texts are built from these.
pub data HaltReason : Type 0 where
  not_sent : IssueRefusal → HaltReason
  contract_mismatch : HaltReason
  dispatch_failed : (message : String) → HaltReason
  browser_refused : BrowserActionRefusal → HaltReason
  action_failed : Option String → HaltReason
  not_read_back : WriteVerification → HaltReason

pub record StepOutcome : Type 0 where
  pub step_id : List Piece
  pub status : StepStatus
  pub write : Bool
  pub change_index : Option ℕ
  pub refusal_reason : Option BrowserActionRefusal
  pub issue_refusal : Option IssueRefusal
  pub observation : Option BrowserObservation
  pub protocol_error : Option String

-- The variables of the loop.
pub record Execution : Type 0 where
  pub steps : List StepOutcome
  pub spent : List String
  pub halted_at : Option (List Piece)
  pub halted_because : Option HaltReason
  pub writes_applied : ℕ
  pub all_writes_verified : Bool
  pub dispatched : List BrowserActionRequest

-- What a round pushes, why it halts if it does, and whether it counts a write.
pub record Verdict : Type 0 where
  pub outcome : StepOutcome
  pub halt : Option HaltReason
  pub counted : Bool

abbrev pub plain : PlanStep → StepStatus → StepOutcome
plain step status = record {
  step_id = step.step_id;
  status = status;
  write = step.write;
  change_index = step.change_index;
  refusal_reason = none;
  issue_refusal = none;
  observation = none;
  protocol_error = none;
}

abbrev halt : HaltReason → StepOutcome → Verdict
halt reason outcome = record { outcome = outcome; halt = some reason; counted = false }

abbrev carry_on : Bool → StepOutcome → Verdict
carry_on counted outcome = record { outcome = outcome; halt = none; counted = counted }

-- A write that did not read back: it counts, and halts.
abbrev stop_unverified : PlanStep → Option BrowserObservation → WriteVerification → Verdict
stop_unverified step seen reason = record {
  outcome = record (plain step unverified) { observation = seen };
  halt = some (not_read_back reason);
  counted = true;
}

unfoldable pub judge_write : PlanStep → Option BrowserObservation → WriteVerification → Verdict
judge_write step seen verified = carry_on true (record (plain step applied) { observation = seen })
judge_write step seen requires_independent_read =
    carry_on true (record (plain step applied) { observation = seen })
judge_write step seen reason = stop_unverified step seen reason

-- The assignments at the end of each branch.
unfoldable pub push : Verdict → Execution → Execution
push v e = record e {
  steps = e.steps ++ v.outcome ∷ [];
  writes_applied = if v.counted then e.writes_applied + 1 else e.writes_applied;
}

unfoldable pub halt_at : PlanStep → Option HaltReason → Execution → Execution
halt_at step none e = e
halt_at step (some reason) e = record e {
  halted_at = some step.step_id;
  halted_because = some reason;
  all_writes_verified = if step.write then false else e.all_writes_verified;
}

abbrev pub settle : PlanStep → Verdict → Execution → Execution
settle step v e = halt_at step v.halt (push v e)

abbrev pub issue_input : ExecuteContext → ExecuteDeps → ℕ → Execution → PlanStep → IssueInput
issue_input ctx deps i e step = record {
  routed_source = ctx.routed_source;
  action = step.action;
  mode = ctx.mode;
  allow_supervised_browser_writes = ctx.allow_supervised_browser_writes;
  approval_granted = ctx.approval_granted;
  user_present = ctx.user_present;
  allowed_origins = ctx.allowed_origins;
  authorization = deps.mint_authorization i;
  spent_authorizations = e.spent;
  issued_at = deps.now i;
  expires_at = deps.now i + request_window_ms;
}

-- `requestFor`.
abbrev pub request_for : ExecuteContext → ExecuteDeps → ℕ → PlanStep → BrowserActionRequest
request_for ctx deps i step = record {
  action = step.action;
  allowed_origins = ctx.allowed_origins;
  consequential = is_browser_write step.action;
  authorization = deps.mint_authorization i;
  expires_at = deps.now i + request_window_ms;
}

abbrev pub hold : PlanStep → IssueRefusal → Verdict
hold step reason =
    halt (not_sent reason) (record (plain step not_issued) { issue_refusal = some reason })

abbrev pub sending : ExecuteContext → ExecuteDeps → ℕ → PlanStep → Execution → Execution
sending ctx deps i step e = record e {
  spent = deps.mint_authorization i ∷ e.spent;
  dispatched = e.dispatched ++ request_for ctx deps i step ∷ [];
}

abbrev pub unstarted : Execution
unstarted = record {
  steps = [];
  spent = [];
  halted_at = none;
  halted_because = none;
  writes_applied = 0;
  all_writes_verified = true;
  dispatched = [];
}

module _ (lower_case : List ℕ → List ℕ) where
  -- The part of the round behind the parser.
  unfoldable pub judge_result : PlanStep → BrowserActionResult → Verdict
  judge_result step r = elim r.refusal_reason [
    | some reason ↦
        halt (browser_refused reason)
          (record (plain step refused) { observation = r.observed; refusal_reason = some reason })
    | none ↦
        if is_failed r.outcome
        then halt (action_failed r.failure)
            (record (plain step failed) { observation = r.observed; protocol_error = r.failure })
        else (if not step.write
            then carry_on false (record (plain step observed) { observation = r.observed })
            else judge_write step r.observed (verify_write lower_case step.action r))
  ]

  unfoldable pub judge : PlanStep → Answer → Verdict
  judge step (answered r) = judge_result step r
  judge step (malformed message) =
      halt contract_mismatch (record (plain step failed) { protocol_error = some message })
  judge step (thrown message) =
      halt (dispatch_failed message) (record (plain step failed) { protocol_error = some message })

  -- A request that passed the gate is sent, and its answer judged.
  abbrev pub send : ExecuteContext → ExecuteDeps → ℕ → PlanStep → Execution → Execution
  send ctx deps i step e = settle step (judge step (deps.dispatch i)) (sending ctx deps i step e)

  -- A round that is not skipped.
  unfoldable pub issue :
      ExecuteContext → ExecuteDeps → ℕ → PlanStep → Option IssueRefusal → Execution → Execution
  issue ctx deps i step (some reason) e = settle step (hold step reason) e
  issue ctx deps i step none e = send ctx deps i step e

  unfoldable pub round :
      ExecuteContext → ExecuteDeps → ℕ → PlanStep → Option (List Piece) → Execution → Execution
  round ctx deps i step (some _) e = record e { steps = e.steps ++ plain step skipped ∷ [] }
  round ctx deps i step none e =
      issue ctx deps i step (authorize_issue (issue_input ctx deps i e step)) e

  unfoldable pub rounds : ExecuteContext → ExecuteDeps → ℕ → List PlanStep → Execution → Execution
  rounds ctx deps i [] e = e
  rounds ctx deps i (step ∷ steps) e =
      rounds ctx deps (i + 1) steps (round ctx deps i step e.halted_at e)

  -- `executeBrowserPlan`.
  unfoldable pub execute_browser_plan : List PlanStep → ExecuteContext → ExecuteDeps → Execution
  execute_browser_plan steps ctx deps = rounds ctx deps 0 steps unstarted
