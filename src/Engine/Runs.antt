-- ===== src/Engine/Runs.antt =====
-- The shadow run and the approved run of an agent (packages/agent-runtime/src/local-runtime.ts).
-- `registered` is what the map of agents holds, `now` the clock when the run ends.
use maman_agent.Prelude.{
  ℕ, String, same_codes, Option, none, some, List, [], sort_by, if◌then◌else◌,
}
use maman_agent.Contracts.{AgentSpec, AgentStep, shadow, supervised, RunMode}
use maman_agent.AgentInputs.{
  Values, InputReadiness, MissingInput, ready, not_ready, validate_agent_inputs,
}
use maman_agent.Engine.Base.{
  ProposedDiff, CapabilityContext, World, EngineState, ErrorCause, Result, ok, threw,
}
use maman_agent.Engine.Local.{
  Registry, Progress, Fresh, Written, WritePass, wrote, shadow_steps, proposal_steps, write_steps,
}
use maman_agent.Engine.Digest.{diff_sha256}

pub data ShadowOutcome : Type 0 where
  shadow_complete : Progress → ShadowOutcome
  needs_input : List MissingInput → ShadowOutcome
  not_registered : ShadowOutcome
  failed : ErrorCause → ShadowOutcome

pub data ApprovedOutcome : Type 0 where
  completed : ProposedDiff → Written → ApprovedOutcome
  aborted_stale : (approved fresh : List ℕ) → Option ProposedDiff → ApprovedOutcome
  needs_input : List MissingInput → ApprovedOutcome
  not_registered : ApprovedOutcome
  failed : ErrorCause → ApprovedOutcome
  no_proposal unexpected_result : (step_id : String) → ApprovedOutcome
  nothing_to_approve : ApprovedOutcome

abbrev pub in_order : AgentSpec → List AgentStep
in_order spec = sort_by (λ s. s.order) spec.steps

abbrev pub context : String → RunMode → CapabilityContext
context run_id mode = record { run_id = run_id; mode = mode }

abbrev pub no_progress : Progress
no_progress = record { diff = none; steps_run = 0; records_read = 0 }

abbrev pub nothing_fresh : Fresh
nothing_fresh = record { diff = none; by_key = [] }

abbrev pub from_scratch : EngineState → EngineState
from_scratch s = record s { outputs = [] }

unfoldable pub finish_shadow : ℕ → Result Progress × EngineState → ShadowOutcome × EngineState
finish_shadow now (ok p, s) = (shadow_complete p, record s { last_run_at = some now })
finish_shadow now (threw c, s) = (failed c, s)

-- The end of the approved run.
unfoldable pub finish_writes :
    ℕ → ProposedDiff → Result WritePass × EngineState → ApprovedOutcome × EngineState
finish_writes now d (ok (wrote (some w)), s) = (completed d w, record s { last_run_at = some now })
finish_writes now d (ok (wrote none), s) = (nothing_to_approve, s)
finish_writes now d (ok (WritePass.no_proposal id), s) = (no_proposal id, s)
finish_writes now d (ok (WritePass.unexpected_result id), s) = (unexpected_result id, s)
finish_writes now d (threw c, s) = (failed c, s)

module _ (stringify : ProposedDiff → List ℕ) (w : World) (registry : Registry) where
  unfoldable pub shadow_if :
      AgentSpec → Values → String → ℕ → EngineState → InputReadiness → ShadowOutcome × EngineState
  shadow_if spec given run_id now s (not_ready missing) = (needs_input missing, s)
  shadow_if spec given run_id now s ready = finish_shadow now (
      shadow_steps stringify w registry spec given (context run_id shadow) (in_order spec)
        no_progress (from_scratch s))

  -- `runShadow`.
  unfoldable pub run_shadow :
      Option AgentSpec
      → Values
      → (run_id : String) (now : ℕ) → EngineState
      → ShadowOutcome × EngineState
  run_shadow none given run_id now s = (not_registered, s)
  run_shadow (some spec) given run_id now s =
      shadow_if spec given run_id now s (validate_agent_inputs spec given)

  -- The part behind the first pass: the comparison of the hashes, and the writes.
  unfoldable pub after_proposals :
      AgentSpec
      → Values
      → String
      → ℕ
      → (approved : List ℕ) → Fresh
      → Option ProposedDiff
      → EngineState
      → ApprovedOutcome × EngineState
  after_proposals spec given run_id now approved f none s = (aborted_stale approved [] none, s)
  after_proposals spec given run_id now approved f (some d) s =
      if same_codes (diff_sha256 (stringify d)) approved
      then finish_writes now d (
          write_steps stringify w registry spec given (context run_id supervised) f (in_order spec)
            none s)
      else (aborted_stale approved (diff_sha256 (stringify d)) (some d), s)

  unfoldable pub if_fresh :
      AgentSpec
      → Values
      → String
      → ℕ
      → (approved : List ℕ) → Result Fresh × EngineState
      → ApprovedOutcome × EngineState
  if_fresh spec given run_id now approved (ok f, s) =
      after_proposals spec given run_id now approved f f.diff s
  if_fresh spec given run_id now approved (threw c, s) = (failed c, s)

  unfoldable pub approved_if :
      AgentSpec
      → Values
      → String
      → ℕ
      → (approved : List ℕ) → EngineState
      → InputReadiness
      → ApprovedOutcome × EngineState
  approved_if spec given run_id now approved s (not_ready missing) = (needs_input missing, s)
  approved_if spec given run_id now approved s ready = if_fresh spec given run_id now approved (
      proposal_steps stringify w registry spec given (context run_id supervised) (in_order spec)
        nothing_fresh (from_scratch s))

  -- `runApproved`.
  unfoldable pub run_approved :
      Option AgentSpec
      → Values
      → (run_id : String) (now : ℕ) (approved : List ℕ) → EngineState
      → ApprovedOutcome × EngineState
  run_approved none given run_id now approved s = (not_registered, s)
  run_approved (some spec) given run_id now approved s =
      approved_if spec given run_id now approved s (validate_agent_inputs spec given)
