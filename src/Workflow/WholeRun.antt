-- ===== src/Workflow/WholeRun.antt =====
-- A property that every write step keeps holds of the log of the whole run (workflow.ts).
use maman_agent.Prelude.{ℕ, none, some, Option, List, [], ◌∷◌, inl, inr, Bool-cases, sort_by}
use maman_agent.Contracts.{AgentSpec, AgentStep, RunMode, StepMode, read, propose_write, write}
use maman_agent.AgentInputs.{InputReadiness, ready, not_ready, validate_agent_inputs}
use maman_agent.Workflow.State.{
  status_recorded, policy_checked, Entry, FinalStatus, validating, running_read, preparing_diff,
  PolicyAnswer, Vars, initial, World, await, noted, record_status,
}
use maman_agent.Workflow.Steps.{
  AgentRunInput, write_step, run_step, by_mode, push_summary, is_some, is_deny, run_steps, if_ready,
  after_policy, agent_run_workflow,
}
use maman_agent.Workflow.Triples.{Ensures, Ensures->>=, Ensures-vars_of, vars_of}
use maman_agent.Workflow.LogRules.{IsKept, Of, bookkeep-Of, finish-Of, await-Of, read_step-Of}

module _ (R : List Entry → ℕ → Type 0) (kept : IsKept R) (w : World) (mode : RunMode)
    (writing : (s : AgentStep) (v : Vars)
      → Of R v
      → Ensures (Of R) (Of R) (write_step w mode s v)) where
  by_mode-Of :
      (s : AgentStep) (m : StepMode) (v : Vars)
      → Of R v
      → Ensures (Of R) (Of R) (by_mode w mode s m v)
  unfolding by_mode
  by_mode-Of s read v h = read_step-Of R kept w running_read s v h
  by_mode-Of s propose_write v h = read_step-Of R kept w preparing_diff s v h
  by_mode-Of s write v h = writing s v h

  run_step-Of : (s : AgentStep) (v : Vars) → Of R v → Ensures (Of R) (Of R) (run_step w mode s v)
  unfolding run_step
  run_step-Of s v h = elim (Bool-cases (is_some v.cancellation)) [
    | inl e ↦ rw e (finish-Of R kept w (Of R) FinalStatus.cancelled v h)
    | inr e ↦ rw e (by_mode-Of s s.mode (push_summary s v) h)
  ]

  run_steps-Of :
      (ss : List AgentStep) (v : Vars) → Of R v → Ensures (Of R) (Of R) (run_steps w mode ss v)
  unfolding run_steps
  run_steps-Of [] v h = finish-Of R kept w (Of R) _ v h
  run_steps-Of (s ∷ ss) v h =
      Ensures->>= (Of R) (Of R) (Of R) (run_step w mode s v) (run_steps w mode ss)
        (run_step-Of s v h) (λ u p. run_steps-Of ss u p)

module _ (R : List Entry → ℕ → Type 0) (kept : IsKept R) (w : World) (spec : AgentSpec)
    (run : AgentRunInput)
    (writing : (s : AgentStep) (v : Vars)
      → Of R v
      → Ensures (Of R) (Of R) (write_step w run.mode s v)) where
  if_ready-Of :
      (i : InputReadiness) (v : Vars) → Of R v → Ensures (Of R) (Of R) (if_ready w spec run i v)
  unfolding if_ready
  if_ready-Of ready v h =
      run_steps-Of R kept w run.mode writing (sort_by (λ s. s.order) spec.steps) v h
  if_ready-Of (not_ready ms) v h = finish-Of R kept w (Of R) FinalStatus.failed v h

  after_policy-Of :
      (p : Option PolicyAnswer) (v : Vars)
      → Of R v
      → Ensures (Of R) (Of R) (after_policy w spec run p v)
  unfolding after_policy
  after_policy-Of none v h = h
  after_policy-Of (some p) v h = elim (Bool-cases (is_deny p)) [
    | inl e ↦ rw e (finish-Of R kept w (Of R) FinalStatus.policy_blocked v h)
    | inr e ↦ rw e (if_ready-Of (validate_agent_inputs spec run.agent_inputs) v h)
  ]

  pub workflow-Of : R [] 0 → Of R (vars_of (agent_run_workflow w spec run))
  unfolding agent_run_workflow
  workflow-Of h = Ensures-vars_of (Of R) (agent_run_workflow w spec run) (
      Ensures->>= (Of R) (Of R) (Of R) (record_status w validating (initial run.agent_inputs))
        (λ u. after_policy w spec run (w.policy u.awaits) (await w (noted policy_checked u)))
        (bookkeep-Of R kept w (status_recorded validating) (initial run.agent_inputs) tt h)
        (λ u p. after_policy-Of (w.policy u.awaits) _ (await-Of R kept w policy_checked u tt p)))
