-- ===== src/Workflow/Shadow.antt =====
-- A shadow run never writes (workflow.ts).
use maman_agent.Prelude.{ℕ, ◌≡◌, refl, List}
use maman_agent.Contracts.{AgentSpec, shadow}
use maman_agent.Workflow.State.{World, Entry, write_executed}
use maman_agent.Workflow.Steps.{AgentRunInput, agent_run_workflow}
use maman_agent.Workflow.Triples.{vars_of}
use maman_agent.Workflow.LogRules.{writes, IsKept, shadow_step-Of}
use maman_agent.Workflow.WholeRun.{workflow-Of}

abbrev HasNoWrites : List Entry → ℕ → Type 0
HasNoWrites l c = writes l ≡ 0

HasNoWrites-IsKept : IsKept HasNoWrites
HasNoWrites-IsKept (write_executed s sha) l c i h = absurd i
HasNoWrites-IsKept _ l c i h = h

-- In shadow mode no write activity is ever called, whatever the spec, the world and its signals.
pub shadow-writes :
    (w : World) (spec : AgentSpec) (run : AgentRunInput)
    → run.mode ≡ shadow
    → writes (vars_of (agent_run_workflow w spec run)).log ≡ 0
shadow-writes w spec run e =
    workflow-Of HasNoWrites HasNoWrites-IsKept w spec run
      (λ s v h. rw e (shadow_step-Of HasNoWrites HasNoWrites-IsKept w s v h)) refl
