-- ===== src/Engine.antt =====
-- The local run engine (packages/agent-runtime/src/run-engine.ts, local-runtime.ts, adapters.ts,
-- runtime-capabilities.ts).
--
-- `Base` has the adapters' side: what they may be asked, and a `World` that answers each call by its
-- number. `Digest` is the hash of a diff, `Step` the executor of one step, `Local` and `Runs` the two
-- runs of an agent, and `Ready` the check of a runtime before a run. `Logs` and `Passes` follow what is
-- logged, `Counts` and `Completed` how much, and `Errors`, `StepErrors` and `RunErrors` what is thrown.
-- `Agents` is the registration of agents, `Triggers` what wakes them; `Held` and `Registration` are
-- about the agents that are held, `Admission` about their runs, and `Cooldown` and `Dedupe` about the
-- time between two firings.
pub mod Base
pub mod Digest
pub mod Step
pub mod Local
pub mod Runs
pub mod Logs
pub mod Passes
pub mod Shadow
pub mod Approved
pub mod Counts
pub mod Completed
pub mod Bounds
pub mod Errors
pub mod StepErrors
pub mod RunErrors
pub mod Recheck
pub mod Ready
pub mod Readiness
pub mod Agents
pub mod Triggers
pub mod Held
pub mod Registration
pub mod Admission
pub mod Cooldown
pub mod Dedupe
mod AgentExamples
mod Examples
