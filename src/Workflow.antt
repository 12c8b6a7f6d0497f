-- ===== src/Workflow.antt =====
-- The durable execution of an agent run, `agentRunWorkflow`
-- (packages/agent-runtime/src/workflow.ts): its variables, signals and awaits in `State`, its steps in
-- `Steps`; `Triples` has the rules by which the other children prove its theorems.
pub mod State
pub mod Steps
pub mod Triples
pub mod LogRules
pub mod WholeRun
pub mod Shadow
pub mod Approval
pub mod Accounting
mod Examples
