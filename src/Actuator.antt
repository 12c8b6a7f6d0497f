-- ===== src/Actuator.antt =====
-- The supervised browser actuator (packages/browser-actuator/src): which control a request may act on
-- in `Resolve`, what may be sent at all in `Authorize`, the approved plan in `Plan`, the read-back of a
-- write in `Verify` and the run of a plan in `Execute`, with its theorems under `Runs`. `Action` has the
-- wire types.
pub mod Action
pub mod Resolve
pub mod ResolveLaws
pub mod Authorize
pub mod Plan
pub mod PlanLaws
pub mod PlanChecks
pub mod RevertLaws
pub mod Verify
pub mod Execute
pub mod Runs
mod Examples
mod RunExamples
