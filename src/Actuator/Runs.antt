-- ===== src/Actuator/Runs.antt =====
-- Theorems on the runs of a plan (packages/browser-actuator/src/execute.ts): `Verdicts` for a round,
-- `Shape` for the outcomes, `Counts` and `Reports` for what is reported, `Requests` for what is sent.
pub mod Verdicts
pub mod Shape
pub mod Counts
pub mod Requests
pub mod Reports
