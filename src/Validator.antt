-- ===== src/Validator.antt =====
-- The static validation of an agent (packages/agent-runtime/src/validator.ts).
mod Regex
pub mod Secrets
pub mod Cron
pub mod Check
mod Sound
pub mod Laws
pub mod RunOrder
mod Examples
