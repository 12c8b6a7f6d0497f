-- ===== src/Router.antt =====
-- The capability router (packages/capability-router/src): the offers and the step in `Types`, the choice
-- of a route in `Route`.
pub mod Types
pub mod Route
pub mod Laws
pub mod Best
mod Examples
