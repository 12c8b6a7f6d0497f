-- ===== src/Pattern.antt =====
-- The segmentation of observed events into episodes (packages/pattern-engine/src/segmentation.ts).
--
-- `Events` has the events, their tokens and their active time; `Segment` the loop over them and the
-- episodes.
pub mod Events
pub mod Segment
pub mod Partition
pub mod Chains
pub mod Episodes
mod Examples
