-- ===== src/Spill.antt =====
-- `ExactState` of distinct/mod.rs for values of a fixed width: records gather in a segment in memory,
-- which is sorted into a run when it is full, and runs are compacted when there are many.
pub mod State
pub mod Segment
pub mod ByteSegment
pub mod Compact
pub mod Ops
pub mod Finish
pub mod Bytes
pub mod Holds
pub mod Keeps
pub mod Compactions
pub mod Inserts
pub mod Sealed
pub mod Refine
pub mod Within
pub mod Room
pub mod Bounded
mod Grant
pub mod Runs
