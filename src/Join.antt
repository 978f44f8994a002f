-- ===== src/Join.antt =====
-- The joins of distinct/run.rs over two sets of sorted runs, and their callers in distinct/mod.rs.
pub mod Side
pub mod AntiJoin
pub mod Intersect
pub mod Lowest
pub mod Absent
pub mod Ends
pub mod Sides
pub mod Rounds
pub mod Missing
pub mod Reference
mod States
pub mod Meets
pub mod Overlap
pub mod Shared
mod Leakage
mod Runs
