-- ===== src/Rules.antt =====
-- The dataset rules of the execution: execution/exclusive.rs, execution/ordering.rs and their part of
-- execution/dataset_state.rs.
pub mod Exclusive
pub mod Ordering
pub mod Frequencies
pub mod Totals
mod Runs
