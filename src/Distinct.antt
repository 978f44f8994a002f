-- ===== src/Distinct.antt =====
-- distinct/mod.rs and distinct/run.rs: exact distinct counts over sorted temporary runs.
mod Scan
pub mod Heap
pub mod Exact
pub mod Merge
mod Runs
unfoldable pub use Scan.{visit, scan, summary_of, in_memory_metrics, finish_fixed_in_memory}
pub use Scan.{Rec, rec_order, same, Tally, fresh_tally, check_at, ExactMetrics, ExactSummary}
