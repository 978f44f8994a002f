-- ===== src/Lib.antt =====
-- A verification library of ProofFrame, a Rust engine that validates Arrow data sets against contracts
-- and signs the evidence of it.
--
-- The program scans record batches (src/execution/mod.rs). Rules on rows and on the whole data set record
-- violations in a validation state (src/lib.rs), which keeps the first of them and counts all. Rules of
-- uniqueness insert values into exact states (src/distinct), which sort them in memory, or spill sorted
-- runs and merge them. Everything that holds memory or disk reserves it in a hierarchy of accounts
-- (src/execution/resource.rs). The report becomes evidence (src/evidence), which a receipt signs
-- (src/receipt.rs).
--
-- Which file models what:
--   Prelude.antt   names of the libraries passed on, tests on native numbers, lists measured by them
--   Error.antt     src/error.rs: codes, errors, results and their sequencing
--   Resource.antt  src/execution/resource.rs. An account is the path of ids from its root to its node, on
--     a heap of counters, so that accounts share nodes as `Arc`s do. Counters are numbers below 2 ^ 64
--     with the wrap-around of `fetch_sub` written out. `charge`, `commit` and `raise_peaks` are the parts of
--     `Reservation::try_new`, run by one thread; Resource/Sharing.antt has its atomic operations and those
--     of `Drop` one at a time, for any number of threads, with failed exchanges and the lock of the root.
--   Sorting.antt   a total order as `Ord`, and the sort that every correct sort agrees with
--   Distinct.antt  src/distinct: Distinct/Scan.antt is `finish_fixed_in_memory` of mod.rs, Distinct/Heap.antt
--     and Distinct/Merge.antt are `merge` and `merge_compacted_payload` of run.rs. A run is the list of its
--     records; an entry of the heap carries the records that its cursor has left. The loops run on fuel,
--     the number of records: each round takes one. What a load of the cancellation flag sees is a function
--     of the round.
--   Spill.antt     `ExactState` of src/distinct/mod.rs for values of a fixed width, in any total order:
--     creation, `insert`, growth, spilling, `compact_runs_if_needed`, `seal` and `finish`, with `compact` of
--     run.rs. A run stands for its file, which RunFile.antt reads back. Each call takes what the loads of
--     the cancellation flag will see (`Pass`, `Loads`). The compaction loop runs on the number of runs and
--     the halving loop of an allocation on the first capacity. The size of a cursor is a parameter.
--     Spill/Bytes.antt has states of byte strings, from creation to `finish`, with the arena and the index of
--     Spill/ByteSegment.antt. Their fields `runs`, `account` and the like are in `rest`, an
--     `ExactState` without a segment, so that they compact as the others do. Each round of their allocation
--     halves one of two capacities, so the sum of both is fuel enough.
--   Join.antt      `anti_join` and `intersect` of src/distinct/run.rs, over the merge of Join/Side.antt, with
--     `anti_join_exact_states` and `intersect_exact_states` of mod.rs over states of byte strings. A side
--     of a join gives each value once. The loops run on the number of records. The loads of the flag are numbered in
--     their order.
--   RunFile.antt   the file of a run in src/distinct/run.rs: `write_fixed`, `write_bytes` and `write_run`, with
--     `RunCursor` in RunFile/Cursor.antt and `verify_payload` in RunFile/Verify.antt, on fuel: the size of
--     the payload, of which each round reads some. A file is its list of bytes, and BLAKE3 a parameter.
--   Validation.antt  `Finding` and `ValidationState` of src/lib.rs, `record_lazy` of src/execution/mod.rs.
--     The capacity of the vector is a field of the state, grown as `Vec::push` does. The capacities of the
--     strings are a parameter.
--   Execution.antt  src/execution/mod.rs: `finish_unique_states`, which calls `finish` on the states of
--     its columns, and `build_report`. An error ends the run, as `?` does.
--   Rows.antt      src/execution/row_kernels.rs: comparisons of two columns or a column and a literal. A
--     float is its bits; rounding to 32 bits is a parameter. Rows/Kernels.antt has the kinds of kernels, with
--     their text in the error for a pair that no kernel compares.
--   Rules.antt     src/execution/exclusive.rs, and the rule of src/execution/ordering.rs with its loop in
--     `update` of src/execution/dataset_state.rs; `Frequencies` and totals of src/execution/total.rs.
--     A hash map is a list of entries; the arithmetic of f64 and the text of numbers are a parameter.
--   Keys.antt      src/execution/dataset_state.rs: `append_scalar`, `append_bytes`, the key of composite
--     uniqueness and that of the dominant value. A batch is a function from columns to arrays; a number is
--     its bits.
--   Ratio.antt     src/execution/dataset_state.rs: `compare_fraction_to_bound` and the test of a ratio.
--     The bound is the bits of an f64, and 64 steps count the zeros of a u64.
--   Evidence.antt  src/evidence/mod.rs: the envelope, `validate` and `evidence_for_check`
--   Receipt.antt   src/receipt.rs and src/receipt/trust.rs
--
-- Code of other crates is a parameter: the records `Codec` of Evidence/Assembly.antt and Receipt.antt hold
-- JSON, its canonical form, BLAKE3, base64 and Ed25519. The theorems that need more of them say so among
-- their hypotheses: that a hash has 32 bytes, in hexadecimal 64 lowercase digits, that base64 decodes what it
-- encodes, and that a signature verifies under its own key.
--
-- Not modelled: reference plans, partitions, the diff, fingerprints, the rules on gaps, statistics and
-- balances, conditional assertions, and the compiler of contracts. Left out: bindings to Python, profiling,
-- suggestions and rendering.
pub mod Prelude
pub mod Error
pub mod Resource
pub mod Sorting
pub mod Keys
pub mod Ratio
pub mod Join
pub mod Spill
pub mod Distinct
pub mod Validation
pub mod Execution
pub mod Evidence
pub mod Receipt
pub mod RunFile
pub mod Rules
pub mod Rows
