-- ===== src/Evaluation/Coverage.antt =====
-- evaluation/evaluation-invariants.ts: the coverage of a result.
pub mod Compose
pub mod Validate
pub mod Partition
pub mod Attribution
pub mod Mergeable
pub mod Merge
pub mod Sums
pub mod Unattributed
pub mod Tests
