-- ===== src/Evaluation/Result.antt =====
-- evaluation/evaluation-result.service.ts: the archived conclusion of a run.
pub mod Service
pub mod Snapshot
pub mod Tests
pub mod Reads
