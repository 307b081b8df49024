-- ===== src/Evaluation/Judgment.antt =====
-- evaluation/evaluation-invariants.ts: the consistency of a judgment.
pub mod Validate
pub mod Sound
pub mod Consistent
pub mod Tests
