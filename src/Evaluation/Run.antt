-- ===== src/Evaluation/Run.antt =====
-- evaluation/evaluation-run.service.ts: the run state machine over the run table.
pub mod State
pub mod Service
pub mod Writes
pub mod Lifecycle
pub mod Reaper
pub mod Sweep
pub mod Admission
pub mod Sample
pub mod Tests
