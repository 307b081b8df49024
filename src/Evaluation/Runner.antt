-- ===== src/Evaluation/Runner.antt =====
-- evaluation/evaluation-runner.service.ts: the execution of a run.
pub mod State
pub mod Service
pub mod Channels
pub mod Stages
pub mod Execution
pub mod Fence
pub mod Again
pub mod Tests
