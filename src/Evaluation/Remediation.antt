-- ===== src/Evaluation/Remediation.antt =====
-- evaluation/evaluation-remediation.service.ts: the decision and the progress of a plan.
pub mod Service
pub mod Freezing
pub mod Closing
pub mod Tests
pub mod Creation
pub mod Checkpoints
pub mod Anchoring
pub mod CreationTests
