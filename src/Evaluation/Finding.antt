-- ===== src/Evaluation/Finding.antt =====
-- evaluation/evaluation-finding.service.ts: the life of a finding.
pub mod State
pub mod Data
pub mod Service
pub mod Writes
pub mod Lifecycle
pub mod Handlers
pub mod Resolution
pub mod Tests
pub mod Observation
pub mod Overtaken
