-- ===== src/Evaluation/Criteria.antt =====
-- evaluation/evaluation-criteria.service.ts: versioned criteria.
pub mod Service
pub mod Freezing
pub mod Frozen
pub mod Publication
pub mod Tests
