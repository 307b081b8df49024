-- ===== src/WorkEvaluation.antt =====
-- packages/modules/work-evaluation: the periods of an evaluation.
pub mod Period
pub mod Changes
pub mod Disjoint
pub mod Progress
pub mod Tests
