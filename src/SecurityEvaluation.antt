-- ===== src/SecurityEvaluation.antt =====
-- packages/modules/security-evaluation: the merge of the mechanisms' judgments.
pub mod Merge
pub mod Owners
pub mod Verdicts
pub mod Findings
pub mod Coverage
pub mod Tests
