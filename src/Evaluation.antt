-- ===== src/Evaluation.antt =====
-- packages/modules/evaluation: the skeleton of evaluation runs.
pub mod Contracts
pub mod Errors
pub mod Coverage
pub mod Judgment
pub mod Run
pub mod Finding
pub mod Runner
pub mod Criteria
pub mod Result
pub mod Remediation
pub mod Subject
