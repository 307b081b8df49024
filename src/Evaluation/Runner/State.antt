-- ===== src/Evaluation/Runner/State.antt =====
-- The events, the outcome and the collaborators of evaluation/evaluation-runner.service.ts.
use newbie_modules.Common.{ℕ, String, Option, some, List, [], ◌∷◌}
use newbie_modules.Evaluation.Contracts.{
  CriterionRef, EvidenceItem, EvidenceCollection, CoverageStats, Judgment, Verdict,
  FindingCandidate, Problem,
}
use newbie_modules.Evaluation.Coverage.Compose.{compose_coverage_stats}
use newbie_modules.Evaluation.Errors.{Text, Outcome, ok, throw}
use newbie_modules.Evaluation.Run.State.{Run, Subject, RuleSetVersion}

pub data Terminal : Type 0 where
  succeeded_with : Terminal
  failed_with : Text → Terminal

-- `EvaluationRunEventIdentity`
pub record Identity : Type 0 where
  pub run_id : ℕ
  pub subject_id : ℕ
  pub subject_kind : String
  pub rule_set_version_id : ℕ
  pub evaluation_key : String

pub record RunEvent : Type 0 where
  pub identity : Identity
  pub terminal : Terminal

pub record RunFinished : Type 0 where
  pub run_id : ℕ
  pub subject_id : ℕ
  pub rule_set_version_id : ℕ
  pub terminal : Terminal

pub record RunOutcome : Type 0 where
  pub run_id : ℕ
  pub result_id : ℕ
  pub finding_ids : List ℕ
  pub resolved_finding_count : ℕ

pub record Execution (S : Type 0) : Type 0 where
  pub outcome : Outcome RunOutcome
  pub state : S
  pub events : List RunEvent
  pub finished : List RunFinished

-- What an execution uses beside the run service: the feature's ports, which may throw, and the other
-- services of the module. `others i` is what other processes write before its call number `i`.
pub record Work (S : Type 0) : Type 0 where
  pub get_subject : ℕ → S → Outcome Subject
  pub get_version : ℕ → S → Outcome RuleSetVersion
  pub list_criteria : ℕ → S → List CriterionRef
  pub collect : Subject → RuleSetVersion → Outcome EvidenceCollection
  pub judge : Subject → RuleSetVersion → List CriterionRef → List EvidenceItem → Outcome Judgment
  pub create_result :
      (run_id : ℕ)
      → List EvidenceItem
      → CoverageStats
      → List Verdict
      → Option String
      → S
      → Outcome ℕ × S
  pub record_findings : Run → List FindingCandidate → List String → S → Outcome (List ℕ) × S
  pub resolve_absent_findings : Run → S → Outcome ℕ × S
  pub others : ℕ → S → S

-- `await x` and then `k`: an exception ends the execution.
abbrev pub chain : {S A B : Type 0} → Outcome A × S → (A → S → Outcome B × S) → Outcome B × S
chain (throw e, s) k = (throw e, s)
chain (ok a, s) k = k a s

abbrev pub evaluated_coverage : EvidenceCollection → Judgment → CoverageStats × List Problem
evaluated_coverage evidence judgment = compose_coverage_stats (record {
  items = evidence.items;
  evaluated_refs = judgment.evaluated_refs;
  declared_unlinked = evidence.declared_unlinked;
  skipped_buckets = some evidence.skipped ∷ judgment.skipped ∷ [];
})

abbrev pub identify : Run → Subject → RuleSetVersion → Identity
identify run subject version = record {
  run_id = run.id;
  subject_id = run.subject_id;
  subject_kind = subject.kind;
  rule_set_version_id = run.rule_set_version_id;
  evaluation_key = version.evaluation_key;
}
