-- ===== src/Evaluation/Contracts.antt =====
-- evaluation/ports/evaluation.contracts.ts and judgment.port.ts: the value shapes that the ports
-- and the services share. Opaque `metadata`, `payload` and `runConfig` objects are left out, since
-- the code only passes them on. A number is an integer here: fractions, infinities and NaN are left
-- out of counts; a score tells whether it is finite.
use newbie_modules.Common.{ℕ, String, List, Option, Dict}
use newbie_modules.Common.Int.{ℤ}

pub data CriterionKind : Type 0 where
  scored assertion : CriterionKind

pub record CriterionRef : Type 0 where
  pub criterion_key : String
  pub kind : CriterionKind
  pub name : String

pub record EvidenceItem : Type 0 where
  pub id : String
  pub layer : String
  pub source : String
  pub summary : String
  pub observed_at : ℕ

pub record CoverageBucket : Type 0 where
  pub total : ℤ
  pub by_source : Option (Dict ℤ)
  pub note : Option String
  pub items : Option (List String)

-- A bucket is looked up at run time and may be missing.
pub record CoverageStats : Type 0 where
  pub evaluated : Option CoverageBucket
  pub declared_unlinked : Option CoverageBucket
  pub skipped : Option CoverageBucket
  pub unconsumed : Option CoverageBucket

pub data Score : Type 0 where
  finite : ℤ → Score
  non_finite : Score

-- The judgment comes across a port, so a confidence is any text, and a coverage may be missing.
pub record VerdictCoverage : Type 0 where
  pub included : Option ℤ
  pub skipped : Option ℤ

pub record Verdict : Type 0 where
  pub criterion_key : String
  pub score : Score
  pub confidence : String
  pub coverage : Option VerdictCoverage
  pub evidence_refs : List String
  pub rationale : String

pub record FindingCandidate : Type 0 where
  pub criterion_key : String
  pub fingerprint : String
  pub severity : String
  pub title : String
  pub detail : Option String
  pub evidence_refs : Option (List String)

pub record EvidenceCollection : Type 0 where
  pub items : List EvidenceItem
  pub declared_unlinked : CoverageBucket
  pub skipped : CoverageBucket

pub record Judgment : Type 0 where
  pub verdicts : List Verdict
  pub findings : List FindingCandidate
  pub evaluated_refs : List String
  pub skipped : Option CoverageBucket
  pub summary : Option String

pub data BucketName : Type 0 where
  evaluated declared_unlinked skipped unconsumed : BucketName

-- One constructor for each text that evaluation-invariants.ts reports, with the values it quotes.
pub data Problem : Type 0 where
  ref_not_collected : (ref : String) → Problem
  bucket_required : BucketName → Problem
  total_not_natural : BucketName → Problem
  by_source_sum : BucketName → (sum total : ℤ) → Problem
  skipped_note_required : Problem
  skipped_items_required : Problem
  skipped_items_count : (count : ℕ) (total : ℤ) → Problem
  declared_note_required : Problem
  ref_not_in_manifest : (ref : String) → Problem
  verdict_not_criterion : (key : String) → Problem
  verdict_targets_assertion : (key : String) → Problem
  verdict_repeated : (key : String) → Problem
  verdict_non_finite : (key : String) → Problem
  verdict_confidence : (key confidence : String) → Problem
  verdict_coverage : (key : String) → Problem
  verdict_evidence : (key ref : String) → Problem
  finding_not_criterion : (key : String) → Problem
  finding_targets_scored : (key : String) → Problem
  finding_fingerprint : (key : String) → Problem
  finding_severity : (fingerprint severity : String) → Problem
  finding_repeated : (identity : String) → Problem
  finding_evidence : (key ref : String) → Problem
