-- ===== src/Evaluation/Judgment/Validate.antt =====
-- `validateJudgment` of evaluation-invariants.ts.
use Prim.Native.String
use newbie_modules.Common.{
  String, Bool, true, false, not, Option, none, some, List, [], ◌∷◌, ◌++◌, if◌then◌else◌, str_eq,
  Dict, get, set,
}
use newbie_modules.Common.Int.{ℤ, is_negative}
use newbie_modules.Evaluation.Contracts.{
  CriterionKind, scored, assertion, CriterionRef, Score, finite, non_finite, VerdictCoverage,
  Verdict, FindingCandidate, Problem, verdict_not_criterion, verdict_targets_assertion,
  verdict_repeated, verdict_non_finite, verdict_confidence, verdict_coverage, verdict_evidence,
  finding_not_criterion, finding_targets_scored, finding_fingerprint, finding_severity,
  finding_repeated, finding_evidence,
}
use newbie_modules.Evaluation.Coverage.Compose.{has}
use newbie_modules.Evaluation.Coverage.Validate.{push_if}

abbrev pub confidences : List String
confidences = "high" ∷ "medium" ∷ "low" ∷ []

abbrev pub severities : List String
severities = "INFO" ∷ "LOW" ∷ "MEDIUM" ∷ "HIGH" ∷ "CRITICAL" ∷ []

-- `new Map(criteria.map((criterion) => [criterion.criterionKey, criterion]))`
unfoldable pub criteria_from : Dict CriterionRef → List CriterionRef → Dict CriterionRef
criteria_from m [] = m
criteria_from m (c ∷ cs) = criteria_from (set c.criterion_key c m) cs

unfoldable pub index_criteria : List CriterionRef → Dict CriterionRef
index_criteria cs = criteria_from [] cs

abbrev pub is_scored : CriterionKind → Bool
is_scored scored = true
is_scored assertion = false

abbrev pub is_finite : Score → Bool
is_finite (finite n) = true
is_finite non_finite = false

-- `Number.isInteger(n) && n >= 0`; an absent count is no integer.
abbrev pub is_natural : Option ℤ → Bool
is_natural none = false
is_natural (some n) = not (is_negative n)

-- `verdict.coverage ?? {}`
abbrev pub has_counts : Option VerdictCoverage → Bool
has_counts none = false
has_counts (some c) = if is_natural c.included then is_natural c.skipped else false

unfoldable pub unknown_refs : (String → Problem) → List String → List String → List Problem
unknown_refs p known [] = []
unknown_refs p known (ref ∷ refs) =
    push_if (not (has ref known)) (p ref) ++ unknown_refs p known refs

-- `if (input.evidenceIds) …`
abbrev pub evidence_problems :
    (String → Problem) → Option (List String) → List String → List Problem
evidence_problems p none refs = []
evidence_problems p (some known) refs = unknown_refs p known refs

-- The checks of a verdict whose criterion is known.
unfoldable pub verdict_problems :
    Option (List String) → CriterionRef → List String → Verdict → List Problem
verdict_problems evidence_ids criterion seen v =
    push_if (not (is_scored criterion.kind)) (verdict_targets_assertion v.criterion_key)
    ++ (push_if (has v.criterion_key seen) (verdict_repeated v.criterion_key)
        ++ (push_if (not (is_finite v.score)) (verdict_non_finite v.criterion_key)
            ++ (push_if (not (has v.confidence confidences))
                  (verdict_confidence v.criterion_key v.confidence)
                ++ (push_if (not (has_counts v.coverage)) (verdict_coverage v.criterion_key)
                    ++ evidence_problems (verdict_evidence v.criterion_key) evidence_ids
                        v.evidence_refs))))

-- The loop over the verdicts; `seen` is `seenVerdicts`.
unfoldable pub check_verdicts :
    Dict CriterionRef → Option (List String) → List String → List Verdict → List Problem
check_verdicts criteria evidence_ids seen [] = []
check_verdicts criteria evidence_ids seen (v ∷ vs) = elim (get v.criterion_key criteria) [
  | none ↦ verdict_not_criterion v.criterion_key ∷ check_verdicts criteria evidence_ids seen vs
  | some criterion ↦
      verdict_problems evidence_ids criterion seen v
      ++ check_verdicts criteria evidence_ids (seen ++ v.criterion_key ∷ []) vs
]

abbrev pub or_no_refs : Option (List String) → List String
or_no_refs none = []
or_no_refs (some refs) = refs

-- `${finding.criterionKey}/${finding.fingerprint}`
abbrev pub identity : FindingCandidate → String
identity f = String.◌++◌ f.criterion_key (String.◌++◌ "/" f.fingerprint)

unfoldable pub finding_problems :
    Option (List String) → CriterionRef → List String → FindingCandidate → List Problem
finding_problems evidence_ids criterion seen f =
    push_if (is_scored criterion.kind) (finding_targets_scored f.criterion_key)
    ++ (push_if (str_eq f.fingerprint "") (finding_fingerprint f.criterion_key)
        ++ (push_if (not (has f.severity severities)) (finding_severity f.fingerprint f.severity)
            ++ (push_if (has (identity f) seen) (finding_repeated (identity f))
                ++ evidence_problems (finding_evidence f.criterion_key) evidence_ids
                    (or_no_refs f.evidence_refs))))

unfoldable pub check_findings :
    Dict CriterionRef → Option (List String) → List String → List FindingCandidate → List Problem
check_findings criteria evidence_ids seen [] = []
check_findings criteria evidence_ids seen (f ∷ fs) = elim (get f.criterion_key criteria) [
  | none ↦ finding_not_criterion f.criterion_key ∷ check_findings criteria evidence_ids seen fs
  | some criterion ↦
      finding_problems evidence_ids criterion seen f
      ++ check_findings criteria evidence_ids (seen ++ identity f ∷ []) fs
]

pub record JudgmentInput : Type 0 where
  pub criteria : List CriterionRef
  pub verdicts : List Verdict
  pub findings : List FindingCandidate
  pub evidence_ids : Option (List String)

unfoldable pub validate_judgment : JudgmentInput → List Problem
validate_judgment input =
    let criteria = index_criteria input.criteria in
    check_verdicts criteria input.evidence_ids [] input.verdicts
    ++ check_findings criteria input.evidence_ids [] input.findings
