-- ===== src/Evaluation/Judgment/Consistent.antt =====
-- Which judgments evaluation-invariants.ts lets pass.
use newbie_modules.Common.{
  String, not, ◌≡◌, ◌↔◌, Option, some, List, [], ◌∷◌, ◌++◌, Dict, get, arith, Option-cases, inl,
  inr, str_eq, str_eq_of_ne, eq_iff,
}
use newbie_modules.Evaluation.Contracts.{
  CriterionRef, Verdict, FindingCandidate, verdict_targets_assertion, verdict_repeated,
  verdict_non_finite, verdict_confidence, verdict_coverage, verdict_evidence,
  finding_targets_scored, finding_fingerprint, finding_severity, finding_repeated, finding_evidence,
}
use newbie_modules.Evaluation.Coverage.Compose.{has}
use newbie_modules.Evaluation.Judgment.Validate.{
  confidences, severities, index_criteria, is_scored, is_finite, has_counts, verdict_problems,
  check_verdicts, or_no_refs, identity, finding_problems, check_findings, JudgmentInput,
  validate_judgment,
}
use newbie_modules.Evaluation.Judgment.Sound.{
  append-nil_iff, guard-nil, of_not, scored_of, assertion_of, evidence_iff, IsSoundVerdict,
  IsSoundFinding, AreSoundVerdicts, AreSoundFindings,
}

same_some : {A : Type 0} {o : Option A} {a b : A} → o ≡ some a → o ≡ some b → a ≡ b
same_some h k = cc

module _ (criteria : Dict CriterionRef) (evidence_ids : Option (List String)) where
  verdict_sound :
      (criterion : CriterionRef) (seen : List String) (v : Verdict)
      → get v.criterion_key criteria ≡ some criterion
      → verdict_problems evidence_ids criterion seen v ≡ []
      → IsSoundVerdict criteria evidence_ids seen v
  unfolding verdict_problems
  verdict_sound criterion seen v listed h =
      let key = v.criterion_key in
      let (kind, h₁) =
        guard-nil (not (is_scored criterion.kind)) (verdict_targets_assertion key) _ h in
      let (once, h₂) = guard-nil (has key seen) (verdict_repeated key) _ h₁ in
      let (number, h₃) = guard-nil (not (is_finite v.score)) (verdict_non_finite key) _ h₂ in
      let (confidence, h₄) =
        guard-nil (not (has v.confidence confidences)) (verdict_confidence key v.confidence) _ h₃ in
      let (counts, evidence) =
        guard-nil (not (has_counts v.coverage)) (verdict_coverage key) _ h₄ in
      record {
        criterion = criterion;
        listed = listed;
        kind = scored_of (criterion.kind) (of_not _ kind);
        once = once;
        finite = of_not _ number;
        confidence = of_not _ confidence;
        counts = of_not _ counts;
        evidence = (evidence_iff (verdict_evidence key) evidence_ids v.evidence_refs).0 evidence;
      }

  verdict_complete :
      (criterion : CriterionRef) (seen : List String) (v : Verdict)
      → (s : IsSoundVerdict criteria evidence_ids seen v) → s.criterion ≡ criterion
      → verdict_problems evidence_ids criterion seen v ≡ []
  unfolding verdict_problems
  verdict_complete criterion seen v s same =
      rw (← same, s.kind, s.once, s.finite, s.confidence, s.counts)
        ((evidence_iff (verdict_evidence v.criterion_key) evidence_ids v.evidence_refs).1
          s.evidence)

  check_verdicts_iff :
      (seen : List String) (vs : List Verdict)
      → (check_verdicts criteria evidence_ids seen vs ≡ [])
        ↔ AreSoundVerdicts criteria evidence_ids seen vs
  unfolding check_verdicts
  check_verdicts_iff seen [] = ground arith
  check_verdicts_iff seen (v ∷ vs) = elim (Option-cases (get v.criterion_key criteria)) [
    | inl missing ↦
        (λ h. cc (rw (missing, check_verdicts) at h), λ (s, rest). cc (missing, s.listed))
    | inr (criterion, listed) ↦
        let (to, from) = check_verdicts_iff (seen ++ v.criterion_key ∷ []) vs in
        let (split, join) =
          append-nil_iff (verdict_problems evidence_ids criterion seen v)
            (check_verdicts criteria evidence_ids (seen ++ v.criterion_key ∷ []) vs) in
        (
          λ h.
              let (here, later) = split (rw (listed, check_verdicts) at h) in
              (verdict_sound criterion seen v listed here, to later),
          λ (s, rest).
              rw (listed, check_verdicts)
                (join (verdict_complete criterion seen v s (same_some s.listed listed), from rest)),
        )
  ]

  finding_sound :
      (criterion : CriterionRef) (seen : List String) (f : FindingCandidate)
      → get f.criterion_key criteria ≡ some criterion
      → finding_problems evidence_ids criterion seen f ≡ []
      → IsSoundFinding criteria evidence_ids seen f
  unfolding finding_problems
  finding_sound criterion seen f listed h =
      let key = f.criterion_key in
      let (kind, h₁) = guard-nil (is_scored criterion.kind) (finding_targets_scored key) _ h in
      let (named, h₂) = guard-nil (str_eq f.fingerprint "") (finding_fingerprint key) _ h₁ in
      let (severity, h₃) =
        guard-nil (not (has f.severity severities)) (finding_severity f.fingerprint f.severity) _
          h₂ in
      let (once, evidence) =
        guard-nil (has (identity f) seen) (finding_repeated (identity f)) _ h₃ in
      record {
        criterion = criterion;
        listed = listed;
        kind = assertion_of criterion.kind kind;
        named = λ e. cc (named, (eq_iff f.fingerprint "").1 e);
        severity = of_not _ severity;
        once = once;
        evidence =
            (evidence_iff (finding_evidence key) evidence_ids (or_no_refs f.evidence_refs)).0
              evidence;
      }

  finding_complete :
      (criterion : CriterionRef) (seen : List String) (f : FindingCandidate)
      → (s : IsSoundFinding criteria evidence_ids seen f) → s.criterion ≡ criterion
      → finding_problems evidence_ids criterion seen f ≡ []
  unfolding finding_problems
  finding_complete criterion seen f s same =
      rw (← same, s.kind, str_eq_of_ne f.fingerprint "" s.named, s.severity, s.once)
        ((evidence_iff (finding_evidence f.criterion_key) evidence_ids
            (or_no_refs f.evidence_refs)).1
          s.evidence)

  check_findings_iff :
      (seen : List String) (fs : List FindingCandidate)
      → (check_findings criteria evidence_ids seen fs ≡ [])
        ↔ AreSoundFindings criteria evidence_ids seen fs
  unfolding check_findings
  check_findings_iff seen [] = ground arith
  check_findings_iff seen (f ∷ fs) = elim (Option-cases (get f.criterion_key criteria)) [
    | inl missing ↦
        (λ h. cc (rw (missing, check_findings) at h), λ (s, rest). cc (missing, s.listed))
    | inr (criterion, listed) ↦
        let (to, from) = check_findings_iff (seen ++ identity f ∷ []) fs in
        let (split, join) =
          append-nil_iff (finding_problems evidence_ids criterion seen f)
            (check_findings criteria evidence_ids (seen ++ identity f ∷ []) fs) in
        (
          λ h.
              let (here, later) = split (rw (listed, check_findings) at h) in
              (finding_sound criterion seen f listed here, to later),
          λ (s, rest).
              rw (listed, check_findings)
                (join (finding_complete criterion seen f s (same_some s.listed listed), from rest)),
        )
  ]

-- A judgment is accepted exactly when all its verdicts and all its findings are sound: each
-- targets a criterion of the version of its own kind, once, in range and on collected evidence.
pub validate_judgment-nil_iff :
    (input : JudgmentInput)
    → let criteria = index_criteria input.criteria in
      (validate_judgment input ≡ []) ↔ (
        AreSoundVerdicts criteria input.evidence_ids [] input.verdicts
        × AreSoundFindings criteria input.evidence_ids [] input.findings)
unfolding validate_judgment
validate_judgment-nil_iff input =
    let criteria = index_criteria input.criteria in
    let (split, join) =
      append-nil_iff (check_verdicts criteria input.evidence_ids [] input.verdicts)
        (check_findings criteria input.evidence_ids [] input.findings) in
    let verdicts = check_verdicts_iff criteria input.evidence_ids [] input.verdicts in
    let findings = check_findings_iff criteria input.evidence_ids [] input.findings in
    (
      λ h. let (v, f) = split h in (verdicts.0 v, findings.0 f),
      λ (v, f). join (verdicts.1 v, findings.1 f),
    )
