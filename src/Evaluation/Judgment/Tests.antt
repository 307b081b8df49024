-- ===== src/Evaluation/Judgment/Tests.antt =====
-- The judgment checks of evaluation-invariants.ts at concrete inputs.
use newbie_modules.Common.{◌≡◌, ◌↔◌, refl, none, some, List, [], ◌∷◌, get, set}
use newbie_modules.Common.Int.{pos}
use newbie_modules.Evaluation.Contracts.{
  CriterionRef, scored, assertion, Verdict, FindingCandidate, finite, verdict_repeated,
}
use newbie_modules.Evaluation.Coverage.Compose.{has}
use newbie_modules.Evaluation.Judgment.Validate.{
  JudgmentInput, index_criteria, criteria_from, validate_judgment, check_verdicts, verdict_problems,
  unknown_refs, check_findings, finding_problems,
}
use newbie_modules.Evaluation.Judgment.Sound.{AreSoundVerdicts, AreSoundFindings}
use newbie_modules.Evaluation.Judgment.Consistent.{validate_judgment-nil_iff}

abbrev criteria : List CriterionRef
criteria =
    record { criterion_key = "price"; kind = scored; name = "Price" }
    ∷ record { criterion_key = "lapse"; kind = assertion; name = "Lapse" }
    ∷ []

abbrev verdict : Verdict
verdict = record {
  criterion_key = "price";
  score = finite (pos 4);
  confidence = "high";
  coverage = some (record { included = some (pos 1); skipped = some (pos 0) });
  evidence_refs = "a" ∷ [];
  rationale = "r";
}

abbrev finding : FindingCandidate
finding = record {
  criterion_key = "lapse";
  fingerprint = "f";
  severity = "LOW";
  title = "t";
  detail = none;
  evidence_refs = none;
}

abbrev sound : JudgmentInput
sound = record {
  criteria = criteria;
  verdicts = verdict ∷ [];
  findings = finding ∷ [];
  evidence_ids = some ("a" ∷ []);
}

accepts_sound : validate_judgment sound ≡ []
unfolding validate_judgment index_criteria criteria_from check_verdicts verdict_problems
    unknown_refs has check_findings finding_problems get set
accepts_sound = refl

reports_repeated :
    validate_judgment (record sound { verdicts = verdict ∷ verdict ∷ [] })
    ≡ verdict_repeated "price" ∷ []
unfolding validate_judgment index_criteria criteria_from check_verdicts verdict_problems
    unknown_refs has check_findings finding_problems get set
reports_repeated = refl

validate_judgment-nil_iff_example :
    let criteria = index_criteria sound.criteria in
    (validate_judgment sound ≡ []) ↔ (
      AreSoundVerdicts criteria sound.evidence_ids [] sound.verdicts
      × AreSoundFindings criteria sound.evidence_ids [] sound.findings)
validate_judgment-nil_iff_example = validate_judgment-nil_iff sound
