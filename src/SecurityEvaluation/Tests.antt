-- ===== src/SecurityEvaluation/Tests.antt =====
-- Merges of concrete judgments.
use newbie_modules.Common.{
  ◌≡◌, refl, String, true, none, List, [], ◌∷◌, All, get, set, if◌then◌else◌,
}
use newbie_modules.Evaluation.Contracts.{Verdict, finite, FindingCandidate, Judgment}
use newbie_modules.Evaluation.Coverage.Compose.{has}
use newbie_modules.Common.Int.{pos}
use newbie_modules.SecurityEvaluation.Merge.{
  JudgmentPart, merged, clash, severity_rank, add_all, add_verdicts, add_findings, add_part,
  collect, merge_judgments,
}
use newbie_modules.SecurityEvaluation.Verdicts.{merge_judgments-verdicts}
use newbie_modules.SecurityEvaluation.Owners.{are_unique, all_verdicts, owned, IsFirstRepeat}
use newbie_modules.SecurityEvaluation.Findings.{is_ranked}
use newbie_modules.SecurityEvaluation.Coverage.{IsCovered, all_findings, merge_judgments-IsCovered}

abbrev verdict : Verdict
verdict = record {
  criterion_key = "patching";
  score = finite (pos 3);
  confidence = "high";
  coverage = none;
  evidence_refs = [];
  rationale = "";
}

abbrev finding : String → FindingCandidate
finding severity = record {
  criterion_key = "exposure";
  fingerprint = "open-port";
  severity = severity;
  title = "Open port";
  detail = none;
  evidence_refs = none;
}

abbrev part : String → List Verdict → String → JudgmentPart
part name verdicts severity = record {
  mechanism_name = name;
  judgment = record {
    verdicts = verdicts;
    findings = finding severity ∷ [];
    evaluated_refs = "a" ∷ [];
    skipped = none;
    summary = none;
  };
}

abbrev scans : List JudgmentPart
scans = part "rules" (verdict ∷ []) "LOW" ∷ part "model" [] "HIGH" ∷ []

abbrev both_score : List JudgmentPart
both_score = part "rules" (verdict ∷ []) "LOW" ∷ part "model" (verdict ∷ []) "LOW" ∷ []

refuses_two : merge_judgments both_score ≡ clash "patching" "rules" "model"
unfolding merge_judgments collect add_part add_verdicts get set
refuses_two = refl

abbrev report : Judgment
report = record {
  verdicts = verdict ∷ [];
  findings = finding "HIGH" ∷ [];
  evaluated_refs = "a" ∷ [];
  skipped = none;
  summary = none;
}

merges : merge_judgments scans ≡ merged report
unfolding merge_judgments collect add_part add_verdicts add_findings add_all get set has
    severity_rank
merges = refl

merge_judgments-verdicts_example :
    if are_unique [] (all_verdicts both_score)
    then ((j : Judgment) × (merge_judgments both_score ≡ merged j)
        × (j.verdicts ≡ all_verdicts both_score))
    else ((key : String) × (owner : String) × (name : String) × (merge_judgments both_score
          ≡ clash key owner name)
        × IsFirstRepeat [] (owned both_score) key owner name)
merge_judgments-verdicts_example = merge_judgments-verdicts both_score

ranked : is_ranked (finding "LOW") ≡ true
unfolding severity_rank
ranked = refl

merge_judgments-IsCovered_example : All (IsCovered report) (all_findings scans)
unfolding severity_rank
merge_judgments-IsCovered_example = merge_judgments-IsCovered scans report refl merges
