-- ===== src/Evaluation/Result/Service.antt =====
-- `EvaluationResultService` of evaluation/evaluation-result.service.ts. The content hash of a
-- manifest is a parameter `hash`; the opaque `metadata` is left out.
use newbie_modules.Common.{
  ℕ, ◌≡◌, ◌≢◌, String, Bool, true, false, ◌&&◌, not, Option, none, some, List, [], ◌∷◌, ◌==◌,
  if◌then◌else◌, map,
}
use newbie_modules.Common.Table.{Table}
use newbie_modules.Evaluation.Contracts.{
  EvidenceItem, CoverageStats, Verdict, CriterionRef, Problem,
}
use newbie_modules.Evaluation.Coverage.Validate.{validate_coverage_stats}
use newbie_modules.Evaluation.Judgment.Validate.{validate_judgment}
use newbie_modules.Evaluation.Errors.{
  Text, bad_request, not_found, conflict, http, Outcome, ok, throw, run_missing, run_finished,
  problems, result_exists, result_missing, review_note_required,
}
use newbie_modules.Evaluation.Run.State.{Run, is_active}
use newbie_modules.Evaluation.Finding.State.{is_blank}

pub data ReviewStatus : Type 0 where
  approved rejected : ReviewStatus

pub record Result : Type 0 where
  pub id : ℕ
  pub run_id : ℕ
  pub subject_id : ℕ
  pub rule_set_version_id : ℕ
  pub manifest : List EvidenceItem
  pub content_hash : Text
  pub coverage_stats : CoverageStats
  pub verdicts : List Verdict
  pub summary : Option String
  pub review_status : Option ReviewStatus
  pub reviewed_by_ref : Option String
  pub reviewed_at : Option ℕ
  pub review_note : Option Text

pub record CreateResultInput : Type 0 where
  pub run_id : ℕ
  pub manifest : List EvidenceItem
  pub coverage_stats : CoverageStats
  pub verdicts : List Verdict
  pub summary : Option String

pub record ReviewInput : Type 0 where
  pub id : ℕ
  pub review_status : ReviewStatus
  pub reviewed_by_ref : String
  pub note : Option Text

-- The database, as the result service uses it: `runId` is a unique column, and `create` fails with
-- a unique violation if it or the id is taken. A read of a run or of criteria changes nothing.
pub record ResultDb (S : Type 0) : Type 0 where
  pub results : Table S Result (λ r. r.id)
  pub find_run : ℕ → S → Option Run
  pub list_criteria : ℕ → S → List CriterionRef
  pub create : Result → S → Option S
  pub find-create :
      (r : Result) (s t : S) (j : ℕ)
      → create r s ≡ some t
      → results.find j t ≡ (if r.id == j then some r else results.find j s)
  pub create_fresh : (r : Result) (s t : S) → create r s ≡ some t → results.find r.id s ≡ none
  pub create_unique :
      (r q : Result) (s t : S) (j : ℕ)
      → create r s ≡ some t
      → results.find j s ≡ some q
      → q.run_id ≢ r.run_id

abbrev pub manifest_ids : CreateResultInput → List String
manifest_ids input = map (λ i. i.id) input.manifest

abbrev pub new_result : (List EvidenceItem → Text) → ℕ → CreateResultInput → Run → Result
new_result hash id input run = record {
  id = id;
  run_id = input.run_id;
  subject_id = run.subject_id;
  rule_set_version_id = run.rule_set_version_id;
  manifest = input.manifest;
  content_hash = hash input.manifest;
  coverage_stats = input.coverage_stats;
  verdicts = input.verdicts;
  summary = input.summary;
  review_status = none;
  reviewed_by_ref = none;
  reviewed_at = none;
  review_note = none;
}

abbrev pub as_reviewed : ℕ → ReviewInput → Result → Result
as_reviewed now input r = record r {
  review_status = some input.review_status;
  reviewed_by_ref = some input.reviewed_by_ref;
  reviewed_at = some now;
  review_note = input.note;
}

abbrev pub is_rejection : ReviewStatus → Bool
is_rejection approved = false
is_rejection rejected = true

-- `!input.note?.trim()`
abbrev pub lacks_reason : Option Text → Bool
lacks_reason none = true
lacks_reason (some note) = is_blank note

module _ {S : Type 0} (db : ResultDb S) (hash : List EvidenceItem → Text) where
  unfoldable pub archive : Result → S → Outcome Result × S
  archive r s = elim (db.create r s) [
    | none ↦ (throw (http conflict (result_exists r.run_id)), s)
    | some t ↦ (ok r, t)
  ]

  -- The problems of the coverage, or those of the verdicts if the coverage has none.
  unfoldable pub result_problems : CreateResultInput → Run → S → List Problem
  result_problems input run s =
      elim (validate_coverage_stats input.coverage_stats (some (manifest_ids input))) [
        | p ∷ ps ↦ p ∷ ps
        | [] ↦ validate_judgment (record {
          criteria = db.list_criteria run.rule_set_version_id s;
          verdicts = input.verdicts;
          findings = [];
          evidence_ids = some (manifest_ids input);
        })
      ]

  unfoldable pub create_result : ℕ → CreateResultInput → S → Outcome Result × S
  create_result id input s = elim (db.find_run input.run_id s) [
    | none ↦ (throw (http not_found (run_missing input.run_id)), s)
    | some run ↦
        if not (is_active run)
        then (throw (http conflict (run_finished input.run_id)), s)
        else elim (result_problems input run s) [
          | p ∷ ps ↦ (throw (http bad_request (problems (p ∷ ps))), s)
          | [] ↦ archive (new_result hash id input run) s
        ]
  ]

  unfoldable pub review_result : ℕ → ReviewInput → S → Outcome Result × S
  review_result now input s =
      if is_rejection input.review_status && lacks_reason input.note
      then (throw (http bad_request review_note_required), s)
      else elim (db.results.find input.id s) [
        | none ↦ (throw (http not_found (result_missing input.id)), s)
        | some r ↦ (
          ok (as_reviewed now input r),
          (db.results.update_many input.id (λ q. true) (as_reviewed now input) s).0,
        )
      ]
