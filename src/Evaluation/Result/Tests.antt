-- ===== src/Evaluation/Result/Tests.antt =====
-- The results of evaluation/evaluation-result.service.ts on a list of rows, at concrete inputs.
use newbie_modules.Common.{
  ℕ, ◌≡◌, ◌≢◌, refl, sym, ap, subst, Bool, true, false, Option, none, some, List, [], ◌∷◌, ◌==◌,
  if◌then◌else◌, Bool-cases, Option-cases, inl, inr, arith, get, set,
}
use mathlib.Core.List.{Memᴰ, not-mem-nil}
use newbie_modules.Common.Int.{pos}
use newbie_modules.Common.Evolution.{Keeps}
use newbie_modules.Common.Rows.{rows_table, find_row, find_rows, find_row-id, find_rows_complete}
use newbie_modules.Evaluation.Contracts.{
  EvidenceItem, CoverageBucket, CriterionRef, Verdict, scored, finite,
}
use newbie_modules.Evaluation.Coverage.Compose.{has}
use newbie_modules.Evaluation.Coverage.Validate.{
  validate_bucket, outside_manifest, validate_coverage_stats,
}
use newbie_modules.Evaluation.Judgment.Validate.{
  index_criteria, criteria_from, validate_judgment, check_verdicts, verdict_problems, unknown_refs,
  check_findings,
}
use newbie_modules.Evaluation.Errors.{Text, ok}
use newbie_modules.Evaluation.Run.State.{Run, running}
use newbie_modules.Evaluation.Result.Service.{
  Result, CreateResultInput, ReviewInput, ResultDb, approved, new_result, archive, result_problems,
  create_result, review_result,
}
use newbie_modules.Evaluation.Result.Snapshot.{
  IsArchived, SameSnapshot, here, next, reviewed, create_result_ok, Reach-SameSnapshot,
}
use newbie_modules.Evaluation.Result.Reads.{ResultReads}

abbrev is_taken : Result → Result → Bool
is_taken r q = if q.id == r.id then true else q.run_id == r.run_id

abbrev insert_if : Result → List Result → List Result → Option (List Result)
insert_if r rs [] = some (r ∷ rs)
insert_if r rs (q ∷ qs) = none

insert_if-some :
    (r : Result) (rs t taken : List Result)
    → insert_if r rs taken ≡ some t
    → (taken ≡ []) × (t ≡ r ∷ rs)
insert_if-some r rs t [] h = (refl, cc)
insert_if-some r rs t (q ∷ qs) h = cc

abbrev create_row : Result → List Result → Option (List Result)
create_row r rs = insert_if r rs (find_rows (λ q. q.id) (is_taken r) rs)

not_taken :
    (r q : Result) (s t : List Result) (j : ℕ)
    → create_row r s ≡ some t
    → find_row (λ q. q.id) j s ≡ some q
    → is_taken r q ≡ false
not_taken r q s t j made found =
    let e : q.id ≡ j = find_row-id (λ q. q.id) j s q found in
    let mine : find_row (λ q. q.id) q.id s ≡ some q =
      subst (λ k. find_row (λ q. q.id) k s ≡ some q) (sym e) found in
    elim (Bool-cases (is_taken r q)) [
      | inr free ↦ free
      | inl taken ↦ absurd (
          not-mem-nil
            ∣ subst (Memᴰ q) (insert_if-some r s t _ made).0
              (find_rows_complete (λ q. q.id) (is_taken r) s q mine taken) ∣₁)
    ]

create_row-fresh :
    (r : Result) (s t : List Result) → create_row r s ≡ some t → find_row (λ q. q.id) r.id s ≡ none
create_row-fresh r s t made = elim (Option-cases (find_row (λ q. q.id) r.id s)) [
  | inl free ↦ free
  | inr (q, found) ↦
      let e : q.id ≡ r.id = find_row-id (λ q. q.id) r.id s q found in
      let free = not_taken r q s t r.id made found in absurd (ground (arith, e))
]

create_row_unique :
    (r q : Result) (s t : List Result) (j : ℕ)
    → create_row r s ≡ some t
    → find_row (λ q. q.id) j s ≡ some q
    → q.run_id ≢ r.run_id
create_row_unique r q s t j made found same =
    let free = not_taken r q s t j made found in ground (arith, same)

abbrev run : Run
run = record {
  id = 5;
  subject_id = 7;
  rule_set_version_id = 3;
  requested_by_ref = none;
  status = running;
  error = none;
  started_at = some 100;
  finished_at = none;
  created_at = 90;
  updated_at = 100;
}

abbrev price : CriterionRef
price = record { criterion_key = "price"; kind = scored; name = "Price" }

abbrev table : ResultDb (List Result)
table = record {
  results = rows_table (λ r. r.id);
  find_run = λ id s. if id == 5 then some run else none;
  list_criteria = λ id s. price ∷ [];
  create = create_row;
  find-create = λ r s t j made. rw (insert_if-some r s t _ made).1;
  create_fresh = create_row-fresh;
  create_unique = create_row_unique;
}

abbrev reads : ResultReads (List Result) table
reads = record {
  kind_of = λ r s. "vendor";
  find_for_run = find_row (λ r. r.run_id);
  find_for_run-create =
      λ r s t run_id made. ap (find_row (λ q. q.run_id) run_id) (insert_if-some r s t _ made).1;
}

abbrev evidence : EvidenceItem
evidence = record { id = "a"; layer = "L1"; source = "crm"; summary = "s"; observed_at = 1 }

abbrev nothing : CoverageBucket
nothing = record { total = pos 0; by_source = none; note = none; items = none }

abbrev verdict : Verdict
verdict = record {
  criterion_key = "price";
  score = finite (pos 4);
  confidence = "high";
  coverage = some (record { included = some (pos 1); skipped = some (pos 0) });
  evidence_refs = "a" ∷ [];
  rationale = "r";
}

abbrev input : CreateResultInput
input = record {
  run_id = 5;
  manifest = evidence ∷ [];
  coverage_stats = record {
    evaluated = some (record nothing { total = pos 1; items = some ("a" ∷ []) });
    declared_unlinked = some nothing;
    skipped = some nothing;
    unconsumed = some nothing;
  };
  verdicts = verdict ∷ [];
  summary = none;
}

abbrev hash : List EvidenceItem → Text
hash items = []

abbrev made : Result
made = new_result hash 1 input run

abbrev endorsed : ReviewInput
endorsed = record { id = 1; review_status = approved; reviewed_by_ref = "u"; note = none }

archives : create_result table hash 1 input [] ≡ (ok made, made ∷ [])
unfolding create_result result_problems archive validate_coverage_stats validate_bucket
    outside_manifest validate_judgment index_criteria criteria_from check_verdicts verdict_problems
    unknown_refs check_findings has get set
archives = refl

create_result_ok_example : IsArchived table hash 1 input [] (made ∷ []) made
create_result_ok_example = create_result_ok table hash 1 input [] (made ∷ []) made archives

Reach-SameSnapshot_example :
    Keeps table.results SameSnapshot
      (made ∷ [])
      (review_result table hash 60 endorsed (made ∷ [])).1
Reach-SameSnapshot_example =
    Reach-SameSnapshot table hash (next here (reviewed 60 endorsed (made ∷ [])))
