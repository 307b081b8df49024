-- ===== src/Evaluation/Remediation/CreationTests.antt =====
-- `createPlan` of evaluation/evaluation-remediation.service.ts on three lists of rows, at concrete
-- inputs.
use newbie_modules.Common.{
  ℕ, ◌≡◌, refl, sym, ap, ◌∙◌, String, Bool, true, Option, none, some, List, [], ◌∷◌, ◌==◌,
  if◌then◌else◌,
}
use newbie_modules.Common.Table.{Table, matched}
use newbie_modules.Common.Rows.{
  find_row, find_rows, write_row, find_row-id, find_row-write_row, find_rows_sound,
  find_rows_complete,
}
use newbie_modules.Evaluation.Errors.{ok}
use newbie_modules.Evaluation.Finding.State.{Finding}
use newbie_modules.Evaluation.Finding.Data.{new_finding}
use newbie_modules.Evaluation.Result.Service.{Result}
use newbie_modules.Evaluation.Run.State.{Run, running, Subject}
use newbie_modules.Evaluation.Remediation.Service.{Plan}
use newbie_modules.Evaluation.Remediation.Creation.{
  CreatePlanInput, PlanDb, new_plan, validate_checkpoints, unknown_ids, insert_plan, check_input,
  create_plan,
}
use newbie_modules.Evaluation.Remediation.Anchoring.{IsCreated, create_plan_ok}

-- The table of one of the lists of a state.
abbrev part :
    {S Row : Type 0}
    → (id_of : Row → ℕ) (rows : S → List Row) (put : List Row → S → S)
    → ((rs : List Row) (s : S) → rows (put rs s) ≡ rs)
    → Table S Row id_of
part id_of rows put put_law = record {
  find = λ j s. find_row id_of j (rows s);
  find_many = λ p s. find_rows id_of p (rows s);
  update_many =
      λ id p f s. (put (write_row id_of id p f (rows s)) s, matched p (find_row id_of id (rows s)));
  find-id = λ j s. find_row-id id_of j (rows s);
  find-update_many = λ id j p f s same.
      ap (find_row id_of j) (put_law (write_row id_of id p f (rows s)) s)
      ∙ find_row-write_row id_of id j p f (rows s) same;
  count-update_many = λ id p f s. refl;
  find_many_sound = λ p s. find_rows_sound id_of p (rows s);
  find_many_complete = λ p s. find_rows_complete id_of p (rows s);
}

pub record Rows : Type 0 where
  pub plans : List Plan
  pub findings : List Finding
  pub results : List Result

abbrev subject : Subject
subject = record { id = 7; kind = "vendor" }

abbrev insert : Plan → Rows → Option Plan → Option Rows
insert p s none = some (record s { plans = p ∷ s.plans })
insert p s (some q) = none

insert-some :
    (p : Plan) (s t : Rows) (o : Option Plan) → insert p s o ≡ some t → t.plans ≡ p ∷ s.plans
insert-some p s t none h =
    let same : some (record s { plans = p ∷ s.plans }) ≡ some t = h in
    let rows_of : Option Rows → List Plan = λ o. elim o [ none ↦ [] | some r ↦ r.plans ] in
    sym (ap rows_of same)
insert-some p s t (some q) h = absurd (cc h)

abbrev db : PlanDb Rows
db = record {
  plans = part (λ p. p.id) (λ s. s.plans) (λ rs s. record s { plans = rs }) (λ rs s. refl);
  findings = part (λ f. f.id) (λ s. s.findings) (λ rs s. record s { findings = rs }) (λ rs s. refl);
  results = part (λ r. r.id) (λ s. s.results) (λ rs s. record s { results = rs }) (λ rs s. refl);
  find_subject = λ id s. if id == 7 then some subject else none;
  create = λ p s. insert p s (find_row (λ q. q.id) p.id s.plans);
  find-create = λ p s t j made. ap (find_row (λ q. q.id) j) (insert-some p s t _ made);
}

abbrev run : Run
run = record {
  id = 5;
  subject_id = 7;
  rule_set_version_id = 3;
  requested_by_ref = none;
  status = running;
  error = none;
  started_at = some 100;
  finished_at = none;
  created_at = 90;
  updated_at = 100;
}

abbrev finding : Finding
finding =
    new_finding run "k"
      (record {
        criterion_key = "lapse";
        fingerprint = "f";
        severity = "LOW";
        title = "t";
        detail = none;
        evidence_refs = none;
      })
      100 9

abbrev input : CreatePlanInput
input = record {
  subject_id = 7;
  trigger_refs = 9 ∷ 9 ∷ [];
  decider_ref = 100 ∷ [];
  start_date = 10;
  due_date = some 20;
  checkpoints =
      some (record { due_date = "2026-01-01"; description = 120 ∷ []; status = 112 ∷ [] } ∷ []);
}

abbrev parses : String → Bool
parses text = true

abbrev rows_before : Rows
rows_before = record { plans = []; findings = finding ∷ []; results = [] }

abbrev rows_after : Rows
rows_after = record rows_before { plans = new_plan 4 input ∷ [] }

creates : create_plan db parses 4 input rows_before ≡ (ok (new_plan 4 input), rows_after)
unfolding create_plan check_input validate_checkpoints insert_plan unknown_ids
creates = refl

create_plan_ok_example : IsCreated db parses 4 input rows_before rows_after (new_plan 4 input)
create_plan_ok_example =
    create_plan_ok db parses 4 input rows_before rows_after (new_plan 4 input) creates
