-- ===== src/Evaluation/Remediation/Creation.antt =====
-- `createPlan` of evaluation/evaluation-remediation.service.ts. `parses` tells whether the language
-- reads a text as a date. The call is one step on the database.
use newbie_modules.Common.{
  ℕ, zero, suc, ◌≡◌, String, Bool, true, false, ◌&&◌, not, Option, none, some, List, [], ◌∷◌, ◌++◌,
  map, ◌==◌, if◌then◌else◌, leb, any, select,
}
use newbie_modules.Common.Table.{Table}
use newbie_modules.Evaluation.Errors.{
  Text, bad_request, not_found, http, error, Outcome, ok, throw, subject_missing,
  plan_decider_required, triggers_required, due_date_early, checkpoint_problems, triggers_unknown,
  CheckpointProblem, description_blank, status_blank, date_invalid,
}
use newbie_modules.Evaluation.Finding.State.{Finding, is_blank}
use newbie_modules.Evaluation.Result.Service.{Result}
use newbie_modules.Evaluation.Run.State.{Subject}
use newbie_modules.Evaluation.Remediation.Service.{Plan, Checkpoint, open_plan}

pub record CreatePlanInput : Type 0 where
  pub subject_id : ℕ
  pub trigger_refs : List ℕ
  pub decider_ref : Text
  pub start_date : ℕ
  pub due_date : Option ℕ
  pub checkpoints : Option (List Checkpoint)

-- `create` fails only if the id is taken.
pub record PlanDb (S : Type 0) : Type 0 where
  pub plans : Table S Plan (λ p. p.id)
  pub findings : Table S Finding (λ f. f.id)
  pub results : Table S Result (λ r. r.id)
  pub find_subject : ℕ → S → Option Subject
  pub create : Plan → S → Option S
  pub find-create :
      (p : Plan) (s t : S) (j : ℕ)
      → create p s ≡ some t
      → plans.find j t ≡ (if p.id == j then some p else plans.find j s)

abbrev pub has_id : ℕ → List ℕ → Bool
has_id x xs = any (λ y. y == x) xs

abbrev pub distinct_from : List ℕ → List ℕ → List ℕ
distinct_from seen [] = seen
distinct_from seen (x ∷ xs) = distinct_from (if has_id x seen then seen else seen ++ x ∷ []) xs

abbrev problem_if : Bool → CheckpointProblem → List CheckpointProblem
problem_if false p = []
problem_if true p = p ∷ []

-- A checkpoint here has the shape of its type.
unfoldable pub validate_checkpoints : (String → Bool) → ℕ → List Checkpoint → List CheckpointProblem
validate_checkpoints parses index [] = []
validate_checkpoints parses index (c ∷ cs) =
    problem_if (is_blank c.description) (description_blank index)
    ++ (problem_if (is_blank c.status) (status_blank index)
        ++ (problem_if (not (parses c.due_date)) (date_invalid index)
            ++ validate_checkpoints parses (suc index) cs))

abbrev pub problems_of : (String → Bool) → Option (List Checkpoint) → List CheckpointProblem
problems_of parses none = []
problems_of parses (some cs) = validate_checkpoints parses zero cs

abbrev pub is_early : Option ℕ → ℕ → Bool
is_early none start = false
is_early (some due) start = leb due start

abbrev pub new_plan : ℕ → CreatePlanInput → Plan
new_plan id input = record {
  id = id;
  subject_id = input.subject_id;
  trigger_refs = distinct_from [] input.trigger_refs;
  decider_ref = input.decider_ref;
  start_date = input.start_date;
  due_date = input.due_date;
  checkpoints = input.checkpoints;
  status = open_plan;
  decision_note = none;
  decided_by_ref = none;
  decided_at = none;
}

module _ {S : Type 0} (db : PlanDb S) (parses : String → Bool) where
  -- The ids of the findings and results of the subject among `refs`.
  abbrev pub known_ids : ℕ → List ℕ → S → List ℕ
  known_ids subject_id refs s =
      map (λ f. f.id)
        (db.findings.find_many (λ f. has_id f.id refs && (f.subject_id == subject_id)) s)
      ++ map (λ r. r.id)
          (db.results.find_many (λ r. has_id r.id refs && (r.subject_id == subject_id)) s)

  unfoldable pub unknown_ids : ℕ → List ℕ → S → List ℕ
  unknown_ids subject_id refs s =
      let known = known_ids subject_id refs s in select (λ ref. not (has_id ref known)) refs

  unfoldable pub insert_plan : ℕ → CreatePlanInput → S → Outcome Plan × S
  insert_plan id input s =
      let row = new_plan id input in
      elim (unknown_ids input.subject_id row.trigger_refs s) [
        | u ∷ us ↦ (throw (http bad_request (triggers_unknown input.subject_id (u ∷ us))), s)
        | [] ↦ elim (db.create row s) [ none ↦ (throw (error []), s) | some t ↦ (ok row, t) ]
      ]

  -- The checks that read nothing.
  unfoldable pub check_input : CreatePlanInput → Outcome (Unit {0})
  check_input input =
      if is_blank input.decider_ref
      then throw (http bad_request plan_decider_required)
      else elim input.trigger_refs [
        | [] ↦ throw (http bad_request triggers_required)
        | ref ∷ refs ↦
            if is_early input.due_date input.start_date
            then throw (http bad_request due_date_early)
            else elim (problems_of parses input.checkpoints) [
              | p ∷ ps ↦ throw (http bad_request (checkpoint_problems (p ∷ ps)))
              | [] ↦ ok tt
            ]
      ]

  unfoldable pub create_plan : ℕ → CreatePlanInput → S → Outcome Plan × S
  create_plan id input s = elim (check_input input) [
    | throw e ↦ (throw e, s)
    | ok u ↦ elim (db.find_subject input.subject_id s) [
      | none ↦ (throw (http not_found (subject_missing input.subject_id)), s)
      | some subject ↦ insert_plan id input s
    ]
  ]
