-- ===== src/Evaluation/Remediation/Service.antt =====
-- `EvaluationRemediationService` of evaluation/evaluation-remediation.service.ts; Creation has
-- `createPlan`. A call that reads before it writes takes what other processes do to the database
-- in between as `others`. An index is a natural number, and a date of a checkpoint is its text.
use newbie_modules.Common.{
  ℕ, zero, suc, String, Bool, true, false, Option, none, some, List, [], ◌∷◌, ◌==◌, if◌then◌else◌,
  length, ltb,
}
use newbie_modules.Common.Table.{Table}
use newbie_modules.Evaluation.Errors.{
  Text, bad_request, not_found, conflict, http, Outcome, ok, throw, plan_missing, plan_decided,
  plan_overtaken, decided_by_required, checkpoint_status_required, checkpoint_missing,
}
use newbie_modules.Evaluation.Finding.State.{is_blank}

pub data PlanStatus : Type 0 where
  open_plan completed cancelled : PlanStatus

pub record Checkpoint : Type 0 where
  pub due_date : String
  pub description : Text
  pub status : Text

pub record Plan : Type 0 where
  pub id : ℕ
  pub subject_id : ℕ
  pub trigger_refs : List ℕ
  pub decider_ref : Text
  pub start_date : ℕ
  pub due_date : Option ℕ
  pub checkpoints : Option (List Checkpoint)
  pub status : PlanStatus
  pub decision_note : Option Text
  pub decided_by_ref : Option Text
  pub decided_at : Option ℕ

pub data Decision : Type 0 where
  complete cancel : Decision

pub record DecideInput : Type 0 where
  pub decision : Decision
  pub decision_note : Option Text
  pub decided_by_ref : Text

abbrev pub is_undecided : Plan → Bool
is_undecided p = elim p.status [ open_plan ↦ true | completed ↦ false | cancelled ↦ false ]

abbrev is_completed : Plan → Bool
is_completed p = elim p.status [ open_plan ↦ false | completed ↦ true | cancelled ↦ false ]

abbrev status_of : Decision → PlanStatus
status_of complete = completed
status_of cancel = cancelled

-- A field of `data` that is `undefined` is not written.
abbrev kept_or : Option Text → Option Text → Option Text
kept_or none old = old
kept_or (some new) old = some new

abbrev pub as_decided : ℕ → DecideInput → Plan → Plan
as_decided now input p = record p {
  status = status_of input.decision;
  decision_note = kept_or input.decision_note p.decision_note;
  decided_by_ref = some input.decided_by_ref;
  decided_at = some now;
}

abbrev pub checkpoints_of : Plan → List Checkpoint
checkpoints_of p = elim p.checkpoints [ none ↦ [] | some cs ↦ cs ]

abbrev pub set_status : ℕ → Text → List Checkpoint → List Checkpoint
set_status index status [] = []
set_status zero status (c ∷ cs) = record c { status = status } ∷ cs
set_status (suc index) status (c ∷ cs) = c ∷ set_status index status cs

abbrev pub as_progressed : List Checkpoint → Plan → Plan
as_progressed cs p = record p { checkpoints = some cs }

module _ {S : Type 0} (table : Table S Plan (λ p. p.id)) where
  open table use {find, update_many}

  unfoldable pub require_plan : ℕ → S → Outcome Plan
  require_plan id s = elim (find id s) [
    | none ↦ throw (http not_found (plan_missing id))
    | some p ↦ ok p
  ]

  -- What a decision that changed no row answers.
  unfoldable pub undecided : ℕ → S → Outcome Plan
  undecided id s = elim (find id s) [
    | none ↦ throw (http not_found (plan_missing id))
    | some p ↦ throw (http conflict (plan_decided id (is_completed p)))
  ]

  unfoldable pub decide_plan : (S → S) → ℕ → ℕ → DecideInput → S → Outcome Plan × S
  decide_plan others now id input s =
      if is_blank input.decided_by_ref
      then (throw (http bad_request decided_by_required), s)
      else let (t, count) = update_many id is_undecided (as_decided now input) s in
        let u = others t in if count == 0 then (undecided id u, u) else (require_plan id u, u)

  -- The conditional write of `updateCheckpoint` and what follows it.
  unfoldable pub write_checkpoints : (S → S) → ℕ → List Checkpoint → S → Outcome Plan × S
  write_checkpoints others id cs s =
      let (t, count) = update_many id is_undecided (as_progressed cs) s in
      if count == 0
      then (throw (http conflict (plan_overtaken id)), t)
      else let u = others t in (require_plan id u, u)

  unfoldable pub progress : (S → S) → ℕ → ℕ → Text → Plan → S → Outcome Plan × S
  progress others id index status p s =
      if is_undecided p
      then (if ltb index (length (checkpoints_of p))
          then write_checkpoints others id (set_status index status (checkpoints_of p)) (others s)
          else (throw (http not_found (checkpoint_missing id index)), s))
      else (throw (http conflict (plan_decided id (is_completed p))), s)

  unfoldable pub update_checkpoint : (S → S) → ℕ → ℕ → Text → S → Outcome Plan × S
  update_checkpoint others id index status s =
      if is_blank status
      then (throw (http bad_request checkpoint_status_required), s)
      else elim (require_plan id s) [
        | throw e ↦ (throw e, s)
        | ok p ↦ progress others id index status p s
      ]
