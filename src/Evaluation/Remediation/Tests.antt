-- ===== src/Evaluation/Remediation/Tests.antt =====
-- Plans of evaluation/evaluation-remediation.service.ts on a list of rows, at concrete inputs.
use newbie_modules.Common.{◌≡◌, refl, none, some, List, [], ◌∷◌}
use newbie_modules.Common.Table.{Table}
use newbie_modules.Common.Rows.{rows_table}
use newbie_modules.Common.Evolution.{Keeps}
use newbie_modules.Evaluation.Errors.{ok}
use newbie_modules.Evaluation.Remediation.Service.{
  Plan, open_plan, Checkpoint, DecideInput, complete, as_decided, as_progressed, require_plan,
  decide_plan, write_checkpoints, progress, update_checkpoint,
}
use newbie_modules.Evaluation.Remediation.Freezing.{Lives, Lives-refl}
use newbie_modules.Evaluation.Remediation.Closing.{IsDecided, decide_plan_ok}

abbrev table : Table (List Plan) Plan (λ p. p.id)
table = rows_table (λ p. p.id)

abbrev alone : List Plan → List Plan
alone s = s

alone-Keeps : (s : List Plan) → Keeps table Lives s (alone s)
alone-Keeps s j p found = (p, found, Lives-refl p)

abbrev training : Checkpoint
training = record { due_date = "2026-01-01"; description = 120 ∷ []; status = 112 ∷ [] }

abbrev plan : Plan
plan = record {
  id = 4;
  subject_id = 7;
  trigger_refs = 9 ∷ [];
  decider_ref = 100 ∷ [];
  start_date = 10;
  due_date = none;
  checkpoints = some (training ∷ []);
  status = open_plan;
  decision_note = none;
  decided_by_ref = none;
  decided_at = none;
}

abbrev done : DecideInput
done = record { decision = complete; decision_note = none; decided_by_ref = 117 ∷ [] }

abbrev closed : Plan
closed = as_decided 60 done plan

decides : decide_plan table alone 60 4 done (plan ∷ []) ≡ (ok closed, closed ∷ [])
unfolding decide_plan require_plan
decides = refl

progresses : update_checkpoint table alone 4 0 (100 ∷ []) (plan ∷ []) ≡ (
  ok (as_progressed (record training { status = 100 ∷ [] } ∷ []) plan),
  as_progressed (record training { status = 100 ∷ [] } ∷ []) plan ∷ [],
)
unfolding update_checkpoint require_plan progress write_checkpoints
progresses = refl

decide_plan_ok_example :
    IsDecided table alone alone-Keeps 60 4 done (plan ∷ []) (closed ∷ []) closed
decide_plan_ok_example =
    decide_plan_ok table alone alone-Keeps 60 4 done (plan ∷ []) (closed ∷ []) closed decides
