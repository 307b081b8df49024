-- ===== src/Evaluation/Runner/Tests.antt =====
-- Executions of evaluation/evaluation-runner.service.ts on a table of rows, at concrete inputs.
use newbie_modules.Common.{◌≡◌, refl, none, some, List, [], ◌∷◌}
use newbie_modules.Common.Int.{pos}
use newbie_modules.Evaluation.Contracts.{CoverageBucket, EvidenceCollection, Judgment}
use newbie_modules.Evaluation.Errors.{Text, HttpStatus, Reason, ok}
use newbie_modules.Evaluation.Run.Sample.{acme, vendor_rules, table}
use newbie_modules.Evaluation.Run.State.{Run, running, failed, stale_run_error}
use newbie_modules.Evaluation.Run.Service.{as_failed, reap_row}
use newbie_modules.Evaluation.Runner.State.{Work}
use newbie_modules.Evaluation.Runner.Service.{execute}
use newbie_modules.Evaluation.Runner.Execution.{Ends, execute-Ends}
use newbie_modules.Evaluation.Runner.Fence.{IsFenced, execute-IsFenced}

abbrev no_text : HttpStatus → Reason → Text
no_text status reason = []

abbrev nothing : CoverageBucket
nothing = record { total = pos 0; by_source = none; note = none; items = none }

abbrev evidence : EvidenceCollection
evidence = record {
  items = record { id = "a"; layer = "L1"; source = "crm"; summary = "s"; observed_at = 1 } ∷ [];
  declared_unlinked = nothing;
  skipped = nothing;
}

abbrev judgment : Judgment
judgment = record {
  verdicts = [];
  findings = [];
  evaluated_refs = "a" ∷ [];
  skipped = none;
  summary = none;
}

-- Ports and services that all succeed.
abbrev work : Work (List Run)
work = record {
  get_subject = λ id s. ok acme;
  get_version = λ id s. ok vendor_rules;
  list_criteria = λ id s. [];
  collect = λ subject version. ok evidence;
  judge = λ subject version criteria items. ok judgment;
  create_result = λ id items stats verdicts summary s. (ok 40, s);
  record_findings = λ run findings ids s. (ok [], s);
  resolve_absent_findings = λ run s. (ok 0, s);
  others = λ i s. s;
}

abbrev live_run : Run
live_run = record {
  id = 1;
  subject_id = 7;
  rule_set_version_id = 3;
  requested_by_ref = none;
  status = running;
  error = none;
  started_at = some 110;
  finished_at = none;
  created_at = 100;
  updated_at = 110;
}

abbrev dead_run : Run
dead_run = as_failed stale_run_error 500 live_run

abbrev report : Run
report = record live_run { status = failed; error = some stale_run_error; finished_at = some 500 }

reported : (reap_row table 500 live_run (live_run ∷ [])).0 ≡ some report
unfolding reap_row
reported = refl

execute-Ends_example :
    Ends table work no_text live_run (execute table work no_text 200 live_run (live_run ∷ []))
execute-Ends_example = execute-Ends table work no_text 200 live_run (live_run ∷ [])

execute-IsFenced_example :
    IsFenced table work no_text
      (λ i t. refl)
      600
      live_run
      (dead_run ∷ [])
      dead_run
      refl
      refl
      (execute table work no_text 600 live_run (dead_run ∷ []))
execute-IsFenced_example =
    execute-IsFenced table work no_text (λ i t. refl) 600 live_run (dead_run ∷ []) dead_run refl
      refl
