-- ===== src/Evaluation/Runner/Service.antt =====
-- `EvaluationRunnerService` of evaluation/evaluation-runner.service.ts. An execution takes the state
-- of the database and returns its outcome, the new state, the terminal events it emits and the
-- observer's calls. The heartbeat is a write of another process here, the failure of an event
-- channel or of the observer is caught and logged in the source, and the timers are left out.
use newbie_modules.Common.{ℕ, Bool, Option, none, some, List, [], ◌∷◌, ◌++◌, map, true, false}
use newbie_modules.Evaluation.Contracts.{EvidenceCollection, CoverageStats, Judgment}
use newbie_modules.Evaluation.Errors.{
  Text, HttpStatus, Reason, bad_request, problems, Exception, http, Outcome, ok, throw,
}
use newbie_modules.Evaluation.Run.State.{
  Run, RunDb, Subject, RuleSetVersion, StartRunInput, format_run_error, stale_run_error,
}
use newbie_modules.Evaluation.Run.Service.{
  Selector, start_run, mark_running, mark_succeeded, mark_failed, assert_active, find_by_id,
  reap_stale_runs,
}
use newbie_modules.Evaluation.Runner.State.{
  Terminal, Identity, RunEvent, RunFinished, RunOutcome, Execution, Work, chain, evaluated_coverage,
  identify, succeeded_with, failed_with,
}

module _ {S : Type 0} (db : RunDb S) (work : Work S)
    (response_text : HttpStatus → Reason → Text) where
  open work use {others}

  -- `assertActive(running.id, startedAt)` as the call number `i`, and then the write.
  abbrev pub guarded : {A : Type 0} → ℕ → Run → (S → Outcome A × S) → S → Outcome A × S
  guarded i run write s = elim (assert_active db run.id run.started_at (others i s)) [
    | throw e ↦ (throw e, others i s)
    | ok u ↦ write (others i s)
  ]

  -- The part of `execute` from the first write on, backwards: each write and what follows it.
  unfoldable pub close : ℕ → Run → ℕ → List ℕ → ℕ → S → Outcome RunOutcome × S
  close now run result_id finding_ids count s =
      chain (guarded 3 run (mark_succeeded db now run.id) s) (λ done t. (
        ok (record {
          run_id = run.id;
          result_id = result_id;
          finding_ids = finding_ids;
          resolved_finding_count = count;
        }),
        t,
      ))

  unfoldable pub resolve : ℕ → Run → ℕ → List ℕ → S → Outcome RunOutcome × S
  resolve now run result_id finding_ids s =
      chain (guarded 2 run (work.resolve_absent_findings run) s)
        (λ count t. close now run result_id finding_ids count t)

  unfoldable pub record_all :
      ℕ → Run → EvidenceCollection → Judgment → ℕ → S → Outcome RunOutcome × S
  record_all now run evidence judgment result_id s =
      chain
        (guarded 1 run (work.record_findings run judgment.findings (map (λ i. i.id) evidence.items))
          s)
        (λ finding_ids t. resolve now run result_id finding_ids t)

  unfoldable pub settle :
      ℕ → Run → EvidenceCollection → Judgment → CoverageStats → S → Outcome RunOutcome × S
  settle now run evidence judgment stats s =
      chain
        (guarded 0 run
          (work.create_result run.id evidence.items stats judgment.verdicts judgment.summary) s)
        (λ result_id t. record_all now run evidence judgment result_id t)

  -- `collect`, `judge` and the composition, which write nothing.
  unfoldable pub prepare :
      Run → Subject → RuleSetVersion → S → Outcome (EvidenceCollection × Judgment × CoverageStats)
  prepare run subject version s = elim (work.collect subject version) [
    | throw e ↦ throw e
    | ok evidence ↦
        elim (work.judge subject version (work.list_criteria version.id s) evidence.items) [
          | throw e ↦ throw e
          | ok judgment ↦
              let (stats, found) = evaluated_coverage evidence judgment in
              elim found [
                | [] ↦ ok (evidence, judgment, stats)
                | p ∷ ps ↦ throw (http bad_request (problems (p ∷ ps)))
              ]
        ]
  ]

  -- The `try` block once the identity is known.
  unfoldable pub attempt : ℕ → Run → Subject → RuleSetVersion → S → Outcome RunOutcome × S
  attempt now run subject version s = elim (prepare run subject version s) [
    | throw e ↦ (throw e, s)
    | ok (evidence, judgment, stats) ↦ settle now run evidence judgment stats s
  ]

  -- `row?.error ?? formatRunError(error)`
  abbrev pub row_error : Outcome Run → Text → Text
  row_error (throw e) text = text
  row_error (ok r) text = elim r.error [ none ↦ text | some stored ↦ stored ]

  unfoldable pub persist_failure : ℕ → ℕ → Exception → S → Text × S
  persist_failure now id e s =
      let text = format_run_error response_text e in
      let (marked, t) = mark_failed db text now id s in
      elim marked [
        | ok u ↦ (text, t)
        | throw refused ↦ (row_error (find_by_id db (λ r. "") id none t) text, t)
      ]

  -- `resolveRunIdentity`, and no event if it fails.
  abbrev pub resolve_run_identity : Run → S → Option Identity
  resolve_run_identity run s = elim (work.get_subject run.subject_id s) [
    | throw e ↦ none
    | ok subject ↦ elim (work.get_version run.rule_set_version_id s) [
      | throw e ↦ none
      | ok version ↦ some (identify run subject version)
    ]
  ]

  abbrev pub publish : Option Identity → Terminal → List RunEvent
  publish none terminal = []
  publish (some identity) terminal = record { identity = identity; terminal = terminal } ∷ []

  abbrev pub finished_event : Run → Terminal → RunFinished
  finished_event run terminal = record {
    run_id = run.id;
    subject_id = run.subject_id;
    rule_set_version_id = run.rule_set_version_id;
    terminal = terminal;
  }

  -- `identity ?? (await this.resolveRunIdentity(running))`
  abbrev pub or_resolved : Option Identity → Run → S → Option Identity
  or_resolved none run s = resolve_run_identity run s
  or_resolved (some identity) run s = some identity

  -- The `catch` block.
  unfoldable pub fail_run : ℕ → Run → Option Identity → Exception → S → Execution S
  fail_run now run identity e s =
      let (text, t) = persist_failure now run.id e s in
      record {
        outcome = throw e;
        state = t;
        events = publish (or_resolved identity run t) (failed_with text);
        finished = finished_event run (failed_with text) ∷ [];
      }

  unfoldable pub conclude : ℕ → Run → Identity → Outcome RunOutcome × S → Execution S
  conclude now run identity (throw e, s) = fail_run now run (some identity) e (others 4 s)
  conclude now run identity (ok outcome, s) = record {
    outcome = ok outcome;
    state = s;
    events = publish (some identity) succeeded_with;
    finished = finished_event run succeeded_with ∷ [];
  }

  unfoldable pub execute : ℕ → Run → S → Execution S
  execute now run s = elim (work.get_subject run.subject_id s) [
    | throw e ↦ fail_run now run none e (others 4 s)
    | ok subject ↦ elim (work.get_version run.rule_set_version_id s) [
      | throw e ↦ fail_run now run none e (others 4 s)
      | ok version ↦
          conclude now run (identify run subject version) (attempt now run subject version s)
    ]
  ]

  unfoldable pub open_run : Selector → ℕ → ℕ → StartRunInput → S → Outcome Run × S
  open_run select_version now id input s =
      chain (start_run db select_version now id input s) (λ run t.
        let u = mark_running db now run.id t in (find_by_id db (λ r. "") run.id none u, u))

  -- `row.error ?? STALE_RUN_ERROR`
  abbrev pub reaped_error : Run → Text
  reaped_error row = elim row.error [ none ↦ stale_run_error | some text ↦ text ]

  unfoldable pub reaped_events : List Run → S → List RunEvent
  reaped_events [] s = []
  reaped_events (row ∷ rows) s =
      publish (resolve_run_identity row s) (failed_with (reaped_error row)) ++ reaped_events rows s

  unfoldable pub reaped_finished : List Run → List RunFinished
  reaped_finished [] = []
  reaped_finished (row ∷ rows) =
      finished_event row (failed_with (reaped_error row)) ∷ reaped_finished rows

  -- `reapStaleRuns`; `in_flight` is `reapInFlight`, which is false again after every sweep.
  unfoldable pub sweep :
      (in_flight : Bool) → ℕ → ℕ → (ℕ → ℕ) → S → S × List RunEvent × List RunFinished
  sweep true now timeout clock s = (s, [], [])
  sweep false now timeout clock s =
      let (rows, t) = reap_stale_runs db now timeout clock others s in
      (t, reaped_events rows t, reaped_finished rows)
