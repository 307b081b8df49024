-- ===== src/Evaluation/Runner/Execution.antt =====
-- How an execution of evaluation/evaluation-runner.service.ts ends.
use newbie_modules.Common.{ℕ, ◌≡◌, ◌⊎◌, refl, Option, none, some, inl, inr}
use newbie_modules.Evaluation.Errors.{
  Text, HttpStatus, Reason, Exception, Outcome, ok, throw, Outcome-cases,
}
use newbie_modules.Evaluation.Run.State.{Run, RunDb, Subject, RuleSetVersion}
use newbie_modules.Evaluation.Run.Service.{as_succeeded}
use newbie_modules.Evaluation.Runner.State.{Identity, RunOutcome, Execution, Work, identify}
use newbie_modules.Evaluation.Runner.Service.{prepare, attempt, fail_run, conclude, execute}
use newbie_modules.Evaluation.Runner.Channels.{IsSucceeded, IsFailed, fail_run-IsFailed}
use newbie_modules.Evaluation.Runner.Stages.{settle_ok}

module _ {S : Type 0} (db : RunDb S) (work : Work S)
    (response_text : HttpStatus → Reason → Text) where
  open db.runs use {find}
  open work use {others}

  attempt_ok :
      (now : ℕ) (run : Run) (subject : Subject) (version : RuleSetVersion) (s t : S)
      (o : RunOutcome)
      → attempt db work response_text now run subject version s ≡ (ok o, t)
      → (q : Run) × (find run.id t ≡ some (as_succeeded now q))
  unfolding attempt
  attempt_ok now run subject version s t o h =
      elim (Outcome-cases (prepare db work response_text run subject version s)) [
        | inl (e, failed_early) ↦ absurd (cc (rw (failed_early, attempt) at h))
        | inr ((evidence, judgment, stats), ready) ↦
            settle_ok db work response_text now run evidence judgment stats s t o
              (rw (ready, attempt) at h)
      ]

  -- The two ways in which an execution ends.
  abbrev pub Ends : Run → Execution S → Type 0
  Ends run x =
      ((o : RunOutcome) × (x.outcome ≡ ok o) × IsSucceeded db work response_text run x)
      ⊎ ((e : Exception) × (x.outcome ≡ throw e) × IsFailed db work response_text run x)

  fail_run-Ends :
      (now : ℕ) (run : Run) (identity : Option Identity) (e : Exception) (s : S)
      → Ends run (fail_run db work response_text now run identity e s)
  fail_run-Ends now run identity e s =
      let (ended, thrown) = fail_run-IsFailed db work response_text now run identity e s in
      inr (e, thrown, ended)

  conclude-Ends :
      (now : ℕ) (run : Run) (identity : Identity) (r : Outcome RunOutcome × S)
      → ((o : RunOutcome) (t : S)
          → r ≡ (ok o, t)
          → (q : Run) × (find run.id t ≡ some (as_succeeded now q)))
      → Ends run (conclude db work response_text now run identity r)
  unfolding conclude
  conclude-Ends now run identity (throw e, s) h =
      fail_run-Ends now run (some identity) e (others 4 s)
  conclude-Ends now run identity (ok o, s) h =
      let (q, stored) = h o s refl in
      inl (
        o,
        refl,
        record {
          row = as_succeeded now q;
          stored = stored;
          status = refl;
          identity = identity;
          event = refl;
          observer = refl;
        },
      )

  -- Whatever the ports, the other services and the other processes do, an execution ends in one of
  -- two ways. It answers with an outcome, and then the row is stored as succeeded, one success
  -- event is emitted and the observer is told of the success. Or it throws, and then the observer
  -- is told of a failure, the event emitted, if any, is a failure with the same text, and that text
  -- is the error that the stored row carries, if it carries one.
  pub execute-Ends :
      (now : ℕ) (run : Run) (s : S) → Ends run (execute db work response_text now run s)
  unfolding execute
  execute-Ends now run s = elim (Outcome-cases (work.get_subject run.subject_id s)) [
    | inl (e, missing) ↦ rw (missing, execute) (fail_run-Ends now run none e (others 4 s))
    | inr (subject, found) ↦ elim (Outcome-cases (work.get_version run.rule_set_version_id s)) [
      | inl (e, missing) ↦ rw (found, execute, missing) (fail_run-Ends now run none e (others 4 s))
      | inr (version, known) ↦
          rw (found, execute, known)
            (conclude-Ends now run (identify run subject version)
              (attempt db work response_text now run subject version s)
              (λ o t. attempt_ok now run subject version s t o))
    ]
  ]
