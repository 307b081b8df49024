-- ===== src/Evaluation/Runner/Again.antt =====
-- A run that is reported by the sweep and by its own execution, in
-- evaluation/evaluation-runner.service.ts.
use newbie_modules.Common.{ℕ, ◌≡◌, refl, ap, ◌∙◌, false, some, [], ◌∷◌, subst}
use newbie_modules.Evaluation.Errors.{Text, HttpStatus, Reason, Exception, Outcome, ok, throw}
use newbie_modules.Evaluation.Run.State.{
  Run, RunDb, Subject, RuleSetVersion, is_active, format_run_error,
}
use newbie_modules.Evaluation.Run.Service.{as_failed, mark_failed}
use newbie_modules.Evaluation.Runner.State.{failed_with, Identity, RunOutcome, Work, identify}
use newbie_modules.Evaluation.Runner.Service.{fail_run, conclude, execute}
use newbie_modules.Evaluation.Run.State.{stale_run_error}
use newbie_modules.Evaluation.Run.Service.{reap_row}
use newbie_modules.Evaluation.Run.Reaper.{reap_row_reported}
use newbie_modules.Evaluation.Runner.Channels.{persist_failure-stored}
use newbie_modules.Evaluation.Runner.Fence.{attempt_dead, persist_failure-state, mark_failed_dead}

module _ {S : Type 0} (db : RunDb S) (work : Work S) (response_text : HttpStatus → Reason → Text)
    (quiet : (i : ℕ) (t : S) → work.others i t ≡ t) where
  open db.runs use {find}
  open work use {others}

  failed_again :
      (now : ℕ) (run : Run) (identity : Identity) (e : Exception) (r : Outcome RunOutcome × S)
      (s : S) (q : Run) (stored : Text)
      → r ≡ (throw e, s)
      → find run.id s ≡ some q
      → is_active q ≡ false
      → q.error ≡ some stored
      → (conclude db work response_text now run identity r).events
        ≡ record { identity = identity; terminal = failed_with stored } ∷ []
  unfolding conclude fail_run
  failed_again now run identity e r s q stored h found done err =
      let text = format_run_error response_text e in
      let kept =
        ap (find run.id) (
          persist_failure-state db work response_text quiet now run.id e (others 4 s)
          ∙ ap (λ u. (mark_failed db text now run.id u).1) (quiet 4 s))
        ∙ (mark_failed_dead db text now run.id s q run.id found done ∙ found) in
      rw h (
        ap (λ t. record { identity = identity; terminal = failed_with t } ∷ [])
          (persist_failure-stored db work response_text now run.id e (others 4 s) q stored kept
            err))

  -- A run that a sweep has closed and reported is reported a second time by its own execution, if
  -- that is still alive: with no other process at work and the subject and the version readable, it
  -- emits a failure event of its own, with the sweep's text.
  pub execute-reported_again :
      (now at : ℕ) (c r run : Run) (s : S) (subject : Subject) (version : RuleSetVersion)
      → (reap_row db now c s).0 ≡ some r
      → c.id ≡ run.id
      → let t = (reap_row db now c s).1 in
        work.get_subject run.subject_id t ≡ ok subject
        → work.get_version run.rule_set_version_id t ≡ ok version
        → (execute db work response_text at run t).events
          ≡ record {
            identity = identify run subject version;
            terminal = failed_with stale_run_error;
          }
            ∷ []
  unfolding execute
  execute-reported_again now at c r run s subject version h same known there =
      let t = (reap_row db now c s).1 in
      let (p, before, live, time, closed, id, status, text, finish) =
        reap_row_reported db now c r s h in
      let q = as_failed stale_run_error now p in
      let found = subst (λ k. find k t ≡ some q) same closed in
      let (e, thrown) =
        attempt_dead db work response_text quiet at run t q found refl subject version in
      rw (known, execute, there)
        (failed_again at run (identify run subject version) e _ t q stale_run_error thrown found
          refl refl)
