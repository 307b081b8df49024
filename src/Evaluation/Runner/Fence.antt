-- ===== src/Evaluation/Runner/Fence.antt =====
-- That an execution whose run has ended writes nothing, in evaluation/evaluation-runner.service.ts.
use newbie_modules.Common.{
  ℕ, ◌≡◌, refl, ap, ◌∙◌, false, Option, none, some, ◌==◌, arith, Bool-cases, inl, inr, subst,
}
use newbie_modules.Common.Table.{written}
use newbie_modules.Evaluation.Contracts.{EvidenceCollection, Judgment, CoverageStats}
use newbie_modules.Evaluation.Errors.{
  Text, HttpStatus, Reason, Exception, http, conflict, Outcome, throw, Outcome-cases,
}
use newbie_modules.Evaluation.Run.State.{
  Run, RunDb, Subject, RuleSetVersion, is_active, format_run_error,
}
use newbie_modules.Evaluation.Run.Service.{as_failed, confirm, mark_failed, assert_active}
use newbie_modules.Evaluation.Runner.State.{Identity, RunOutcome, Execution, Work, chain, identify}
use newbie_modules.Evaluation.Runner.Service.{
  guarded, record_all, settle, prepare, attempt, persist_failure, fail_run, conclude, execute,
}
use newbie_modules.Evaluation.Errors.{run_inactive}
use newbie_modules.Common.{==_iff}

unwritten :
    (f : Run → Run) (o : Option Run) (q : Run)
    → o ≡ some q
    → is_active q ≡ false
    → written is_active f o ≡ o
unwritten f none q h done = refl
unwritten f (some r) q h done = let e : r ≡ q = cc h in rw (ap is_active e ∙ done)

module _ {S : Type 0} (db : RunDb S) where
  open db.runs use {find, find-update_many}

  confirm-state : (id : ℕ) (r : S × ℕ) → (confirm db id r).1 ≡ r.0
  unfolding confirm
  confirm-state id r = ground arith

  -- A failure of a run that has ended changes no row.
  pub mark_failed_dead :
      (text : Text) (now id : ℕ) (s : S) (q : Run) (j : ℕ)
      → find id s ≡ some q
      → is_active q ≡ false
      → find j (mark_failed db text now id s).1 ≡ find j s
  unfolding mark_failed
  mark_failed_dead text now id s q j found done =
      ap (find j) (confirm-state id (db.runs.update_many id is_active (as_failed text now) s))
      ∙ (find-update_many id j is_active (as_failed text now) s (λ r. refl)
          ∙ elim (Bool-cases (id == j)) [
            | inl same ↦
                let e : id ≡ j = (==_iff id j).0 same in
                rw same (
                  unwritten (as_failed text now) (find j s) q
                    (subst (λ k. find k s ≡ some q) e found) done)
            | inr other ↦ rw other
          ])

  module _ (work : Work S) (response_text : HttpStatus → Reason → Text)
      (quiet : (i : ℕ) (t : S) → work.others i t ≡ t) where
    open work use {others}

    pub persist_failure-state :
        (now id : ℕ) (e : Exception) (s : S)
        → (persist_failure db work response_text now id e s).1
          ≡ (mark_failed db (format_run_error response_text e) now id s).1
    unfolding persist_failure
    persist_failure-state now id e s =
        let m = mark_failed db (format_run_error response_text e) now id s in
        elim (Outcome-cases m.0) [
          | inl (refused, thrown) ↦ rw (thrown, persist_failure) refl
          | inr (u, marked) ↦ rw (marked, persist_failure) refl
        ]

    module _ (now : ℕ) (run : Run) (s : S) (q : Run) (found : find run.id s ≡ some q)
        (done : is_active q ≡ false) where
      refused :
          assert_active db run.id run.started_at s ≡ throw (http conflict (run_inactive run.id))
      unfolding assert_active
      refused = rw (found, assert_active, done)

      guarded_dead :
          {A : Type 0} (write : S → Outcome A × S)
          → guarded db work response_text 0 run write s
            ≡ (throw (http conflict (run_inactive run.id)), s)
      guarded_dead write =
          rw (ap (assert_active db run.id run.started_at) (quiet 0 s) ∙ refused, guarded)
            (ap (λ u. (throw (http conflict (run_inactive run.id)), u)) (quiet 0 s))

      settle_dead :
          (evidence : EvidenceCollection) (judgment : Judgment) (stats : CoverageStats)
          → settle db work response_text now run evidence judgment stats s
            ≡ (throw (http conflict (run_inactive run.id)), s)
      unfolding settle
      settle_dead evidence judgment stats =
          ap
            (λ x. chain x (λ result_id t.
              record_all db work response_text now run evidence judgment result_id t))
            (guarded_dead
              (work.create_result run.id evidence.items stats judgment.verdicts judgment.summary))

      pub attempt_dead :
          (subject : Subject) (version : RuleSetVersion)
          → (e : Exception) × (attempt db work response_text now run subject version s
              ≡ (throw e, s))
      unfolding attempt
      attempt_dead subject version =
          elim (Outcome-cases (prepare db work response_text run subject version s)) [
            | inl (e, early) ↦ (e, rw (early, attempt) refl)
            | inr ((evidence, judgment, stats), ready) ↦ (
              http conflict (run_inactive run.id),
              rw (ready, attempt) (settle_dead evidence judgment stats),
            )
          ]

      -- What an execution that writes nothing ends with.
      abbrev pub IsFenced : Execution S → Type 0
      IsFenced x =
          (e : Exception) × (x.outcome ≡ throw e)
          × (x.state ≡ (mark_failed db (format_run_error response_text e) now run.id s).1)
          × ((j : ℕ) → find j x.state ≡ find j s)

      fail_run-IsFenced :
          (identity : Option Identity) (e : Exception)
          → IsFenced (fail_run db work response_text now run identity e (others 4 s))
      unfolding fail_run
      fail_run-IsFenced identity e =
          let text = format_run_error response_text e in
          let only =
            persist_failure-state now run.id e (others 4 s)
            ∙ ap (λ u. (mark_failed db text now run.id u).1) (quiet 4 s) in
          (e, refl, only, λ j. ap (find j) only ∙ mark_failed_dead text now run.id s q j found done)

      conclude-IsFenced :
          (identity : Identity) (e : Exception) (r : Outcome RunOutcome × S)
          → r ≡ (throw e, s)
          → IsFenced (conclude db work response_text now run identity r)
      unfolding conclude
      conclude-IsFenced identity e r h = rw h (fail_run-IsFenced (some identity) e)

      -- The fence: with no other process at work, an execution whose run has ended, as one that the
      -- sweep has closed, throws. The only write it comes to is the one that marks its failure, so
      -- no result and no finding is written, and that write changes no run.
      pub execute-IsFenced : IsFenced (execute db work response_text now run s)
      unfolding execute
      execute-IsFenced = elim (Outcome-cases (work.get_subject run.subject_id s)) [
        | inl (e, missing) ↦ rw (missing, execute) (fail_run-IsFenced none e)
        | inr (subject, known) ↦ elim (Outcome-cases (work.get_version run.rule_set_version_id s)) [
          | inl (e, missing) ↦ rw (known, execute, missing) (fail_run-IsFenced none e)
          | inr (version, there) ↦
              let (e, thrown) = attempt_dead subject version in
              rw (known, execute, there)
                (conclude-IsFenced (identify run subject version) e _ thrown)
        ]
      ]
