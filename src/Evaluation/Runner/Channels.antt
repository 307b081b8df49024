-- ===== src/Evaluation/Runner/Channels.antt =====
-- That the event, the observer and the stored row of evaluation/evaluation-runner.service.ts agree.
use newbie_modules.Common.{
  ℕ, ◌≡◌, refl, sym, ap, ◌∙◌, Bool, true, false, Option, none, some, [], ◌∷◌, ◌==◌, arith,
  Bool-cases, Option-cases, inl, inr, ==_refl, subst,
}
use newbie_modules.Common.Table.{written, matched}
use newbie_modules.Evaluation.Errors.{
  Text, HttpStatus, Reason, Exception, http, not_found, conflict, run_missing, run_not_markable, ok,
  throw, Outcome-cases,
}
use newbie_modules.Evaluation.Run.State.{Run, RunDb, succeeded, is_active, format_run_error}
use newbie_modules.Evaluation.Run.Service.{
  as_succeeded, as_failed, confirm, assert_still_active, mark_succeeded, mark_failed, find_by_id,
}
use newbie_modules.Evaluation.Runner.State.{succeeded_with, failed_with, Identity, Execution, Work}
use newbie_modules.Evaluation.Runner.Service.{
  row_error, persist_failure, publish, finished_event, fail_run,
}

same_error :
    (text stored : Text) (now : ℕ) (p q : Run)
    → some (as_failed text now p) ≡ some q
    → q.error ≡ some stored
    → text ≡ stored
same_error text stored now p q h err =
    let e : as_failed text now p ≡ q = cc h in
    let f : some text ≡ q.error = ap (λ r. r.error) e in cc (f, err)

module _ {S : Type 0} (db : RunDb S) where
  open db.runs use {find, find-update_many, count-update_many}

  matched-zero :
      (p : Run → Bool) (o : Option Run) (n : ℕ)
      → n ≡ matched p o
      → (n == 0) ≡ false
      → (q : Run) × (o ≡ some q) × (p q ≡ true)
  matched-zero p none n e h = absurd (ground (arith, e))
  matched-zero p (some q) n e h = (q, refl, ground (arith, e))

  always_throws : (id : ℕ) (s : S) → (e : Exception) × (assert_still_active db id s ≡ throw e)
  unfolding assert_still_active
  always_throws id s = elim (Option-cases (find id s)) [
    | inl missing ↦ (http not_found (run_missing id), rw (missing, assert_still_active) refl)
    | inr (q, found) ↦ (http conflict (run_not_markable id), rw (found, assert_still_active) refl)
  ]

  -- A transition that is confirmed has written its row.
  confirm_ok :
      (f : Run → Run) (id : ℕ) (s t : S) (u : Unit {0})
      → ((r : Run) → (f r).id ≡ r.id)
      → confirm db id (db.runs.update_many id is_active f s) ≡ (ok u, t)
      → (q : Run) × (find id t ≡ some (f q))
  unfolding confirm
  confirm_ok f id s t u same h =
      let w = db.runs.update_many id is_active f s in
      elim (Bool-cases (w.1 == 0)) [
        | inl none_written ↦
            let (e, thrown) = always_throws id w.0 in absurd (cc (rw (none_written, thrown) at h))
        | inr done ↦
            let (q, found, live) =
              matched-zero is_active (find id s) w.1 (count-update_many id is_active f s) done in
            let state : w.0 ≡ t = cc (rw done at h) in
            (
              q,
              subst (λ v. find id v ≡ some (f q)) state
                  (find-update_many id id is_active f s same
                    ∙ (rw (==_refl id) (ap (written is_active f) found ∙ rw live refl))),
            )
      ]

  pub mark_succeeded_ok :
      (now id : ℕ) (s t : S) (u : Unit {0})
      → mark_succeeded db now id s ≡ (ok u, t)
      → (q : Run) × (find id t ≡ some (as_succeeded now q))
  unfolding mark_succeeded
  mark_succeeded_ok now id s t u h = confirm_ok (as_succeeded now) id s t u (λ r. refl) h

  mark_failed_ok :
      (text : Text) (now id : ℕ) (s t : S) (u : Unit {0})
      → mark_failed db text now id s ≡ (ok u, t)
      → (q : Run) × (find id t ≡ some (as_failed text now q))
  unfolding mark_failed
  mark_failed_ok text now id s t u h = confirm_ok (as_failed text now) id s t u (λ r. refl) h

  module _ (work : Work S) (response_text : HttpStatus → Reason → Text) where
    open work use {others}

    find_here :
        (id : ℕ) (t : S) (q : Run) → find id t ≡ some q → find_by_id db (λ r. "") id none t ≡ ok q
    unfolding find_by_id
    find_here id t q found = rw (found, find_by_id)

    -- The text of a failed run is the one that the row stores.
    pub persist_failure-stored :
        (now id : ℕ) (e : Exception) (s : S) (q : Run) (stored : Text)
        → let r = persist_failure db work response_text now id e s in
          find id r.1 ≡ some q → q.error ≡ some stored → r.0 ≡ stored
    unfolding persist_failure
    persist_failure-stored now id e s q stored =
        let text = format_run_error response_text e in
        let m = mark_failed db text now id s in
        elim (Outcome-cases m.0) [
          | inl (refused, thrown) ↦
              rw (thrown, persist_failure)
                (λ found err.
                  ap (λ o. row_error db work response_text o text) (find_here id m.1 q found)
                  ∙ (rw err refl))
          | inr (u, marked) ↦
              rw (marked, persist_failure)
                (λ found err.
                  let (p, there) = mark_failed_ok text now id s m.1 u (ap (λ o. (o, m.1)) marked) in
                  same_error text stored now p q (sym there ∙ found) err)
        ]

    -- What a successful execution ends with: the row is stored as succeeded, and the one event and
    -- the one call of the observer say so.
    pub record IsSucceeded (run : Run) (x : Execution S) : Type 0 where
      pub row : Run
      pub stored : find run.id x.state ≡ some row
      pub status : row.status ≡ succeeded
      pub identity : Identity
      pub event : x.events ≡ record { identity = identity; terminal = succeeded_with } ∷ []
      pub observer : x.finished ≡ finished_event db work response_text run succeeded_with ∷ []

    -- What a failed one ends with: one call of the observer and at most one event, all with one
    -- text, which is the error of the stored row if it has one.
    pub record IsFailed (run : Run) (x : Execution S) : Type 0 where
      pub text : Text
      pub observer : x.finished ≡ finished_event db work response_text run (failed_with text) ∷ []
      pub identity : Option Identity
      pub event : x.events ≡ publish db work response_text identity (failed_with text)
      pub agrees :
          (q : Run) (stored : Text)
          → find run.id x.state ≡ some q
          → q.error ≡ some stored
          → text ≡ stored

    pub fail_run-IsFailed :
        (now : ℕ) (run : Run) (identity : Option Identity) (e : Exception) (s : S)
        → let x = fail_run db work response_text now run identity e s in
          IsFailed run x × (x.outcome ≡ throw e)
    unfolding fail_run
    fail_run-IsFailed now run identity e s = (
      record {
        text = (persist_failure db work response_text now run.id e s).0;
        observer = refl;
        identity = _;
        event = refl;
        agrees = λ q stored. persist_failure-stored now run.id e s q stored;
      },
      refl,
    )
