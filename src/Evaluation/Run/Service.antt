-- ===== src/Evaluation/Run/Service.antt =====
-- `EvaluationRunService` of evaluation/evaluation-run.service.ts. A method takes the time it reads
-- and the state of the database, and returns its outcome and the new state. The client sets
-- `updatedAt` (declared `@updatedAt`) on every write, so each write below states it.
use newbie_modules.Common.{
  ℕ, suc, ◌-◌, String, not, ◌&&◌, Option, none, some, List, [], ◌∷◌, ◌==◌, ltb, if◌then◌else◌,
  str_eq,
}
use newbie_modules.Evaluation.Errors.{
  Text, not_found, conflict, bad_request, http, Outcome, ok, throw, subject_missing, run_missing,
  run_already_active, run_not_markable, run_inactive, run_restarted, run_of_other_kind,
  version_missing, version_draft, version_of_other_kind, version_not_applicable,
  version_not_published,
}
use newbie_modules.Evaluation.Run.State.{
  Run, queued, running, succeeded, failed, Subject, RuleSetVersion, StartRunInput, RunDb, is_active,
  is_queued, is_untouched, eq_option, stale_run_error,
}

-- The `data` of each write.
abbrev pub as_running : ℕ → Run → Run
as_running now r = record r { status = running; started_at = some now; updated_at = now }

abbrev pub as_succeeded : ℕ → Run → Run
as_succeeded now r = record r { status = succeeded; finished_at = some now; updated_at = now }

abbrev pub as_failed : Text → ℕ → Run → Run
as_failed text now r = record r {
  status = failed;
  error = some text;
  finished_at = some now;
  updated_at = now;
}

abbrev pub as_touched : ℕ → Run → Run
as_touched now r = record r { updated_at = now }

abbrev pub new_run : ℕ → ℕ → ℕ → StartRunInput → Run
new_run now id version_id input = record {
  id = id;
  subject_id = input.subject_id;
  rule_set_version_id = version_id;
  requested_by_ref = input.requested_by_ref;
  status = queued;
  error = none;
  started_at = none;
  finished_at = none;
  created_at = now;
  updated_at = now;
}

-- What the feature's criteria provider answers for a subject: nothing, or a key and a version.
abbrev pub Selector : Type 0
Selector = Subject → Option (String × String)

module _ {S : Type 0} (db : RunDb S) where
  open db.runs use {find, find_many, update_many}

  unfoldable pub resolve_version_id : Selector → Subject → S → Outcome ℕ
  resolve_version_id select_version subject s = elim (select_version subject) [
    | none ↦ throw (http conflict (version_not_applicable subject.id))
    | some (key, version) ↦ elim (db.find_published subject.kind key version s) [
      | none ↦ throw (http not_found (version_not_published key version))
      | some v ↦ ok v.id
    ]
  ]

  unfoldable pub require_published_version : ℕ → S → Outcome RuleSetVersion
  require_published_version id s = elim (db.find_version id s) [
    | none ↦ throw (http not_found (version_missing id))
    | some v ↦ elim v.published_at [
      | none ↦ throw (http conflict (version_draft id))
      | some at ↦ ok v
    ]
  ]

  -- `prisma.evaluationRun.create` and its `catch`.
  unfoldable pub create_run : Run → S → Outcome Run × S
  create_run r s = elim (db.create r s) [
    | none ↦ (throw (http conflict (run_already_active r.subject_id r.rule_set_version_id)), s)
    | some t ↦ (ok r, t)
  ]

  unfoldable pub start_with : ℕ → ℕ → StartRunInput → Subject → ℕ → S → Outcome Run × S
  start_with now id input subject version_id s = elim (require_published_version version_id s) [
    | throw e ↦ (throw e, s)
    | ok version ↦
        if str_eq version.kind subject.kind
        then create_run (new_run now id version_id input) s
        else (throw (http bad_request (version_of_other_kind version_id subject.kind)), s)
  ]

  unfoldable pub chosen_version : Selector → StartRunInput → Subject → S → Outcome ℕ
  chosen_version select_version input subject s = elim input.rule_set_version_id [
    | some version_id ↦ ok version_id
    | none ↦ resolve_version_id select_version subject s
  ]

  unfoldable pub start_for : Selector → ℕ → ℕ → StartRunInput → Subject → S → Outcome Run × S
  start_for select_version now id input subject s =
      elim (chosen_version select_version input subject s) [
        | throw e ↦ (throw e, s)
        | ok version_id ↦ start_with now id input subject version_id s
      ]

  -- `id` is the UUID that the database gives to the new row.
  unfoldable pub start_run : Selector → ℕ → ℕ → StartRunInput → S → Outcome Run × S
  start_run select_version now id input s = elim (db.find_subject input.subject_id s) [
    | none ↦ (throw (http not_found (subject_missing input.subject_id)), s)
    | some subject ↦ start_for select_version now id input subject s
  ]

  unfoldable pub mark_running : ℕ → ℕ → S → S
  mark_running now id s = (update_many id is_queued (as_running now) s).0

  -- It always throws.
  unfoldable pub assert_still_active : ℕ → S → Outcome (Unit {0})
  assert_still_active id s = elim (find id s) [
    | none ↦ throw (http not_found (run_missing id))
    | some r ↦ throw (http conflict (run_not_markable id))
  ]

  -- `if (updated.count === 0) await this.assertStillActive(…)`
  unfoldable pub confirm : ℕ → S × ℕ → Outcome (Unit {0}) × S
  confirm id (t, count) = if count == 0 then (assert_still_active id t, t) else (ok tt, t)

  unfoldable pub mark_succeeded : ℕ → ℕ → S → Outcome (Unit {0}) × S
  mark_succeeded now id s = confirm id (update_many id is_active (as_succeeded now) s)

  -- `text` is `formatRunError(error)`.
  unfoldable pub mark_failed : Text → ℕ → ℕ → S → Outcome (Unit {0}) × S
  mark_failed text now id s = confirm id (update_many id is_active (as_failed text now) s)

  unfoldable pub touch : ℕ → ℕ → S → S
  touch now id s = (update_many id is_active (as_touched now) s).0

  unfoldable pub assert_active : ℕ → Option ℕ → S → Outcome (Unit {0})
  assert_active id started_at s = elim (find id s) [
    | none ↦ throw (http not_found (run_missing id))
    | some r ↦
        if not (is_active r)
        then throw (http conflict (run_inactive id))
        else if not (eq_option r.started_at started_at)
        then throw (http conflict (run_restarted id))
        else ok tt
  ]

  -- `kind_of` reads the kind of the row's subject, which the query includes; an empty `kind` is
  -- falsy.
  unfoldable pub find_by_id : (Run → String) → ℕ → Option String → S → Outcome Run
  find_by_id kind_of id kind s = elim (find id s) [
    | none ↦ throw (http not_found (run_missing id))
    | some r ↦ elim kind [
      | none ↦ ok r
      | some k ↦
          if not (str_eq k "") && not (str_eq (kind_of r) k)
          then throw (http not_found (run_of_other_kind id k))
          else ok r
    ]
  ]

  -- One round of the sweep: the conditional write, and the row as it is reported.
  unfoldable pub reap_row : ℕ → Run → S → Option Run × S
  reap_row now candidate s =
      let (t, count) =
        update_many candidate.id (is_untouched candidate) (as_failed stale_run_error now) s in
      (
        if count == 1
            then some (record candidate {
              status = failed;
              error = some stale_run_error;
              finished_at = some now;
            })
            else none,
        t,
      )

  abbrev pub add_reaped : Option Run → List Run → List Run
  add_reaped none rs = rs
  add_reaped (some r) rs = r ∷ rs

  -- The loop of the sweep. Before the round `i` other processes have changed the database by
  -- `others i`, and the clock reads `clock i`.
  unfoldable pub reap_loop : (ℕ → ℕ) → (ℕ → S → S) → ℕ → List Run → S → List Run × S
  reap_loop clock others i [] s = ([], s)
  reap_loop clock others i (candidate ∷ candidates) s =
      let (reaped, t) = reap_row (clock i) candidate (others i s) in
      let (rest, u) = reap_loop clock others (suc i) candidates t in (add_reaped reaped rest, u)

  -- The listing, with the cutoff `now - timeout`.
  unfoldable pub stale_rows : ℕ → ℕ → S → List Run
  stale_rows now timeout s = find_many (λ r. is_active r && ltb r.updated_at (now - timeout)) s

  unfoldable pub reap_stale_runs : ℕ → ℕ → (ℕ → ℕ) → (ℕ → S → S) → S → List Run × S
  reap_stale_runs now timeout clock others s = reap_loop clock others 0 (stale_rows now timeout s) s
