-- ===== src/Evaluation/Run/Lifecycle.antt =====
-- The life of a run under every sequence of calls of evaluation/evaluation-run.service.ts.
use newbie_modules.Common.{
  ℕ, ◌≡◌, ◌⊎◌, sym, Bool, true, some, ◌==◌, arith, Bool-cases, Option-cases, inl, inr, ==_iff,
  str_eq,
}
use newbie_modules.Evaluation.Errors.{Text, Outcome-cases}
use newbie_modules.Evaluation.Run.State.{
  Run, RunDb, StartRunInput, Subject, is_active, is_queued, is_untouched, stale_run_error,
}
use newbie_modules.Evaluation.Run.Service.{
  Selector, as_running, as_succeeded, as_failed, as_touched, new_run, chosen_version, create_run,
  start_with, start_for, start_run, mark_running, confirm, mark_succeeded, mark_failed, touch,
  reap_row, require_published_version,
}
use newbie_modules.Evaluation.Run.Writes.{
  Evolves-refl, IsGuarded, running-IsGuarded, succeeded-IsGuarded, failed-IsGuarded,
  touched-IsGuarded, reaped-IsGuarded, Keeps, Keeps-refl, Keeps-trans, IsExclusive,
  update_many-Keeps, update_many-IsExclusive,
}

some_inj : {A : Type 0} {a b : A} → some a ≡ some b → a ≡ b
some_inj h = cc

module _ {S : Type 0} (db : RunDb S) where
  open db.runs use {find}

  -- One call, by any process, at any time. A sweep is one such call for each row it lists.
  pub data Step : S → S → Type 0 where
    started :
        (select_version : Selector) (now id : ℕ) (input : StartRunInput) (s : S)
        → Step s (start_run db select_version now id input s).1
    set_running : (now id : ℕ) (s : S) → Step s (mark_running db now id s)
    set_succeeded : (now id : ℕ) (s : S) → Step s (mark_succeeded db now id s).1
    set_failed : (text : Text) (now id : ℕ) (s : S) → Step s (mark_failed db text now id s).1
    touched : (now id : ℕ) (s : S) → Step s (touch db now id s)
    reaped : (now : ℕ) (candidate : Run) (s : S) → Step s (reap_row db now candidate s).1

  pub data Reach (s : S) : S → Type 0 where
    here : Reach s s
    next : {t u : S} → Reach s t → Step t u → Reach s u

  -- What both invariants need of a call.
  abbrev IsLawful : S → S → Type 0
  IsLawful s t = Keeps db s t × (IsExclusive db s → IsExclusive db t)

  update_many-IsLawful :
      (p : Run → Bool) (f : Run → Run)
      → IsGuarded p f
      → (id : ℕ) (s : S) → IsLawful s (db.runs.update_many id p f s).0
  update_many-IsLawful p f g id s =
      (update_many-Keeps db p f g id s, update_many-IsExclusive db p f g id s)

  create-Keeps : (r : Run) (s t : S) → db.create r s ≡ some t → Keeps db s t
  create-Keeps r s t made j q found = elim (Bool-cases (r.id == j)) [
    | inl same ↦
        let e : r.id ≡ j = (==_iff r.id j).0 same in cc (db.create_fresh r s t made, found, e)
    | inr other ↦ (q, rw (db.find-create r s t j made, other) found, Evolves-refl q)
  ]

  module _ (r : Run) (s t : S) (made : db.create r s ≡ some t) where
    found_after :
        (j : ℕ) (q : Run) → find j t ≡ some q → ((r.id ≡ j) × (r ≡ q)) ⊎ (find j s ≡ some q)
    found_after j q found = elim (Bool-cases (r.id == j)) [
      | inl same ↦
          inl ((==_iff r.id j).0 same, some_inj (rw (db.find-create r s t j made, same) at found))
      | inr other ↦ inr (rw (db.find-create r s t j made, other) at found)
    ]

    no_clash :
        (j : ℕ) (q : Run)
        → find j s ≡ some q
        → is_active q ≡ true
        → r.subject_id ≡ q.subject_id
        → r.rule_set_version_id ≡ q.rule_set_version_id
        → ⊥
    no_clash j q found active subject version =
        ground (arith, db.create_unique r q s t j made found)

    create-IsExclusive : IsExclusive db s → IsExclusive db t
    create-IsExclusive h i j p q there found live active subject version =
        elim (found_after i p there) [
          | inl (at_i, new_i) ↦ elim (found_after j q found) [
            | inl (at_j, new_j) ↦ cc
            | inr old_j ↦ absurd (no_clash j q old_j active (rw new_i subject) (rw new_i version))
          ]
          | inr old_i ↦ elim (found_after j q found) [
            | inl (at_j, new_j) ↦
                absurd (no_clash i p old_i live (rw new_j (sym subject)) (rw new_j (sym version)))
            | inr old_j ↦ h i j p q old_i old_j live active subject version
          ]
        ]

  create_run-IsLawful : (r : Run) (s : S) → IsLawful s (create_run db r s).1
  unfolding create_run
  create_run-IsLawful r s = elim (Option-cases (db.create r s)) [
    | inl refused ↦ rw (refused, create_run) (Keeps-refl db s, λ h. h)
    | inr (t, made) ↦ rw (made, create_run) (create-Keeps r s t made, create-IsExclusive r s t made)
  ]

  IsLawful-refl : (s : S) → IsLawful s s
  IsLawful-refl s = (Keeps-refl db s, λ h. h)

  start_with-IsLawful :
      (now id : ℕ) (input : StartRunInput) (subject : Subject) (version_id : ℕ) (s : S)
      → IsLawful s (start_with db now id input subject version_id s).1
  unfolding start_with
  start_with-IsLawful now id input subject version_id s =
      elim (Outcome-cases (require_published_version db version_id s)) [
        | inl (e, refused) ↦ rw (refused, start_with) (IsLawful-refl s)
        | inr (version, found) ↦ elim (Bool-cases (str_eq version.kind subject.kind)) [
          | inl same ↦
              rw (found, start_with, same) (create_run-IsLawful (new_run now id version_id input) s)
          | inr other ↦ rw (found, start_with, other) (IsLawful-refl s)
        ]
      ]

  start_for-IsLawful :
      (select_version : Selector) (now id : ℕ) (input : StartRunInput) (subject : Subject) (s : S)
      → IsLawful s (start_for db select_version now id input subject s).1
  unfolding start_for
  start_for-IsLawful select_version now id input subject s =
      elim (Outcome-cases (chosen_version db select_version input subject s)) [
        | inl (e, refused) ↦ rw (refused, start_for) (IsLawful-refl s)
        | inr (version_id, chosen) ↦
            rw (chosen, start_for) (start_with-IsLawful now id input subject version_id s)
      ]

  start_run-IsLawful :
      (select_version : Selector) (now id : ℕ) (input : StartRunInput) (s : S)
      → IsLawful s (start_run db select_version now id input s).1
  unfolding start_run
  start_run-IsLawful select_version now id input s =
      elim (Option-cases (db.find_subject input.subject_id s)) [
        | inl missing ↦ rw (missing, start_run) (IsLawful-refl s)
        | inr (subject, found) ↦
            rw (found, start_run) (start_for-IsLawful select_version now id input subject s)
      ]

  confirm-state : (id : ℕ) (r : S × ℕ) → (confirm db id r).1 ≡ r.0
  unfolding confirm
  confirm-state id r = ground arith

  Step-IsLawful : {s t : S} → Step s t → IsLawful s t
  unfolding mark_running mark_succeeded mark_failed touch reap_row
  Step-IsLawful (started select_version now id input s) =
      start_run-IsLawful select_version now id input s
  Step-IsLawful (set_running now id s) =
      update_many-IsLawful is_queued (as_running now) (running-IsGuarded now) id s
  Step-IsLawful (set_succeeded now id s) =
      rw confirm-state
        (update_many-IsLawful is_active (as_succeeded now) (succeeded-IsGuarded now) id s)
  Step-IsLawful (set_failed text now id s) =
      rw confirm-state
        (update_many-IsLawful is_active (as_failed text now) (failed-IsGuarded text now) id s)
  Step-IsLawful (touched now id s) =
      update_many-IsLawful is_active (as_touched now) (touched-IsGuarded now) id s
  Step-IsLawful (reaped now candidate s) =
      update_many-IsLawful (is_untouched candidate) (as_failed stale_run_error now)
        (reaped-IsGuarded stale_run_error now candidate) candidate.id s

  -- Whatever calls are made on the run table, in whatever order and by however many processes, a
  -- run is never lost, keeps its subject, its version and its creation time, and its status only
  -- moves on from queued over running to an end; a run that has ended never changes again in any
  -- column.
  pub Reach-Keeps : {s t : S} → Reach s t → Keeps db s t
  Reach-Keeps {s} here = Keeps-refl db s
  Reach-Keeps {s} (next {t} {u} r step) =
      Keeps-trans db s t u (Reach-Keeps r) (Step-IsLawful step).0

  -- At no time are there two active runs of one subject and one version.
  pub Reach-IsExclusive : {s t : S} → Reach s t → IsExclusive db s → IsExclusive db t
  Reach-IsExclusive here h = h
  Reach-IsExclusive (next r step) h = (Step-IsLawful step).1 (Reach-IsExclusive r h)
