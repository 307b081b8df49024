-- ===== src/Evaluation/Run/Tests.antt =====
-- Runs of evaluation/evaluation-run.service.ts on a table of rows, at concrete inputs.
use newbie_modules.Common.{ℕ, ◌-◌, ◌≤◌, ◌≡◌, refl, none, some, [], ◌∷◌, arith}
use newbie_modules.Evaluation.Run.State.{Run, running, StartRunInput, failed, stale_run_error}
use newbie_modules.Evaluation.Errors.{ok, throw, http, conflict, run_inactive, run_not_markable}
use newbie_modules.Evaluation.Run.Service.{
  Selector, new_run, chosen_version, start_run, start_for, start_with, create_run,
  require_published_version, resolve_version_id, mark_running, mark_succeeded, touch, reap_row,
  reap_loop, reap_stale_runs, stale_rows, assert_active,
}
use newbie_modules.Evaluation.Run.Writes.{Keeps, IsExclusive}
use newbie_modules.Evaluation.Run.Lifecycle.{
  Reach, here, next, started, set_running, Reach-Keeps, Reach-IsExclusive,
}
use newbie_modules.Evaluation.Run.Reaper.{reap_row-touch, reap_row_once}
use newbie_modules.Evaluation.Run.Sweep.{undisturbed, reap_stale_runs_complete}
use newbie_modules.Evaluation.Run.Admission.{IsAdmitted, start_run_ok}
use newbie_modules.Evaluation.Run.Sample.{acme, table}

-- The provider knows version 1 of the rules.
abbrev by_provider : Selector
by_provider subject = some ("k", "1")

abbrev asked : StartRunInput
asked = record { subject_id = 7; rule_set_version_id = none; requested_by_ref = none }

abbrev first_run : Run
first_run = new_run 100 1 3 asked

abbrev running_run : Run
running_run = record first_run { status = running; started_at = some 110; updated_at = 110 }

start_run_first : start_run table by_provider 100 1 asked [] ≡ (ok first_run, first_run ∷ [])
unfolding start_run start_for chosen_version resolve_version_id start_with require_published_version
    create_run
start_run_first = refl

chosen_empty : chosen_version table by_provider asked acme [] ≡ ok 3
unfolding chosen_version resolve_version_id
chosen_empty = refl

chosen_first : chosen_version table by_provider asked acme (running_run ∷ []) ≡ ok 3
unfolding chosen_version resolve_version_id
chosen_first = refl

mark_running_first : mark_running table 110 1 (first_run ∷ []) ≡ running_run ∷ []
unfolding mark_running
mark_running_first = refl

reap_row_first :
    (reap_row table 500 running_run (running_run ∷ [])).0
    ≡ some (record running_run {
      status = failed;
      error = some stale_run_error;
      finished_at = some 500;
    })
unfolding reap_row
reap_row_first = refl

-- The run is opened and started.
abbrev opened : Reach table [] (start_run table by_provider 100 1 asked []).1
opened = next here (started by_provider 100 1 asked [])

abbrev started_twice :
    Reach table []
      (start_run table by_provider 120 2 asked
        (mark_running table 110 1 (start_run table by_provider 100 1 asked []).1)).1
started_twice = next (next opened (set_running 110 1 _)) (started by_provider 120 2 asked _)

Reach-Keeps_example : Keeps table [] (start_run table by_provider 100 1 asked []).1
Reach-Keeps_example = Reach-Keeps table opened

Reach-IsExclusive_example :
    IsExclusive table
      (start_run table by_provider 120 2 asked
        (mark_running table 110 1 (start_run table by_provider 100 1 asked []).1)).1
Reach-IsExclusive_example = Reach-IsExclusive table started_twice (λ i j r q found. cc)

start_run_ok_example : IsAdmitted table 100 1 asked [] (first_run ∷ []) first_run
start_run_ok_example =
    start_run_ok table by_provider 100 1 asked [] (first_run ∷ []) first_run start_run_first

-- What the sweep reports of the run that was last touched at 110.
abbrev reported : Run
reported = record running_run {
  status = failed;
  error = some stale_run_error;
  finished_at = some 500;
}

reap_row-touch_example :
    let t = touch table 400 1 (running_run ∷ []) in
    ((reap_row table 500 running_run t).0 ≡ none)
    × ((j : ℕ) → table.runs.find j (reap_row table 500 running_run t).1 ≡ table.runs.find j t)
reap_row-touch_example =
    reap_row-touch table 400 500 running_run (running_run ∷ []) (λ e. omega (arith, e))

reap_row_once_example :
    let t = (reap_row table 500 running_run (running_run ∷ [])).1 in
    ((reap_row table 600 running_run t).0 ≡ none)
    × (assert_active table 1 (some 110) t ≡ throw (http conflict (run_inactive 1)))
    × ((mark_succeeded table 600 1 t).0 ≡ throw (http conflict (run_not_markable 1)))
reap_row_once_example =
    reap_row_once table 500 600 running_run reported running_run (some 110) (running_run ∷ [])
      reap_row_first here refl

-- At 2000 and with a timeout of 1000 the run touched at 1500 stays.
abbrev fresh_run : Run
fresh_run = record running_run { id = 2; updated_at = 1500; rule_set_version_id = 4 }

swept_fresh :
    table.runs.find 2
      (reap_stale_runs table 2000 1000
        (λ i. 2000)
        (undisturbed table)
        (running_run ∷ fresh_run ∷ [])).1
    ≡ some fresh_run
unfolding reap_stale_runs stale_rows reap_loop reap_row
swept_fresh = refl

reap_stale_runs_complete_example :
    (table.runs.find 2 (running_run ∷ fresh_run ∷ []) ≡ some fresh_run) × (2000 - 1000 ≤ 1500)
reap_stale_runs_complete_example =
    reap_stale_runs_complete table 2000 1000 (λ i. 2000) (running_run ∷ fresh_run ∷ []) 2 fresh_run
      swept_fresh refl
