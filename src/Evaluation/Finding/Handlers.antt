-- ===== src/Evaluation/Finding/Handlers.antt =====
-- The methods of evaluation/evaluation-finding.service.ts that a run calls, as sequences of the
-- writes of runs.
use newbie_modules.Common.{
  ℕ, suc, ◌≡◌, ◌⊎◌, refl, Option, String, List, [], ◌∷◌, ◌==◌, Bool-cases, Option-cases, inl, inr,
}
use newbie_modules.Common.Evolution.{Keeps}
use newbie_modules.Evaluation.Contracts.{FindingCandidate}
use newbie_modules.Evaluation.Errors.{Outcome-cases}
use newbie_modules.Evaluation.Judgment.Validate.{validate_judgment}
use newbie_modules.Evaluation.Run.State.{Run}
use newbie_modules.Evaluation.Finding.State.{Finding, FindingDb, observed_at}
use newbie_modules.Evaluation.Finding.Data.{new_finding, is_resolved, is_absent}
use newbie_modules.Evaluation.Finding.Service.{
  write_observation, update_finding, create_finding, observe, observe_loop, record_findings,
  resolve_loop, resolve_listed, resolve_absent_findings,
}
use newbie_modules.Evaluation.Finding.Writes.{KeepsSuppression}
use newbie_modules.Evaluation.Finding.Lifecycle.{
  created, observed, refreshed, closed, Runs, none_yet, then_run, Runs-KeepsSuppression,
  announce-state,
}

module _ {S : Type 0} (db : FindingDb S) where
  Runs-trans : {s t u : S} → Runs db s t → Runs db t u → Runs db s u
  Runs-trans r none_yet = r
  Runs-trans r (then_run q step) = then_run (Runs-trans r q) step

  List-cases : {A : Type 0} (xs : List A) → (xs ≡ []) ⊎ ((x : A) × (ys : List A) × (xs ≡ x ∷ ys))
  List-cases [] = inl refl
  List-cases (x ∷ xs) = inr (x, xs, refl)

  -- What other runs do between a read and a write of this one.
  module _ (others : S → S) (quiet : (s : S) → Runs db s (others s)) where
    update_finding-Runs :
        (run : Run) (existing : Finding) (c : FindingCandidate) (at : ℕ) (s : S)
        → Runs db s (update_finding db others run existing c at s).state
    unfolding update_finding
    update_finding-Runs run existing c at s =
        let w = write_observation db run existing c at s in
        let first : Runs db s w.0 = then_run none_yet (observed run existing c at s) in
        elim (Bool-cases (w.1 == 0)) [
          | inl lost ↦ rw lost (
              then_run (Runs-trans first (quiet w.0)) (refreshed run existing.id c at (others w.0)))
          | inr done ↦ elim (Bool-cases (is_resolved existing)) [
            | inl back ↦ rw (done, back, announce-state) first
            | inr same ↦ rw (done, same) first
          ]
        ]

    create_finding-Runs :
        (id : ℕ) (run : Run) (evaluation_key : String) (c : FindingCandidate) (at : ℕ) (s : S)
        → Runs db s (create_finding db others id run evaluation_key c at s).state
    unfolding create_finding
    create_finding-Runs id run evaluation_key c at s =
        elim (Option-cases (db.create (new_finding run evaluation_key c at id) s)) [
          | inr (t, made) ↦
              rw (made, create_finding)
                (then_run none_yet (created run evaluation_key c at id s t made))
          | inl refused ↦
              elim (Option-cases (db.find_by_key run.subject_id evaluation_key c.fingerprint s)) [
                | inl gone ↦ rw (refused, create_finding, gone) none_yet
                | inr (existing, found) ↦
                    rw (refused, create_finding, found)
                      (Runs-trans (quiet s) (update_finding-Runs run existing c at (others s)))
              ]
        ]

    observe-Runs :
        (id : ℕ) (run : Run) (evaluation_key : String) (c : FindingCandidate) (at : ℕ) (s : S)
        → Runs db s (observe db others id run evaluation_key c at s).state
    unfolding observe
    observe-Runs id run evaluation_key c at s =
        elim (Option-cases (db.find_by_key run.subject_id evaluation_key c.fingerprint s)) [
          | inl missing ↦
              rw (missing, observe)
                (Runs-trans (quiet s) (create_finding-Runs id run evaluation_key c at (others s)))
          | inr (existing, found) ↦
              rw (found, observe)
                (Runs-trans (quiet s) (update_finding-Runs run existing c at (others s)))
        ]

    observe_loop-Runs :
        (ids : ℕ → ℕ) (i : ℕ) (run : Run) (evaluation_key : String) (cs : List FindingCandidate)
        (s : S)
        → Runs db s (observe_loop db others ids i run evaluation_key cs s).state
    unfolding observe_loop
    observe_loop-Runs ids i run evaluation_key [] s = none_yet
    observe_loop-Runs ids i run evaluation_key (c ∷ cs) s =
        let reply = observe db others (ids i) run evaluation_key c (observed_at run) s in
        let first = observe-Runs (ids i) run evaluation_key c (observed_at run) s in
        elim (Outcome-cases reply.outcome) [
          | inl (e, failed) ↦ rw (failed, observe_loop) first
          | inr (f, done) ↦
              rw (done, observe_loop)
                (Runs-trans first (observe_loop-Runs ids (suc i) run evaluation_key cs reply.state))
        ]

    record_findings-Runs :
        (ids : ℕ → ℕ) (run : Run) (cs : List FindingCandidate) (evidence_ids : Option (List String))
        (s : S)
        → Runs db s (record_findings db others ids run cs evidence_ids s).state
    unfolding record_findings
    record_findings-Runs ids run [] evidence_ids s = none_yet
    record_findings-Runs ids run (c ∷ cs) evidence_ids s =
        elim (List-cases (
          validate_judgment (record {
            criteria = db.list_criteria run.rule_set_version_id s;
            verdicts = [];
            findings = c ∷ cs;
            evidence_ids = evidence_ids;
          }))) [
            | inr (p, ps, bad) ↦ rw (bad, record_findings) none_yet
            | inl good ↦ elim (Option-cases (db.find_evaluation_key run.rule_set_version_id s)) [
              | inl missing ↦ rw (good, record_findings, missing) none_yet
              | inr (key, found) ↦
                  rw (good, record_findings, found) (observe_loop-Runs ids 0 run key (c ∷ cs) s)
            ]
          ]

  module _ (clock : ℕ → ℕ) (others : ℕ → S → S)
      (quiet : (i : ℕ) (s : S) → Runs db s (others i s)) where
    resolve_loop-Runs :
        (i : ℕ) (run : Run) (evaluation_key : String) (fs : List Finding) (s : S)
        → Runs db s (resolve_loop db clock others i run evaluation_key fs s).1
    unfolding resolve_loop
    resolve_loop-Runs i run evaluation_key [] s = none_yet
    resolve_loop-Runs i run evaluation_key (f ∷ fs) s =
        Runs-trans (then_run (quiet i s) (closed (clock i) run evaluation_key f (others i s)))
          (resolve_loop-Runs (suc i) run evaluation_key fs _)

    resolve_absent_findings-Runs :
        (run : Run) (s : S) → Runs db s (resolve_absent_findings db clock others run s).state
    unfolding resolve_absent_findings resolve_listed
    resolve_absent_findings-Runs run s =
        elim (Option-cases (db.find_evaluation_key run.rule_set_version_id s)) [
          | inl missing ↦ rw (missing, resolve_absent_findings) none_yet
          | inr (key, found) ↦
              rw (found, resolve_absent_findings)
                (resolve_loop-Runs 0 run key (db.findings.find_many (is_absent run key) s) s)
        ]

  -- Neither method of a run lifts a suppression, whatever it observes and on whichever path it
  -- ends: every finding that is suppressed before it is suppressed after it, with the same note
  -- and actor, if what other processes do meanwhile are writes of other runs.
  pub run-KeepsSuppression :
      (clock ids : ℕ → ℕ) (others : ℕ → S → S) (run : Run) (cs : List FindingCandidate)
      (evidence_ids : Option (List String)) (s : S)
      → ((i : ℕ) (s : S) → Runs db s (others i s))
      → Keeps db.findings KeepsSuppression s
          (record_findings db (others 0) ids run cs evidence_ids s).state
        × Keeps db.findings KeepsSuppression s (resolve_absent_findings db clock others run s).state
  run-KeepsSuppression clock ids others run cs evidence_ids s quiet = (
    Runs-KeepsSuppression db (record_findings-Runs (others 0) (quiet 0) ids run cs evidence_ids s),
    Runs-KeepsSuppression db (resolve_absent_findings-Runs clock others quiet run s),
  )
