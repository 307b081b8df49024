-- ===== src/Evaluation/Finding/Service.antt =====
-- `EvaluationFindingService` of evaluation/evaluation-finding.service.ts. A method takes the time it
-- reads and the state of the database. It returns its outcome, the new state and the observer's
-- calls, in order; the observer's own failure is caught and logged. Where a method reads and then
-- writes, `others` is what other processes do to the database in between.
use newbie_modules.Common.{
  ℕ, suc, String, true, Option, none, some, List, [], ◌∷◌, ◌++◌, ◌==◌, if◌then◌else◌, length,
}
use newbie_modules.Evaluation.Contracts.{FindingCandidate}
use newbie_modules.Evaluation.Errors.{
  Text, bad_request, not_found, http, error, Outcome, ok, throw, finding_missing, version_missing,
  suppression_note_required, suppressed_by_required, problems,
}
use newbie_modules.Evaluation.Judgment.Validate.{validate_judgment}
use newbie_modules.Evaluation.Run.State.{Run}
use newbie_modules.Evaluation.Finding.State.{
  Finding, FindingDb, Change, created, reopened, resolved, suppressed, ChangedEvent, observed_at,
  is_blank,
}
use newbie_modules.Evaluation.Finding.Data.{
  Reply, event_of, after, as_observed, as_reopened, as_resolved, as_suppressed, new_finding,
  is_resolved, same_status, observation, is_unseen, is_absent,
}

module _ {S : Type 0} (db : FindingDb S) where
  open db.findings use {find, find_many, update_many}

  unfoldable pub require_finding : ℕ → S → Outcome Finding
  require_finding id s = elim (find id s) [
    | none ↦ throw (http not_found (finding_missing id))
    | some f ↦ ok f
  ]

  -- `requireFinding` and then the observer's call.
  abbrev pub announce : Change → Outcome Finding → S → Reply S Finding
  announce change (throw e) s = record { outcome = throw e; state = s; events = [] }
  announce change (ok f) s = record { outcome = ok f; state = s; events = event_of change f ∷ [] }

  abbrev pub silent : Outcome Finding → S → Reply S Finding
  silent outcome s = record { outcome = outcome; state = s; events = [] }

  -- The compare-and-set of `updateFinding`.
  unfoldable pub write_observation : Run → Finding → FindingCandidate → ℕ → S → S × ℕ
  write_observation run existing c at s =
      update_many existing.id (same_status existing) (observation run existing c at) s

  -- The write after a lost compare-and-set.
  unfoldable pub refresh : Run → ℕ → FindingCandidate → ℕ → S → S
  refresh run id c at s = (update_many id (λ f. true) (as_observed run c at) s).0

  unfoldable pub update_finding :
      (S → S) → Run → Finding → FindingCandidate → ℕ → S → Reply S Finding
  update_finding others run existing c at s =
      let (t, count) = write_observation run existing c at s in
      let u = refresh run existing.id c at (others t) in
      if count == 0
      then silent (require_finding existing.id u) u
      else if is_resolved existing
      then announce reopened (require_finding existing.id t) t
      else silent (require_finding existing.id t) t

  -- `createFinding`; `id` is the UUID that the database gives to the new row. The unique violation
  -- that is thrown again is the database's own error; its text is left out.
  unfoldable pub create_finding :
      (S → S) → ℕ → Run → String → FindingCandidate → ℕ → S → Reply S Finding
  create_finding others id run evaluation_key c at s =
      let row = new_finding run evaluation_key c at id in
      elim (db.create row s) [
        | some t ↦ announce created (ok row) t
        | none ↦ elim (db.find_by_key run.subject_id evaluation_key c.fingerprint s) [
          | none ↦ silent (throw (error [])) s
          | some existing ↦ update_finding others run existing c at (others s)
        ]
      ]

  unfoldable pub observe : (S → S) → ℕ → Run → String → FindingCandidate → ℕ → S → Reply S Finding
  observe others id run evaluation_key c at s =
      elim (db.find_by_key run.subject_id evaluation_key c.fingerprint s) [
        | none ↦ create_finding others id run evaluation_key c at (others s)
        | some existing ↦ update_finding others run existing c at (others s)
      ]

  -- The loop of `recordFindings`; `ids i` is the id of a row created in the round `i`. The first
  -- failure ends it.
  unfoldable pub observe_loop :
      (S → S) → (ℕ → ℕ) → ℕ → Run → String → List FindingCandidate → S → Reply S (List Finding)
  observe_loop others ids i run evaluation_key [] s = record {
    outcome = ok [];
    state = s;
    events = [];
  }
  observe_loop others ids i run evaluation_key (c ∷ cs) s =
      let here = observe others (ids i) run evaluation_key c (observed_at run) s in
      let rest = observe_loop others ids (suc i) run evaluation_key cs here.state in
      elim here.outcome [
        | throw e ↦ record { outcome = throw e; state = here.state; events = here.events }
        | ok f ↦ record {
          outcome = after f rest.outcome;
          state = rest.state;
          events = here.events ++ rest.events;
        }
      ]

  unfoldable pub record_findings :
      (S → S)
      → (ℕ → ℕ)
      → Run
      → List FindingCandidate
      → Option (List String)
      → S
      → Reply S (List Finding)
  record_findings others ids run [] evidence_ids s = record {
    outcome = ok [];
    state = s;
    events = [];
  }
  record_findings others ids run (c ∷ cs) evidence_ids s =
      elim (validate_judgment (record {
        criteria = db.list_criteria run.rule_set_version_id s;
        verdicts = [];
        findings = c ∷ cs;
        evidence_ids = evidence_ids;
      })) [
        | p ∷ ps ↦ record {
          outcome = throw (http bad_request (problems (p ∷ ps)));
          state = s;
          events = [];
        }
        | [] ↦ elim (db.find_evaluation_key run.rule_set_version_id s) [
          | none ↦ record {
            outcome = throw (http not_found (version_missing run.rule_set_version_id));
            state = s;
            events = [];
          }
          | some evaluation_key ↦ observe_loop others ids 0 run evaluation_key (c ∷ cs) s
        ]
      ]

  -- One round of the closing loop: the conditional write, and the event if it matched.
  unfoldable pub resolve_row : ℕ → Run → String → Finding → S → List ChangedEvent × S
  resolve_row now run evaluation_key listed s =
      let (t, count) = update_many listed.id (is_unseen listed) (as_resolved now) s in
      (
        if count == 0
            then []
            else record {
              finding_id = listed.id;
              subject_id = run.subject_id;
              evaluation_key = evaluation_key;
              fingerprint = listed.fingerprint;
              severity = listed.severity;
              change = resolved;
            }
              ∷ [],
        t,
      )

  unfoldable pub resolve_loop :
      (ℕ → ℕ) → (ℕ → S → S) → ℕ → Run → String → List Finding → S → List ChangedEvent × S
  resolve_loop clock others i run evaluation_key [] s = ([], s)
  resolve_loop clock others i run evaluation_key (f ∷ fs) s =
      let (here, t) = resolve_row (clock i) run evaluation_key f (others i s) in
      let (rest, u) = resolve_loop clock others (suc i) run evaluation_key fs t in (here ++ rest, u)

  -- `resolveAbsentFindings` from the evaluation key on.
  unfoldable pub resolve_listed : (ℕ → ℕ) → (ℕ → S → S) → Run → String → S → List ChangedEvent × S
  resolve_listed clock others run evaluation_key s =
      resolve_loop clock others 0 run evaluation_key (find_many (is_absent run evaluation_key) s) s

  unfoldable pub resolve_absent_findings : (ℕ → ℕ) → (ℕ → S → S) → Run → S → Reply S ℕ
  resolve_absent_findings clock others run s =
      elim (db.find_evaluation_key run.rule_set_version_id s) [
        | none ↦ record {
          outcome = throw (http not_found (version_missing run.rule_set_version_id));
          state = s;
          events = [];
        }
        | some evaluation_key ↦
            let (events, t) = resolve_listed clock others run evaluation_key s in
            record { outcome = ok (length events); state = t; events = events }
      ]

  -- `if (updated.count === 0) throw …`, and the row and the event otherwise.
  abbrev pub announce_written : Change → ℕ → S × ℕ → Reply S Finding
  announce_written change id (t, count) =
      if count == 0
      then silent (throw (http not_found (finding_missing id))) t
      else announce change (require_finding id t) t

  unfoldable pub suppress_finding : ℕ → Text → Text → S → Reply S Finding
  suppress_finding id note by s =
      if is_blank note
      then silent (throw (http bad_request suppression_note_required)) s
      else if is_blank by
      then silent (throw (http bad_request suppressed_by_required)) s
      else announce_written suppressed id (update_many id (λ f. true) (as_suppressed note by) s)

  unfoldable pub reopen_finding : ℕ → S → Reply S Finding
  reopen_finding id s = announce_written reopened id (update_many id (λ f. true) as_reopened s)
