-- ===== src/Evaluation/Runner/Stages.antt =====
-- The writes of an execution in evaluation/evaluation-runner.service.ts, when all succeed.
use newbie_modules.Common.{ℕ, ◌≡◌, refl, ap, ◌∙◌, some, List, inl, inr, map}
use newbie_modules.Evaluation.Contracts.{EvidenceCollection, Judgment, CoverageStats}
use newbie_modules.Evaluation.Errors.{Text, HttpStatus, Reason, Outcome, ok, throw, Outcome-cases}
use newbie_modules.Evaluation.Run.State.{Run, RunDb}
use newbie_modules.Evaluation.Run.Service.{as_succeeded, mark_succeeded, assert_active}
use newbie_modules.Evaluation.Runner.State.{RunOutcome, Work, chain}
use newbie_modules.Evaluation.Runner.Service.{guarded, close, resolve, record_all, settle}
use newbie_modules.Evaluation.Runner.Channels.{mark_succeeded_ok}

module _ {S : Type 0} (db : RunDb S) where
  open db.runs use {find}

  module _ (work : Work S) (response_text : HttpStatus → Reason → Text) where
    open work use {others}

    chain_ok :
        {A B : Type 0} (x : Outcome A × S) (k : A → S → Outcome B × S) (b : B) (t : S)
        → chain x k ≡ (ok b, t)
        → (a : A) × (x.0 ≡ ok a) × (k a x.1 ≡ (ok b, t))
    chain_ok (throw e, s) k b t h = absurd (cc h)
    chain_ok (ok a, s) k b t h = (a, refl, h)

    guarded_ok :
        {A : Type 0} (i : ℕ) (run : Run) (write : S → Outcome A × S) (s : S) (a : A) (t : S)
        → guarded db work response_text i run write s ≡ (ok a, t)
        → write (others i s) ≡ (ok a, t)
    guarded_ok i run write s a t h =
        elim (Outcome-cases (assert_active db run.id run.started_at (others i s))) [
          | inl (e, refused) ↦ absurd (cc (rw (refused, guarded) at h))
          | inr (u, alive) ↦ rw (alive, guarded) at h
        ]

    close_ok :
        (now : ℕ) (run : Run) (result_id : ℕ) (finding_ids : List ℕ) (count : ℕ) (s t : S)
        (o : RunOutcome)
        → close db work response_text now run result_id finding_ids count s ≡ (ok o, t)
        → (q : Run) × (find run.id t ≡ some (as_succeeded now q))
    unfolding close
    close_ok now run result_id finding_ids count s t o h =
        let x = guarded db work response_text 3 run (mark_succeeded db now run.id) s in
        let row : RunOutcome = record {
          run_id = run.id;
          result_id = result_id;
          finding_ids = finding_ids;
          resolved_finding_count = count;
        } in
        let (u, done, same) = chain_ok x (λ done v. (ok row, v)) o t h in
        let state : x.1 ≡ t = cc same in
        mark_succeeded_ok db now run.id (others 3 s) t u (
          guarded_ok 3 run (mark_succeeded db now run.id) s u t
            (ap (λ r. (r, x.1)) done ∙ ap (λ v. (ok u, v)) state))

    resolve_ok :
        (now : ℕ) (run : Run) (result_id : ℕ) (finding_ids : List ℕ) (s t : S) (o : RunOutcome)
        → resolve db work response_text now run result_id finding_ids s ≡ (ok o, t)
        → (q : Run) × (find run.id t ≡ some (as_succeeded now q))
    unfolding resolve
    resolve_ok now run result_id finding_ids s t o h =
        let x = guarded db work response_text 2 run (work.resolve_absent_findings run) s in
        let (count, done, later) =
          chain_ok x (λ count v. close db work response_text now run result_id finding_ids count v)
            o t h in
        close_ok now run result_id finding_ids count x.1 t o later

    record_all_ok :
        (now : ℕ) (run : Run) (evidence : EvidenceCollection) (judgment : Judgment) (result_id : ℕ)
        (s t : S) (o : RunOutcome)
        → record_all db work response_text now run evidence judgment result_id s ≡ (ok o, t)
        → (q : Run) × (find run.id t ≡ some (as_succeeded now q))
    unfolding record_all
    record_all_ok now run evidence judgment result_id s t o h =
        let x =
          guarded db work response_text 1 run
            (work.record_findings run judgment.findings (map (λ i. i.id) evidence.items)) s in
        let (finding_ids, done, later) =
          chain_ok x
            (λ finding_ids v. resolve db work response_text now run result_id finding_ids v) o t
            h in
        resolve_ok now run result_id finding_ids x.1 t o later

    pub settle_ok :
        (now : ℕ) (run : Run) (evidence : EvidenceCollection) (judgment : Judgment)
        (stats : CoverageStats) (s t : S) (o : RunOutcome)
        → settle db work response_text now run evidence judgment stats s ≡ (ok o, t)
        → (q : Run) × (find run.id t ≡ some (as_succeeded now q))
    unfolding settle
    settle_ok now run evidence judgment stats s t o h =
        let x =
          guarded db work response_text 0 run
            (work.create_result run.id evidence.items stats judgment.verdicts judgment.summary) s in
        let (result_id, done, later) =
          chain_ok x
            (λ result_id v. record_all db work response_text now run evidence judgment result_id v)
            o t h in
        record_all_ok now run evidence judgment result_id x.1 t o later
