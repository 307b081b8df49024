-- ===== src/Evaluation/Finding/Observation.antt =====
-- What an observation of evaluation/evaluation-finding.service.ts leaves in the table.
use newbie_modules.Common.{
  ℕ, ◌≡◌, ◌≢◌, refl, sym, ap, ◌∙◌, Bool, true, false, none, some, String, ◌==◌, if◌then◌else◌,
  Bool-cases, Option-cases, inl, inr, ==_refl, ==_iff, eq_refl, subst,
}
use newbie_modules.Common.Table.{written, matched}
use newbie_modules.Evaluation.Contracts.{FindingCandidate}
use newbie_modules.Evaluation.Errors.{Outcome, ok, throw}
use newbie_modules.Evaluation.Run.State.{Run}
use newbie_modules.Evaluation.Finding.State.{
  Finding, FindingDb, FindingStatus, open_status, resolved_status, suppressed_status, eq_status,
  has_key, reopened,
}
use newbie_modules.Evaluation.Finding.Data.{
  Reply, new_finding, is_resolved, same_status, observation,
}
use newbie_modules.Evaluation.Finding.Service.{
  write_observation, update_finding, create_finding, observe, announce, silent, require_finding,
}
use newbie_modules.Evaluation.Finding.Lifecycle.{observation-id}

eq_status_refl : (status : FindingStatus) → eq_status status status ≡ true
eq_status_refl open_status = refl
eq_status_refl resolved_status = refl
eq_status_refl suppressed_status = refl

not_resolved :
    (status : FindingStatus) → eq_status status resolved_status ≡ false → status ≢ resolved_status
not_resolved open_status h = λ e. cc e
not_resolved resolved_status h = absurd (cc h)
not_resolved suppressed_status h = λ e. cc e

-- A row as the run has just seen it, under the candidate's key and not resolved.
pub record IsSeen (run : Run) (key : String) (c : FindingCandidate) (at : ℕ) (f : Finding)
    : Type 0 where
  pub keyed : has_key run.subject_id key c.fingerprint f ≡ true
  pub by_run : f.last_seen_run_id ≡ run.id
  pub seen : f.last_seen_at ≡ at
  pub title : f.title ≡ c.title
  pub unresolved : f.status ≢ resolved_status

new_finding-IsSeen :
    (run : Run) (key : String) (c : FindingCandidate) (at id : ℕ)
    → IsSeen run key c at (new_finding run key c at id)
new_finding-IsSeen run key c at id = record {
  keyed = rw (==_refl run.subject_id, eq_refl key, eq_refl c.fingerprint) refl;
  by_run = refl;
  seen = refl;
  title = refl;
  unresolved = λ e. cc e;
}

observation-IsSeen :
    (run : Run) (key : String) (c : FindingCandidate) (at : ℕ) (f : Finding)
    → has_key run.subject_id key c.fingerprint f ≡ true
    → IsSeen run key c at (observation run f c at f)
observation-IsSeen run key c at f keyed = elim (Bool-cases (is_resolved f)) [
  | inl back ↦
      rw back
        (record { keyed = keyed; by_run = refl; seen = refl; title = refl; unresolved = λ e. cc e })
  | inr same ↦ rw same (record {
    keyed = keyed;
    by_run = refl;
    seen = refl;
    title = refl;
    unresolved = not_resolved f.status same;
  })
]

module _ {S : Type 0} (db : FindingDb S) where
  open db.findings use {find, find-update_many, count-update_many}

  -- What an observation ends with: the row it returns, which is the stored one.
  abbrev pub Records : Run → String → FindingCandidate → ℕ → Reply S Finding → Type 0
  Records run key c at r =
      (f : Finding) × (r.outcome ≡ ok f) × (find f.id r.state ≡ some f) × IsSeen run key c at f

  create_succeeds :
      (f : Finding) (s : S)
      → find f.id s ≡ none
      → db.find_by_key f.subject_id f.evaluation_key f.fingerprint s ≡ none
      → (t : S) × (db.create f s ≡ some t)
  create_succeeds f s fresh missing = elim (Option-cases (db.create f s)) [
    | inr made ↦ made
    | inl refused ↦
        let (g, found, taken) = db.create_refused f s refused in
        elim (Bool-cases (g.id == f.id)) [
          | inl same ↦
              let e : g.id ≡ f.id = (==_iff g.id f.id).0 same in
              absurd (cc (subst (λ k. find k s ≡ some g) e found, fresh))
          | inr other ↦
              let no =
                db.find_by_key_missing f.subject_id f.evaluation_key f.fingerprint s g missing
                  found in
              absurd (cc (rw other at taken, no))
        ]
  ]

  create_finding-Records :
      (id : ℕ) (run : Run) (key : String) (c : FindingCandidate) (at : ℕ) (s : S)
      → find id s ≡ none
      → db.find_by_key run.subject_id key c.fingerprint s ≡ none
      → Records run key c at (create_finding db (λ s. s) id run key c at s)
  unfolding create_finding
  create_finding-Records id run key c at s fresh missing =
      let row = new_finding run key c at id in
      let (t, made) = create_succeeds row s fresh missing in
      rw (made, create_finding)
        (
          row,
          refl,
          rw (db.find-create row s t id made, ==_refl id) refl,
          new_finding-IsSeen run key c at id,
        )

  written_here :
      (run : Run) (f : Finding) (c : FindingCandidate) (at : ℕ) (s : S)
      → find f.id s ≡ some f
      → ((write_observation db run f c at s).1 ≡ 1)
        × (find f.id (write_observation db run f c at s).0 ≡ some (observation run f c at f))
  unfolding write_observation
  written_here run f c at s found =
      let p = same_status f in
      let g = observation run f c at in
      (
        count-update_many f.id p g s ∙ (ap (matched p) found ∙ rw (eq_status_refl f.status) refl),
        find-update_many f.id f.id p g s (observation-id run f c at)
            ∙ (rw (==_refl f.id) (ap (written p g) found ∙ rw (eq_status_refl f.status) refl)),
      )

  require_here :
      (id : ℕ) (t : S) (f : Finding) → find id t ≡ some f → require_finding db id t ≡ ok f
  unfolding require_finding
  require_here id t f found = rw (found, require_finding)

  announce_if :
      (b : Bool) (o : Outcome Finding) (t : S)
      → let r = if b then announce db reopened o t else silent db o t in
        (r.outcome ≡ o) × (r.state ≡ t)
  announce_if true (ok f) t = (refl, refl)
  announce_if true (throw e) t = (refl, refl)
  announce_if false o t = (refl, refl)

  settled :
      (run : Run) (f : Finding) (c : FindingCandidate) (at : ℕ) (s : S)
      → (write_observation db run f c at s).1 ≡ 1
      → let r = update_finding db (λ s. s) run f c at s in
        let t = (write_observation db run f c at s).0 in
        (r.outcome ≡ require_finding db f.id t) × (r.state ≡ t)
  unfolding update_finding
  settled run f c at s count =
      let t = (write_observation db run f c at s).0 in
      rw (count) (announce_if (is_resolved f) (require_finding db f.id t) t)

  update_finding-Records :
      (run : Run) (key : String) (f : Finding) (c : FindingCandidate) (at : ℕ) (s : S)
      → find f.id s ≡ some f
      → has_key run.subject_id key c.fingerprint f ≡ true
      → Records run key c at (update_finding db (λ s. s) run f c at s)
  update_finding-Records run key f c at s found keyed =
      let (count, here) = written_here run f c at s found in
      let (answer, state) = settled run f c at s count in
      let t = (write_observation db run f c at s).0 in
      let row = observation run f c at f in
      let stored : find row.id t ≡ some row =
        subst (λ k. find k t ≡ some row) (sym (observation-id run f c at f)) here in
      (
        row,
        answer ∙ require_here f.id t row here,
        subst (λ u. find row.id u ≡ some row) (sym state) stored,
        observation-IsSeen run key c at f keyed,
      )

  -- An observation that no other process disturbs never fails, if the id of the new row is free. It
  -- returns a row that is stored, under the subject, the evaluation key and the candidate's
  -- fingerprint, last seen by this run at its time, with the candidate's title, and not resolved.
  pub observe-Records :
      (id : ℕ) (run : Run) (key : String) (c : FindingCandidate) (at : ℕ) (s : S)
      → find id s ≡ none
      → Records run key c at (observe db (λ s. s) id run key c at s)
  unfolding observe
  observe-Records id run key c at s fresh =
      elim (Option-cases (db.find_by_key run.subject_id key c.fingerprint s)) [
        | inl missing ↦
            rw (missing, observe) (create_finding-Records id run key c at s fresh missing)
        | inr (f, known) ↦
            let (found, keyed) = db.find_by_key_sound run.subject_id key c.fingerprint s f known in
            rw (known, observe) (update_finding-Records run key f c at s found keyed)
      ]
