-- ===== src/Evaluation/Run/Writes.antt =====
-- What every conditional write of evaluation/evaluation-run.service.ts does to the run table.
use newbie_modules.Common.{
  ℕ, ◌≤◌, ◌≡◌, refl, Bool, true, false, Option, none, some, ◌==◌, if◌then◌else◌, arith, Bool-cases,
  inl, inr,
}
use newbie_modules.Common.Table.{written}
use newbie_modules.Evaluation.Errors.{Text}
use newbie_modules.Evaluation.Run.State.{
  RunStatus, queued, running, succeeded, failed, Run, RunDb, is_active, is_queued, is_untouched,
}
use newbie_modules.Evaluation.Run.Service.{as_running, as_succeeded, as_failed, as_touched}

-- How far a run has come.
abbrev pub stage : RunStatus → ℕ
stage queued = 0
stage running = 1
stage succeeded = 2
stage failed = 2

-- How a row may change: a finished row does not, the coordinates never do, and the status only
-- moves on.
pub record Evolves (r q : Run) : Type 0 where
  pub frozen : is_active r ≡ false → q ≡ r
  pub id : q.id ≡ r.id
  pub subject : q.subject_id ≡ r.subject_id
  pub version : q.rule_set_version_id ≡ r.rule_set_version_id
  pub created : q.created_at ≡ r.created_at
  pub onward : stage r.status ≤ stage q.status

pub Evolves-refl : (r : Run) → Evolves r r
Evolves-refl r = record {
  frozen = λ h. refl;
  id = refl;
  subject = refl;
  version = refl;
  created = refl;
  onward = omega arith;
}

pub Evolves-trans : (r q p : Run) → Evolves r q → Evolves q p → Evolves r p
Evolves-trans r q p h k = record {
  frozen = λ done. cc (h.frozen done, k.frozen (ground (arith, h.frozen done)));
  id = cc (h.id, k.id);
  subject = cc (h.subject, k.subject);
  version = cc (h.version, k.version);
  created = cc (h.created, k.created);
  onward = omega (arith, h.onward, k.onward);
}

-- A write that is guarded by the active statuses and moves a row on.
pub record IsGuarded (p : Run → Bool) (f : Run → Run) : Type 0 where
  pub same_id : (r : Run) → (f r).id ≡ r.id
  pub guard : (r : Run) → p r ≡ true → is_active r ≡ true
  pub moves : (r : Run) → p r ≡ true → Evolves r (f r)

pub running-IsGuarded : (now : ℕ) → IsGuarded is_queued (as_running now)
running-IsGuarded now = record {
  same_id = λ r. refl;
  guard = λ r h. ground arith;
  moves = λ r h. ground arith;
}

pub succeeded-IsGuarded : (now : ℕ) → IsGuarded is_active (as_succeeded now)
succeeded-IsGuarded now = record {
  same_id = λ r. refl;
  guard = λ r h. h;
  moves = λ r h. ground arith;
}

pub failed-IsGuarded : (text : Text) (now : ℕ) → IsGuarded is_active (as_failed text now)
failed-IsGuarded text now = record {
  same_id = λ r. refl;
  guard = λ r h. h;
  moves = λ r h. ground arith;
}

pub touched-IsGuarded : (now : ℕ) → IsGuarded is_active (as_touched now)
touched-IsGuarded now = record {
  same_id = λ r. refl;
  guard = λ r h. h;
  moves = λ r h. ground arith;
}

pub reaped-IsGuarded :
    (text : Text) (now : ℕ) (candidate : Run)
    → IsGuarded (is_untouched candidate) (as_failed text now)
reaped-IsGuarded text now candidate = record {
  same_id = λ r. refl;
  guard = λ r h. ground arith;
  moves = λ r h. ground arith;
}

pub Evolves-live : (r q : Run) → Evolves r q → is_active q ≡ true → is_active r ≡ true
Evolves-live r q e h = elim (Bool-cases (is_active r)) [
  | inl active ↦ active
  | inr done ↦ rw (e.frozen done) at h
]

module _ {S : Type 0} (db : RunDb S) where
  open db.runs use {find, update_many, find-update_many}

  -- No row is lost, and each changes as `Evolves` says.
  abbrev pub Keeps : S → S → Type 0
  Keeps s t = (j : ℕ) (r : Run) → find j s ≡ some r → (q : Run) × (find j t ≡ some q) × Evolves r q

  -- At most one active run for each subject and version.
  abbrev pub IsExclusive : S → Type 0
  IsExclusive s =
      (i j : ℕ) (r q : Run)
      → find i s ≡ some r
      → find j s ≡ some q
      → is_active r ≡ true
      → is_active q ≡ true
      → r.subject_id ≡ q.subject_id
      → r.rule_set_version_id ≡ q.rule_set_version_id
      → i ≡ j

  pub Keeps-refl : (s : S) → Keeps s s
  Keeps-refl s j r h = (r, h, Evolves-refl r)

  pub Keeps-trans : (s t u : S) → Keeps s t → Keeps t u → Keeps s u
  Keeps-trans s t u h k j r found =
      let (q, there, rq) = h j r found in
      let (p, later, qp) = k j q there in (p, later, Evolves-trans r q p rq qp)

  module _ (p : Run → Bool) (f : Run → Run) (g : IsGuarded p f) (id : ℕ) (s : S) where
    -- The row after the write, from the row before it.
    written-Evolves : (r : Run) → Evolves r (if p r then f r else r)
    written-Evolves r = elim (Bool-cases (p r)) [
      | inl h ↦ rw h (g.moves r h)
      | inr h ↦ rw h (Evolves-refl r)
    ]

    written-some :
        (o : Option Run) (q : Run)
        → written p f o ≡ some q
        → (r : Run) × (o ≡ some r) × ((if p r then f r else r) ≡ q)
    written-some none q h = cc
    written-some (some r) q h = (r, refl, cc)

    pub update_many-Keeps : Keeps s (update_many id p f s).0
    update_many-Keeps j r found = elim (Bool-cases (id == j)) [
      | inl same ↦ (
        if p r then f r else r,
        rw (find-update_many id j p f s g.same_id, same, found),
        written-Evolves r,
      )
      | inr other ↦ (r, rw (find-update_many id j p f s g.same_id, other) found, Evolves-refl r)
    ]

    -- Each row after the write has a row before it, which was active if it is.
    pub update_many-before :
        (j : ℕ) (q : Run)
        → find j (update_many id p f s).0 ≡ some q
        → (r : Run) × (find j s ≡ some r) × Evolves r q × (is_active q ≡ true → is_active r ≡ true)
    update_many-before j q found = elim (Bool-cases (id == j)) [
      | inl same ↦
          let (r, before, now) =
            written-some (find j s) q (rw (find-update_many id j p f s g.same_id, same) at found) in
          let e : Evolves r q = rw now at (written-Evolves r) in (r, before, e, Evolves-live r q e)
      | inr other ↦
          (q, rw (find-update_many id j p f s g.same_id, other) at found, Evolves-refl q, λ h. h)
    ]

    pub update_many-IsExclusive : IsExclusive s → IsExclusive (update_many id p f s).0
    update_many-IsExclusive h i j r q found there active busy subject version =
        let (r', before, rr, live) = update_many-before i r found in
        let (q', prior, qq, alive) = update_many-before j q there in
        h i j r' q' before prior (live active) (alive busy) (cc (rr.subject, qq.subject))
          (cc (rr.version, qq.version))
