-- ===== src/Evaluation/Run/Reaper.antt =====
-- The stale-run sweep of evaluation/evaluation-run.service.ts, with its fencing.
use newbie_modules.Common.{
  ℕ, ◌≡◌, ◌≢◌, refl, ap, ◌∙◌, Bool, true, false, Option, none, some, ◌==◌, if◌then◌else◌, arith,
  Bool-cases, inl, inr, ==_iff, ==_refl,
}
use newbie_modules.Common.Table.{written, matched}
use newbie_modules.Evaluation.Errors.{throw, http, conflict, run_inactive, run_not_markable}
use newbie_modules.Evaluation.Run.State.{
  Run, RunDb, failed, is_active, is_untouched, stale_run_error,
}
use newbie_modules.Evaluation.Run.Service.{
  as_failed, as_touched, as_succeeded, assert_active, assert_still_active, confirm, mark_succeeded,
  touch, reap_row,
}
use newbie_modules.Evaluation.Run.Lifecycle.{Reach, Reach-Keeps}

if_refl : {A : Type 0} (n : ℕ) (x y : A) → (if n == n then x else y) ≡ x
if_refl n x y = rw (==_refl n)

written-matched :
    (p : Run → Bool) (f : Run → Run) (o : Option Run) (q : Run)
    → o ≡ some q
    → p q ≡ true
    → written p f o ≡ some (f q)
written-matched p f o q found h = rw (found, h)

written-unmatched :
    (p : Run → Bool) (f : Run → Run) (o : Option Run) → matched p o ≡ 0 → written p f o ≡ o
written-unmatched p f none h = refl
written-unmatched p f (some r) h = ground arith

touched_unmatched :
    (now : ℕ) (c : Run) (o : Option Run)
    → now ≢ c.updated_at
    → matched (is_untouched c) (written is_active (as_touched now) o) ≡ 0
touched_unmatched now c none later = refl
touched_unmatched now c (some r) later = ground arith

inactive_unmatched : (c q : Run) → is_active q ≡ false → matched (is_untouched c) (some q) ≡ 0
inactive_unmatched c q done = ground arith

module _ {S : Type 0} (db : RunDb S) where
  open db.runs use {find, update_many, find-update_many, count-update_many}

  -- An execution whose row has ended.
  fenced :
      (id : ℕ) (started_at : Option ℕ) (q : Run) (t : S)
      → find id t ≡ some q
      → is_active q ≡ false
      → assert_active db id started_at t ≡ throw (http conflict (run_inactive id))
  unfolding assert_active
  fenced id started_at q t found done = rw (found, assert_active, done)

  not_marked :
      (now id : ℕ) (q : Run) (t : S)
      → find id t ≡ some q
      → is_active q ≡ false
      → (mark_succeeded db now id t).0 ≡ throw (http conflict (run_not_markable id))
  unfolding mark_succeeded confirm assert_still_active
  not_marked now id q t found done = ground (
    arith,
    count-update_many id is_active (as_succeeded now) t,
    find-update_many id id is_active (as_succeeded now) t (λ r. refl),
  )

  -- A row is reported exactly if the conditional write closed it.
  reap_row-count :
      (now : ℕ) (c r : Run) (s : S)
      → (reap_row db now c s).0 ≡ some r
      → matched (is_untouched c) (find c.id s) ≡ 1
  unfolding reap_row
  reap_row-count now c r s h =
      ground (arith, count-update_many c.id (is_untouched c) (as_failed stale_run_error now) s)

  matched-one :
      (c : Run) (o : Option Run)
      → matched (is_untouched c) o ≡ 1
      → (q : Run) × (o ≡ some q) × (is_untouched c q ≡ true)
  matched-one c none h = absurd (omega arith)
  matched-one c (some q) h = (q, refl, ground arith)

  pub find-reap_row :
      (now : ℕ) (c : Run) (s : S) (j : ℕ)
      → find j (reap_row db now c s).1 ≡ (
          if c.id == j
          then written (is_untouched c) (as_failed stale_run_error now) (find j s)
          else find j s)
  unfolding reap_row
  find-reap_row now c s j =
      find-update_many c.id j (is_untouched c) (as_failed stale_run_error now) s (λ r. refl)

  report-text :
      (now : ℕ) (c r : Run) (s : S)
      → (reap_row db now c s).0 ≡ some r
      → (r.id ≡ c.id)
        × (r.status ≡ failed)
        × (r.error ≡ some stale_run_error)
        × (r.finished_at ≡ some now)
  unfolding reap_row
  report-text now c r s h = ground arith

  -- A row that the sweep reports was active and had not changed since it was listed. It is stored
  -- as failed, with the text and the time that the report carries.
  pub reap_row_reported :
      (now : ℕ) (c r : Run) (s : S)
      → (reap_row db now c s).0 ≡ some r
      → (q : Run) × (find c.id s ≡ some q)
        × (is_active q ≡ true)
        × (q.updated_at ≡ c.updated_at)
        × (find c.id (reap_row db now c s).1 ≡ some (as_failed stale_run_error now q))
        × (r.id ≡ c.id)
        × (r.status ≡ failed)
        × (r.error ≡ some stale_run_error)
        × (r.finished_at ≡ some now)
  reap_row_reported now c r s h =
      let (q, found, untouched) = matched-one c (find c.id s) (reap_row-count now c r s h) in
      let (id, status, text, at) = report-text now c r s h in
      (
        q,
        found,
        ground arith,
        ground arith,
        find-reap_row now c s c.id
            ∙ (if_refl c.id _ _
                ∙ written-matched (is_untouched c) _ (find c.id s) q found untouched),
        id,
        status,
        text,
        at,
      )

  unmatched :
      (now : ℕ) (c : Run) (s : S)
      → matched (is_untouched c) (find c.id s) ≡ 0
      → (reap_row db now c s).0 ≡ none
  unfolding reap_row
  unmatched now c s h =
      ground (arith, count-update_many c.id (is_untouched c) (as_failed stale_run_error now) s)

  pub reap_row-unmatched :
      (now : ℕ) (c : Run) (s : S)
      → matched (is_untouched c) (find c.id s) ≡ 0
      → ((reap_row db now c s).0 ≡ none) × ((j : ℕ) → find j (reap_row db now c s).1 ≡ find j s)
  reap_row-unmatched now c s h = (
    unmatched now c s h,
    λ j. find-reap_row now c s j ∙ elim (Bool-cases (c.id == j)) [
      | inl same ↦
          let e : c.id ≡ j = (==_iff c.id j).0 same in
          rw same (written-unmatched (is_untouched c) _ (find j s) (rw e at h))
      | inr different ↦ rw different
    ],
  )

  -- A heartbeat that lands between the listing and the write protects the run: the sweep neither
  -- reports it nor changes any row.
  pub reap_row-touch :
      (now at : ℕ) (c : Run) (s : S)
      → now ≢ c.updated_at
      → let t = touch db now c.id s in
        ((reap_row db at c t).0 ≡ none) × ((j : ℕ) → find j (reap_row db at c t).1 ≡ find j t)
  unfolding touch
  reap_row-touch now at c s later = reap_row-unmatched at c _ (
      ap (matched (is_untouched c))
        (find-update_many c.id c.id is_active (as_touched now) s (λ r. refl) ∙ if_refl c.id _ _)
      ∙ touched_unmatched now c (find c.id s) later)

  -- What the row of a reported run is from then on, whatever happens to the table.
  stays_failed :
      (now : ℕ) (c r : Run) (s : S) {t : S}
      → (reap_row db now c s).0 ≡ some r
      → Reach db (reap_row db now c s).1 t
      → (q : Run) × (find c.id t ≡ some q) × (is_active q ≡ false)
  stays_failed now c r s h reach =
      let (q, found, active, same, closed, id, status, text, at) = reap_row_reported now c r s h in
      let (p, there, e) = Reach-Keeps db reach c.id (as_failed stale_run_error now q) closed in
      (p, there, ap is_active (e.frozen refl))

  -- A run is reported by a sweep at most once: after a sweep has reported it, no sweep of any process
  -- ever reports it again. The execution that lost it is fenced off: every check before a write and
  -- the terminal transition itself are conflicts.
  pub reap_row_once :
      (now at : ℕ) (c r d : Run) (started_at : Option ℕ) (s : S) {t : S}
      → (reap_row db now c s).0 ≡ some r
      → Reach db (reap_row db now c s).1 t
      → d.id ≡ c.id
      → ((reap_row db at d t).0 ≡ none)
        × (assert_active db c.id started_at t ≡ throw (http conflict (run_inactive c.id)))
        × ((mark_succeeded db at c.id t).0 ≡ throw (http conflict (run_not_markable c.id)))
  reap_row_once now at c r d started_at s {t} h reach same =
      let (q, found, done) = stays_failed now c r s h reach in
      (
        (reap_row-unmatched at d t
            (rw same (ap (matched (is_untouched d)) found ∙ inactive_unmatched d q done))).0,
        fenced c.id started_at q t found done,
        not_marked at c.id q t found done,
      )
