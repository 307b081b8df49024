-- ===== src/Evaluation/Run/Admission.antt =====
-- When evaluation/evaluation-run.service.ts opens a run, and when it answers with a conflict.
use newbie_modules.Common.{
  ℕ, ◌≡◌, ◌≢◌, refl, sym, true, false, none, some, ◌==◌, str_eq, eq_iff, arith, Bool-cases, subst,
  Option-cases, inl, inr, ==_iff, ==_refl,
}
use newbie_modules.Evaluation.Errors.{ok, throw, http, conflict, run_already_active, Outcome-cases}
use newbie_modules.Evaluation.Run.State.{
  Run, RunDb, StartRunInput, Subject, RuleSetVersion, clashes,
}
use newbie_modules.Evaluation.Run.Service.{
  Selector, new_run, require_published_version, chosen_version, create_run, start_with, start_for,
  start_run,
}

module _ {S : Type 0} (db : RunDb S) where
  open db.runs use {find}

  eq_no : (a b : ℕ) → a ≢ b → (a == b) ≡ false
  eq_no a b h = ground (arith, h)

  require_published_lem :
      (id : ℕ) (s : S) (v : RuleSetVersion)
      → require_published_version db id s ≡ ok v
      → (db.find_version id s ≡ some v) × (v.published_at ≢ none)
  unfolding require_published_version
  require_published_lem id s v h = ground arith

  create_run_ok :
      (r q : Run) (s t : S) → create_run db r s ≡ (ok q, t) → (q ≡ r) × (db.create r s ≡ some t)
  unfolding create_run
  create_run_ok r q s t h = ground arith

  -- What an opened run comes with.
  pub record IsAdmitted (now id : ℕ) (input : StartRunInput) (s t : S) (r : Run) : Type 0 where
    pub subject : Subject
    pub version : RuleSetVersion
    pub of_subject : db.find_subject input.subject_id s ≡ some subject
    pub of_version : db.find_version r.rule_set_version_id s ≡ some version
    pub published : version.published_at ≢ none
    pub kind : version.kind ≡ subject.kind
    pub new : r ≡ new_run now id r.rule_set_version_id input
    pub stored : find r.id t ≡ some r
    pub others : (j : ℕ) → r.id ≢ j → find j t ≡ find j s
    pub alone : (j : ℕ) (q : Run) → find j s ≡ some q → clashes r q ≡ false

  admit :
      (now id version_id : ℕ) (input : StartRunInput) (subject : Subject) (version : RuleSetVersion)
      (s t : S)
      → db.find_subject input.subject_id s ≡ some subject
      → db.find_version version_id s ≡ some version
      → version.published_at ≢ none
      → version.kind ≡ subject.kind
      → db.create (new_run now id version_id input) s ≡ some t
      → IsAdmitted now id input s t (new_run now id version_id input)
  admit now id version_id input subject version s t of_subject of_version published kind made =
      record {
        subject = subject;
        version = version;
        of_subject = of_subject;
        of_version = of_version;
        published = published;
        kind = kind;
        new = refl;
        stored = rw (db.find-create (new_run now id version_id input) s t id made, ==_refl id) refl;
        others = λ j other.
            rw (db.find-create (new_run now id version_id input) s t j made, eq_no id j other) refl;
        alone = λ j q found. db.create_unique (new_run now id version_id input) q s t j made found;
      }

  start_with_ok :
      (now id : ℕ) (input : StartRunInput) (subject : Subject) (version_id : ℕ) (s t : S) (r : Run)
      → db.find_subject input.subject_id s ≡ some subject
      → start_with db now id input subject version_id s ≡ (ok r, t)
      → IsAdmitted now id input s t r
  unfolding start_with
  start_with_ok now id input subject version_id s t r of_subject h =
      elim (Outcome-cases (require_published_version db version_id s)) [
        | inl (e, refused) ↦ absurd (cc (rw (refused, start_with) at h))
        | inr (version, found) ↦ elim (Bool-cases (str_eq version.kind subject.kind)) [
          | inr other ↦ absurd (cc (rw (found, start_with, other) at h))
          | inl same ↦
              let new = new_run now id version_id input in
              let (e, made) = create_run_ok new r s t (rw (found, start_with, same) at h) in
              let (of_version, published) = require_published_lem version_id s version found in
              subst (λ q. IsAdmitted now id input s t q) (sym e)
                (admit now id version_id input subject version s t of_subject of_version published
                  ((eq_iff version.kind subject.kind).0 same) made)
        ]
      ]

  start_for_ok :
      (select_version : Selector) (now id : ℕ) (input : StartRunInput) (subject : Subject) (s t : S)
      (r : Run)
      → db.find_subject input.subject_id s ≡ some subject
      → start_for db select_version now id input subject s ≡ (ok r, t)
      → IsAdmitted now id input s t r
  unfolding start_for
  start_for_ok select_version now id input subject s t r of_subject h =
      elim (Outcome-cases (chosen_version db select_version input subject s)) [
        | inl (e, refused) ↦ absurd (cc (rw (refused, start_for) at h))
        | inr (version_id, chosen) ↦
            start_with_ok now id input subject version_id s t r of_subject
              (rw (chosen, start_for) at h)
      ]

  -- A run is opened only for a subject that exists and a published version of the subject's kind,
  -- while no active run of this subject and version is in the table. It is then a new queued row
  -- with the fields of the request; no other row changes.
  pub start_run_ok :
      (select_version : Selector) (now id : ℕ) (input : StartRunInput) (s t : S) (r : Run)
      → start_run db select_version now id input s ≡ (ok r, t)
      → IsAdmitted now id input s t r
  unfolding start_run
  start_run_ok select_version now id input s t r h =
      elim (Option-cases (db.find_subject input.subject_id s)) [
        | inl missing ↦ absurd (cc (rw (missing, start_run) at h))
        | inr (subject, found) ↦
            start_for_ok select_version now id input subject s t r found
              (rw (found, start_run) at h)
      ]

  create_blocked :
      (r q : Run) (s : S) → find q.id s ≡ some q → clashes r q ≡ true → db.create r s ≡ none
  create_blocked r q s found clash = elim (Option-cases (db.create r s)) [
    | inl refused ↦ refused
    | inr (t, made) ↦ absurd (cc (db.create_unique r q s t q.id made found, clash))
  ]

  -- While a queued or running run of the subject and the chosen version is in the table, a request
  -- that is otherwise in order gets the conflict that names the two, and nothing is written. This
  -- holds whether the request names the version or the provider and the published version of that
  -- key decide it.
  pub start_run_conflict :
      (select_version : Selector) (now id version_id : ℕ) (input : StartRunInput)
      (subject : Subject) (version : RuleSetVersion) (at : ℕ) (q : Run) (s : S)
      → db.find_subject input.subject_id s ≡ some subject
      → chosen_version db select_version input subject s ≡ ok version_id
      → db.find_version version_id s ≡ some version
      → version.published_at ≡ some at
      → version.kind ≡ subject.kind
      → find q.id s ≡ some q
      → clashes (new_run now id version_id input) q ≡ true
      → start_run db select_version now id input s
        ≡ (throw (http conflict (run_already_active input.subject_id version_id)), s)
  unfolding start_run start_for start_with create_run require_published_version
  start_run_conflict select_version now id version_id input subject version at q s of_subject chosen
        of_version published kind found clash =
      let same = (eq_iff version.kind subject.kind).1 kind in
      let blocked = create_blocked (new_run now id version_id input) q s found clash in
      rw
        (
          start_run, of_subject, start_for, chosen, start_with, require_published_version,
          of_version, published, same, create_run, blocked,
        )
        refl

  create_admits :
      (r : Run) (s : S)
      → find r.id s ≡ none
      → ((q : Run) → find q.id s ≡ some q → clashes r q ≡ false)
      → (t : S) × (db.create r s ≡ some t)
  create_admits r s fresh alone = elim (Option-cases (db.create r s)) [
    | inr made ↦ made
    | inl refused ↦
        let (q, found, taken) = db.create_refused r s refused in
        elim (Bool-cases (q.id == r.id)) [
          | inl same ↦
              let e : q.id ≡ r.id = (==_iff q.id r.id).0 same in absurd (cc (rw e at found, fresh))
          | inr other ↦ absurd (cc (rw other at taken, alone q found))
        ]
  ]

  -- A request for an existing subject and a published version of its kind is never refused
  -- while no active run of the two is in the table and the new row's id is not taken: it succeeds,
  -- and answers with a queued run of the request's fields.
  pub start_run_admits :
      (select_version : Selector) (now id version_id : ℕ) (input : StartRunInput)
      (subject : Subject) (version : RuleSetVersion) (at : ℕ) (s : S)
      → db.find_subject input.subject_id s ≡ some subject
      → chosen_version db select_version input subject s ≡ ok version_id
      → db.find_version version_id s ≡ some version
      → version.published_at ≡ some at
      → version.kind ≡ subject.kind
      → find id s ≡ none
      → ((q : Run) → find q.id s ≡ some q → clashes (new_run now id version_id input) q ≡ false)
      → (start_run db select_version now id input s).0 ≡ ok (new_run now id version_id input)
  unfolding start_run start_for start_with create_run require_published_version
  start_run_admits select_version now id version_id input subject version at s of_subject chosen
        of_version published kind fresh alone =
      let same = (eq_iff version.kind subject.kind).1 kind in
      let (t, made) = create_admits (new_run now id version_id input) s fresh alone in
      rw
        (
          start_run, of_subject, start_for, chosen, start_with, require_published_version,
          of_version, published, same, create_run, made,
        )
        refl
