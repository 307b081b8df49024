-- ===== src/Evaluation/Subject.antt =====
-- `EvaluationSubjectService` of evaluation/evaluation-subject.service.ts. The database's `upsert`
-- and the host's provider are parameters; the opaque `metadata` is left out.
use newbie_modules.Common.{ℕ, zero, suc, ◌≡◌, ap, ◌∙◌, String, Option, none, some, List, [], ◌∷◌}
use newbie_modules.Evaluation.Errors.{not_found, http, Outcome, ok, throw, subject_missing}

pub record Scope : Type 0 where
  pub scope_type : String
  pub scope_id : String

pub record SubjectDescriptor : Type 0 where
  pub kind : String
  pub scope : Scope
  pub subject_key : String
  pub display_name : String

pub record SubjectRef : Type 0 where
  pub id : ℕ
  pub descriptor : SubjectDescriptor

-- The natural key of a subject.
pub record SubjectKey : Type 0 where
  pub kind : String
  pub scope : Scope
  pub subject_key : String

abbrev pub key_of : SubjectDescriptor → SubjectKey
key_of d = record { kind = d.kind; scope = d.scope; subject_key = d.subject_key }

abbrev pub renamed : SubjectDescriptor → SubjectRef → SubjectRef
renamed d r = record {
  id = r.id;
  descriptor = record {
    kind = r.descriptor.kind;
    scope = r.descriptor.scope;
    subject_key = r.descriptor.subject_key;
    display_name = d.display_name;
  };
}

abbrev pub upserted : SubjectRef → (SubjectRef → SubjectRef) → Option SubjectRef → SubjectRef
upserted new change none = new
upserted new change (some old) = change old

-- `upsert` updates the row of the key, or creates one if there is none, and answers it.
pub record SubjectDb (S : Type 0) : Type 0 where
  pub find : ℕ → S → Option SubjectRef
  pub find_key : SubjectKey → S → Option SubjectRef
  pub upsert : SubjectKey → SubjectRef → (SubjectRef → SubjectRef) → S → SubjectRef × S
  pub upsert_row :
      (k : SubjectKey) (new : SubjectRef) (change : SubjectRef → SubjectRef) (s : S)
      → (upsert k new change s).0 ≡ upserted new change (find_key k s)
  pub find_key-upsert :
      (k : SubjectKey) (new : SubjectRef) (change : SubjectRef → SubjectRef) (s : S)
      → find_key k (upsert k new change s).1 ≡ some (upsert k new change s).0

module _ {S : Type 0} (db : SubjectDb S) where
  -- `id` is the UUID that a new row gets.
  unfoldable pub get_or_create_subject : ℕ → SubjectDescriptor → S → SubjectRef × S
  get_or_create_subject id d s =
      db.upsert (key_of d) (record { id = id; descriptor = d }) (renamed d) s

  -- One order of the upserts that `Promise.all` starts; `ids i` is the id of the round `i`.
  unfoldable pub get_or_create_subjects :
      (ℕ → ℕ) → ℕ → List SubjectDescriptor → S → List SubjectRef × S
  get_or_create_subjects ids i [] s = ([], s)
  get_or_create_subjects ids i (d ∷ ds) s =
      let (r, t) = get_or_create_subject (ids i) d s in
      let (rs, u) = get_or_create_subjects ids (suc i) ds t in (r ∷ rs, u)

  unfoldable pub sync_subjects :
      (Scope → String → List SubjectDescriptor) → (ℕ → ℕ) → Scope → String → S → List SubjectRef × S
  sync_subjects provider ids scope kind s = get_or_create_subjects ids zero (provider scope kind) s

  unfoldable pub get_subject : ℕ → S → Outcome SubjectRef
  get_subject id s = elim (db.find id s) [
    | none ↦ throw (http not_found (subject_missing id))
    | some r ↦ ok r
  ]

  -- The same natural key gives the same row again, whatever new id is offered.
  pub get_or_create_subject_again :
      (id other : ℕ) (d : SubjectDescriptor) (s : S)
      → let (r, t) = get_or_create_subject id d s in (get_or_create_subject other d t).0.id ≡ r.id
  unfolding get_or_create_subject
  get_or_create_subject_again id other d s =
      let new : SubjectRef = record { id = id; descriptor = d } in
      let t = (db.upsert (key_of d) new (renamed d) s).1 in
      ap (λ r. r.id)
        (db.upsert_row (key_of d) (record { id = other; descriptor = d }) (renamed d) t)
      ∙ ap (λ o. (upserted (record { id = other; descriptor = d }) (renamed d) o).id)
          (db.find_key-upsert (key_of d) new (renamed d) s)
