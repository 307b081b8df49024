-- ===== src/Evaluation/Criteria/Service.antt =====
-- `EvaluationCriteriaService` of evaluation/evaluation-criteria.service.ts. A transaction that holds
-- the lock of the version's row is one step. The opaque `metadata` is left out.
use newbie_modules.Common.{
  ℕ, ◌≡◌, String, Bool, true, false, Option, none, some, [], ◌∷◌, ◌==◌, if◌then◌else◌,
}
use newbie_modules.Common.Table.{Table}
use newbie_modules.Evaluation.Contracts.{CriterionKind}
use newbie_modules.Evaluation.Errors.{
  bad_request, not_found, conflict, http, error, Outcome, ok, throw, version_missing,
  version_published, version_empty, criterion_missing,
}

pub record Version : Type 0 where
  pub id : ℕ
  pub kind : String
  pub evaluation_key : String
  pub version : String
  pub description : Option String
  pub published_at : Option ℕ

pub record Criterion : Type 0 where
  pub id : ℕ
  pub rule_set_version_id : ℕ
  pub criterion_key : String
  pub kind : CriterionKind
  pub name : String
  pub description : Option String

pub record CreateVersionInput : Type 0 where
  pub kind : String
  pub evaluation_key : String
  pub version : String
  pub description : Option String

pub record CreateCriterionInput : Type 0 where
  pub criterion_key : String
  pub kind : CriterionKind
  pub name : String
  pub description : Option String

pub record UpdateCriterionInput : Type 0 where
  pub name : Option String
  pub description : Option String

-- The two tables of the database. A row that is created has an id that is not taken; a unique
-- violation is an error that the service passes on. No write of one table changes the other.
pub record CriteriaDb (S : Type 0) : Type 0 where
  pub versions : Table S Version (λ v. v.id)
  pub criteria : Table S Criterion (λ c. c.id)
  pub create_version : Version → S → Option S
  pub create_criterion : Criterion → S → Option S
  pub delete_criterion : ℕ → S → S
  pub find-create_version :
      (v : Version) (s t : S) (j : ℕ)
      → create_version v s ≡ some t
      → versions.find j t ≡ (if v.id == j then some v else versions.find j s)
  pub create_version_fresh :
      (v : Version) (s t : S) → create_version v s ≡ some t → versions.find v.id s ≡ none
  pub find-create_criterion :
      (c : Criterion) (s t : S) (j : ℕ)
      → create_criterion c s ≡ some t
      → criteria.find j t ≡ (if c.id == j then some c else criteria.find j s)
  pub create_criterion_fresh :
      (c : Criterion) (s t : S) → create_criterion c s ≡ some t → criteria.find c.id s ≡ none
  pub find-delete_criterion :
      (id : ℕ) (s : S) (j : ℕ)
      → criteria.find j (delete_criterion id s) ≡ (if id == j then none else criteria.find j s)
  pub criteria-create_version :
      (v : Version) (s t : S) (j : ℕ)
      → create_version v s ≡ some t
      → criteria.find j t ≡ criteria.find j s
  pub criteria-update_version :
      (id : ℕ) (p : Version → Bool) (f : Version → Version) (s : S) (j : ℕ)
      → criteria.find j (versions.update_many id p f s).0 ≡ criteria.find j s
  pub versions-create_criterion :
      (c : Criterion) (s t : S) (j : ℕ)
      → create_criterion c s ≡ some t
      → versions.find j t ≡ versions.find j s
  pub versions-update_criterion :
      (id : ℕ) (p : Criterion → Bool) (f : Criterion → Criterion) (s : S) (j : ℕ)
      → versions.find j (criteria.update_many id p f s).0 ≡ versions.find j s
  pub versions-delete_criterion :
      (id : ℕ) (s : S) (j : ℕ) → versions.find j (delete_criterion id s) ≡ versions.find j s

-- `isRuleSetVersionMutable`
abbrev pub is_mutable : Option ℕ → Bool
is_mutable none = true
is_mutable (some at) = false

abbrev pub is_draft : Version → Bool
is_draft v = is_mutable v.published_at

-- The `data` of each write; an `undefined` column is not written.
abbrev pub or_else {ℓ} : {A : Type ℓ} → Option A → A → A
or_else none kept = kept
or_else (some a) kept = a

abbrev pub set_description : Option String → Option String → Option String
set_description none kept = kept
set_description (some text) kept = some text

abbrev pub described : Option String → Version → Version
described description v = record v { description = set_description description v.description }

abbrev pub as_published : ℕ → Version → Version
as_published now v = record v { published_at = some now }

abbrev pub edited : UpdateCriterionInput → Criterion → Criterion
edited input c = record c {
  name = or_else input.name c.name;
  description = set_description input.description c.description;
}

abbrev pub new_version : CreateVersionInput → ℕ → Version
new_version input id = record {
  id = id;
  kind = input.kind;
  evaluation_key = input.evaluation_key;
  version = input.version;
  description = input.description;
  published_at = none;
}

abbrev pub new_criterion : ℕ → CreateCriterionInput → ℕ → Criterion
new_criterion version_id input id = record {
  id = id;
  rule_set_version_id = version_id;
  criterion_key = input.criterion_key;
  kind = input.kind;
  name = input.name;
  description = input.description;
}

abbrev pub belongs_to : ℕ → Criterion → Bool
belongs_to version_id c = c.rule_set_version_id == version_id

module _ {S : Type 0} (db : CriteriaDb S) where
  unfoldable pub require_version : ℕ → S → Outcome Version
  require_version id s = elim (db.versions.find id s) [
    | none ↦ throw (http not_found (version_missing id))
    | some v ↦ ok v
  ]

  -- `lockDraftVersion`, within the transaction.
  unfoldable pub lock_draft_version : ℕ → S → Outcome Version
  lock_draft_version id s = elim (db.versions.find id s) [
    | none ↦ throw (http not_found (version_missing id))
    | some v ↦ if is_draft v then ok v else throw (http conflict (version_published id))
  ]

  -- The database's own error on a unique violation; its text is left out.
  unfoldable pub add_version : CreateVersionInput → ℕ → S → Outcome Version × S
  add_version input id s = elim (db.create_version (new_version input id) s) [
    | none ↦ (throw (error []), s)
    | some t ↦ (ok (new_version input id), t)
  ]

  -- `assertNotPublished` always throws.
  unfoldable pub assert_not_published : ℕ → S → Outcome Version
  assert_not_published id s = elim (db.versions.find id s) [
    | none ↦ throw (http not_found (version_missing id))
    | some v ↦ throw (http conflict (version_published id))
  ]

  unfoldable pub update_version : ℕ → Option String → S → Outcome Version × S
  update_version id description s =
      let (t, count) = db.versions.update_many id is_draft (described description) s in
      if count == 0 then (assert_not_published id t, t) else (require_version id t, t)

  unfoldable pub publish_version : ℕ → ℕ → S → Outcome Version × S
  publish_version now id s =
      let t = (db.versions.update_many id (λ v. true) (as_published now) s).0 in
      elim (lock_draft_version id s) [
        | throw e ↦ (throw e, s)
        | ok v ↦ elim (db.criteria.find_many (belongs_to id) s) [
          | [] ↦ (throw (http bad_request (version_empty id)), s)
          | c ∷ cs ↦ (require_version id t, t)
        ]
      ]

  unfoldable pub add_criterion : ℕ → CreateCriterionInput → ℕ → S → Outcome Criterion × S
  add_criterion version_id input id s = elim (lock_draft_version version_id s) [
    | throw e ↦ (throw e, s)
    | ok v ↦ elim (db.create_criterion (new_criterion version_id input id) s) [
      | none ↦ (throw (error []), s)
      | some t ↦ (ok (new_criterion version_id input id), t)
    ]
  ]

  unfoldable pub update_criterion : ℕ → UpdateCriterionInput → S → Outcome Criterion × S
  update_criterion id input s = elim (db.criteria.find id s) [
    | none ↦ (throw (http not_found (criterion_missing id)), s)
    | some c ↦ elim (lock_draft_version c.rule_set_version_id s) [
      | throw e ↦ (throw e, s)
      | ok v ↦ (ok (edited input c), (db.criteria.update_many id (λ c. true) (edited input) s).0)
    ]
  ]

  unfoldable pub remove_criterion : ℕ → S → Outcome (Unit {0}) × S
  remove_criterion id s = elim (db.criteria.find id s) [
    | none ↦ (throw (http not_found (criterion_missing id)), s)
    | some c ↦ elim (lock_draft_version c.rule_set_version_id s) [
      | throw e ↦ (throw e, s)
      | ok v ↦ (ok tt, db.delete_criterion id s)
    ]
  ]
