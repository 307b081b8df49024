-- ===== src/Evaluation/Finding/State.antt =====
-- The rows that evaluation/evaluation-finding.service.ts reads and writes, and what it relies on of
-- the database. The opaque `metadata` of a finding is left out.
use newbie_modules.Common.{
  ℕ, String, Bool, true, false, ◌&&◌, ◌||◌, Option, none, some, List, ◌==◌, leb, if◌then◌else◌, all,
  str_eq, ◌≡◌,
}
use newbie_modules.Common.Table.{Table}
use newbie_modules.Evaluation.Contracts.{CriterionRef}
use newbie_modules.Evaluation.Errors.{Text}
use newbie_modules.Evaluation.Run.State.{Run}

pub data FindingStatus : Type 0 where
  open_status resolved_status suppressed_status : FindingStatus

pub record Finding : Type 0 where
  pub id : ℕ
  pub subject_id : ℕ
  pub evaluation_key : String
  pub fingerprint : String
  pub criterion_key : String
  pub severity : String
  pub status : FindingStatus
  pub title : String
  pub detail : Option String
  pub first_seen_run_id : ℕ
  pub last_seen_run_id : ℕ
  pub first_seen_at : ℕ
  pub last_seen_at : ℕ
  pub resolved_at : Option ℕ
  pub suppression_note : Option Text
  pub suppressed_by_ref : Option Text

pub data Change : Type 0 where
  created reopened resolved suppressed : Change

-- A call of the observer: the finding's id, its coordinates and what happened.
pub record ChangedEvent : Type 0 where
  pub finding_id : ℕ
  pub subject_id : ℕ
  pub evaluation_key : String
  pub fingerprint : String
  pub severity : String
  pub change : Change

abbrev pub eq_status : FindingStatus → FindingStatus → Bool
eq_status open_status open_status = true
eq_status resolved_status resolved_status = true
eq_status suppressed_status suppressed_status = true
eq_status open_status resolved_status = false
eq_status open_status suppressed_status = false
eq_status resolved_status open_status = false
eq_status resolved_status suppressed_status = false
eq_status suppressed_status open_status = false
eq_status suppressed_status resolved_status = false

abbrev pub is_open : Finding → Bool
is_open f = eq_status f.status open_status

-- `run.startedAt ?? run.createdAt`
abbrev pub observed_at : Run → ℕ
observed_at run = elim run.started_at [ none ↦ run.created_at | some at ↦ at ]

-- The code units that `String.prototype.trim` strips.
abbrev pub is_space : ℕ → Bool
is_space c =
    leb 9 c && leb c 13
    || (c == 32
        || (c == 160
            || (c == 5760
                || (leb 8192 c && leb c 8202
                    || (c == 8232
                        || (c == 8233
                            || (c == 8239 || (c == 8287 || (c == 12288 || c == 65279)))))))))

-- `!text.trim()`
abbrev pub is_blank : Text → Bool
is_blank text = all is_space text

abbrev pub has_key : ℕ → String → String → Finding → Bool
has_key subject_id evaluation_key fingerprint f =
    f.subject_id == subject_id
    && (str_eq f.evaluation_key evaluation_key && str_eq f.fingerprint fingerprint)

-- The database, as the finding service uses it: a unique key over the subject, the evaluation key
-- and the fingerprint. `create` fails with a unique violation exactly if the id or the key is
-- taken.
pub record FindingDb (S : Type 0) : Type 0 where
  pub findings : Table S Finding (λ f. f.id)
  pub find_by_key : (subject_id : ℕ) (evaluation_key fingerprint : String) → S → Option Finding
  pub create : Finding → S → Option S
  -- `criteria.getVersion(id).evaluationKey`, a read.
  pub find_evaluation_key : ℕ → S → Option String
  -- `criteria.listCriteria(id)`, a read.
  pub list_criteria : ℕ → S → List CriterionRef
  pub find_by_key_sound :
      (subject_id : ℕ) (evaluation_key fingerprint : String) (s : S) (f : Finding)
      → find_by_key subject_id evaluation_key fingerprint s ≡ some f
      → (findings.find f.id s ≡ some f) × (has_key subject_id evaluation_key fingerprint f ≡ true)
  pub find_by_key_missing :
      (subject_id : ℕ) (evaluation_key fingerprint : String) (s : S) (f : Finding)
      → find_by_key subject_id evaluation_key fingerprint s ≡ none
      → findings.find f.id s ≡ some f
      → has_key subject_id evaluation_key fingerprint f ≡ false
  pub find-create :
      (f : Finding) (s t : S) (j : ℕ)
      → create f s ≡ some t
      → findings.find j t ≡ (if f.id == j then some f else findings.find j s)
  pub create_fresh : (f : Finding) (s t : S) → create f s ≡ some t → findings.find f.id s ≡ none
  pub create_refused :
      (f : Finding) (s : S)
      → create f s ≡ none
      → (g : Finding) × (findings.find g.id s ≡ some g)
        × ((if g.id == f.id then true else has_key f.subject_id f.evaluation_key f.fingerprint g)
            ≡ true)
