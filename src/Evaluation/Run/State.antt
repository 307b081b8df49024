-- ===== src/Evaluation/Run/State.antt =====
-- The rows that evaluation/evaluation-run.service.ts reads and writes, and what it relies on of the
-- database and of the feature's criteria provider.
use Prim.Native.Char.{code}
use newbie_modules.Common.{
  ℕ, ◌*◌, String, ◌≡◌, Bool, true, false, ◌&&◌, Option, none, some, [], ◌∷◌, ◌==◌, if◌then◌else◌,
  take,
}
use newbie_modules.Common.Table.{Table}
use newbie_modules.Evaluation.Errors.{Text, HttpStatus, Reason, Exception, http, error, other}

pub data RunStatus : Type 0 where
  queued running succeeded failed : RunStatus

pub record Run : Type 0 where
  pub id : ℕ
  pub subject_id : ℕ
  pub rule_set_version_id : ℕ
  pub requested_by_ref : Option String
  pub status : RunStatus
  pub error : Option Text
  pub started_at : Option ℕ
  pub finished_at : Option ℕ
  pub created_at : ℕ
  pub updated_at : ℕ

pub record Subject : Type 0 where
  pub id : ℕ
  pub kind : String

pub record RuleSetVersion : Type 0 where
  pub id : ℕ
  pub kind : String
  pub evaluation_key : String
  pub version : String
  pub published_at : Option ℕ

pub record StartRunInput : Type 0 where
  pub subject_id : ℕ
  pub rule_set_version_id : Option ℕ
  pub requested_by_ref : Option String

abbrev pub max_error_length : ℕ
max_error_length = 1000

abbrev pub default_stale_run_timeout_ms : ℕ
default_stale_run_timeout_ms = 30 * 60 * 1000

abbrev pub codes : String → Text
codes String.[] = []
codes (String.◌∷◌ c s) = code c ∷ codes s

pub stale_run_error : Text
stale_run_error = codes "Run abandoned: no progress within the timeout window (process restart?)"

-- `ACTIVE_STATUSES.includes(status)`
abbrev pub is_active_status : RunStatus → Bool
is_active_status queued = true
is_active_status running = true
is_active_status succeeded = false
is_active_status failed = false

abbrev pub is_active : Run → Bool
is_active r = is_active_status r.status

abbrev pub is_queued : Run → Bool
is_queued r = elim r.status [ queued ↦ true | _ ↦ false ]

-- `status in ACTIVE_STATUSES` and `updatedAt: candidate.updatedAt`.
abbrev pub is_untouched : Run → Run → Bool
is_untouched candidate r = is_active r && r.updated_at == candidate.updated_at

abbrev pub eq_option : Option ℕ → Option ℕ → Bool
eq_option none none = true
eq_option (some a) (some b) = a == b
eq_option none (some b) = false
eq_option (some a) none = false

-- `describeError`: the payload of a built-in HTTP exception is serialised by the framework.
abbrev pub describe_error : (HttpStatus → Reason → Text) → Exception → Text
describe_error response_text (http status reason) = response_text status reason
describe_error response_text (error message) = message
describe_error response_text (other text) = text

unfoldable pub format_run_error : (HttpStatus → Reason → Text) → Exception → Text
format_run_error response_text e = take max_error_length (describe_error response_text e)

-- Two active rows of one subject and one version.
abbrev pub clashes : Run → Run → Bool
clashes r q =
    is_active q && (r.subject_id == q.subject_id && r.rule_set_version_id == q.rule_set_version_id)

-- The database, as the run service uses it. `create` fails with a unique violation exactly if the
-- id is taken or the partial unique index is violated: an active row of the subject and version is
-- there. Subjects and versions are only read.
pub record RunDb (S : Type 0) : Type 0 where
  pub runs : Table S Run (λ r. r.id)
  pub find_subject : ℕ → S → Option Subject
  pub find_version : ℕ → S → Option RuleSetVersion
  pub find_published : (kind evaluation_key version : String) → S → Option RuleSetVersion
  pub create : Run → S → Option S
  pub find-create :
      (r : Run) (s t : S) (j : ℕ)
      → create r s ≡ some t
      → runs.find j t ≡ (if r.id == j then some r else runs.find j s)
  pub create_fresh : (r : Run) (s t : S) → create r s ≡ some t → runs.find r.id s ≡ none
  pub create_unique :
      (r q : Run) (s t : S) (j : ℕ)
      → create r s ≡ some t
      → runs.find j s ≡ some q
      → clashes r q ≡ false
  pub create_refused :
      (r : Run) (s : S)
      → create r s ≡ none
      → (q : Run) × (runs.find q.id s ≡ some q)
        × ((if q.id == r.id then true else clashes r q) ≡ true)
  pub find_published_sound :
      (kind key version : String) (s : S) (v : RuleSetVersion)
      → find_published kind key version s ≡ some v
      → (find_version v.id s ≡ some v) × (v.kind ≡ kind) × (v.published_at ≡ none → ⊥)
