-- ===== src/Evaluation/Errors.antt =====
-- The exceptions of packages/modules/evaluation. A built-in HTTP exception is its status with the
-- ids that its message quotes; the other words of a message are left out. An `Error` is its
-- message, any other thrown value is its text. Texts that are stored are lists of UTF-16 code
-- units.
use newbie_modules.Common.{ℕ, Bool, String, List, ◌≡◌, ◌⊎◌, inl, inr, refl}
use newbie_modules.Evaluation.Contracts.{Problem}

abbrev pub Text : Type 0
Text = List ℕ

pub data HttpStatus : Type 0 where
  bad_request not_found conflict : HttpStatus

pub data CheckpointProblem : Type 0 where
  description_blank status_blank date_invalid : (index : ℕ) → CheckpointProblem

pub data Reason : Type 0 where
  subject_missing : (id : ℕ) → Reason
  run_missing : (id : ℕ) → Reason
  run_already_active : (subject_id version_id : ℕ) → Reason
  run_not_markable : (id : ℕ) → Reason
  run_inactive : (id : ℕ) → Reason
  run_restarted : (id : ℕ) → Reason
  run_of_other_kind : (id : ℕ) (kind : String) → Reason
  version_missing : (id : ℕ) → Reason
  version_draft : (id : ℕ) → Reason
  version_published : (id : ℕ) → Reason
  version_empty : (id : ℕ) → Reason
  criterion_missing : (id : ℕ) → Reason
  version_of_other_kind : (id : ℕ) (kind : String) → Reason
  version_not_applicable : (subject_id : ℕ) → Reason
  version_not_published : (evaluation_key version : String) → Reason
  problems : List Problem → Reason
  finding_missing : (id : ℕ) → Reason
  suppression_note_required : Reason
  suppressed_by_required : Reason
  run_finished : (id : ℕ) → Reason
  result_exists : (run_id : ℕ) → Reason
  result_missing : (id : ℕ) → Reason
  review_note_required : Reason
  result_of_other_kind : (id : ℕ) (kind : String) → Reason
  run_unconcluded : (run_id : ℕ) → Reason
  run_unconcluded_for : (run_id : ℕ) (kind : String) → Reason
  plan_missing : (id : ℕ) → Reason
  plan_decided : (id : ℕ) (completed : Bool) → Reason
  plan_overtaken : (id : ℕ) → Reason
  decided_by_required : Reason
  plan_decider_required : Reason
  triggers_required : Reason
  due_date_early : Reason
  checkpoint_problems : List CheckpointProblem → Reason
  triggers_unknown : (subject_id : ℕ) → List ℕ → Reason
  checkpoint_status_required : Reason
  checkpoint_missing : (id index : ℕ) → Reason

pub data Exception : Type 0 where
  http : HttpStatus → Reason → Exception
  error : (message : Text) → Exception
  other : (text : Text) → Exception

-- What an `async` method settles with.
pub data Outcome {ℓ} (A : Type ℓ) : Type ℓ where
  ok : A → Outcome A
  throw : Exception → Outcome A

pub Outcome-cases {ℓ} :
    {A : Type ℓ} (o : Outcome A) → ((e : Exception) × (o ≡ throw e)) ⊎ ((a : A) × (o ≡ ok a))
Outcome-cases (ok a) = inr (a, refl)
Outcome-cases (throw e) = inl (e, refl)
