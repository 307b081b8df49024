-- ===== src/Evaluation/Remediation/Freezing.antt =====
-- What the writes of evaluation/evaluation-remediation.service.ts keep of a plan.
use newbie_modules.Common.{
  ℕ, ◌≡◌, refl, ap, ◌∙◌, true, false, List, ◌==◌, Bool-cases, length, ltb, inl, inr,
}
use newbie_modules.Common.Table.{Table}
use newbie_modules.Common.Evolution.{Keeps, update_many-Keeps}
use newbie_modules.Evaluation.Errors.{Text, Outcome-cases}
use newbie_modules.Evaluation.Finding.State.{is_blank}
use newbie_modules.Evaluation.Remediation.Service.{
  Plan, Checkpoint, DecideInput, is_undecided, as_decided, as_progressed, checkpoints_of,
  set_status, require_plan, decide_plan, write_checkpoints, progress, update_checkpoint,
}

-- What a plan keeps: all of it once it is decided, else what it was created with.
pub record Lives (p q : Plan) : Type 0 where
  pub decided : is_undecided p ≡ false → q ≡ p
  pub id : q.id ≡ p.id
  pub subject : q.subject_id ≡ p.subject_id
  pub triggers : q.trigger_refs ≡ p.trigger_refs
  pub decider : q.decider_ref ≡ p.decider_ref
  pub start : q.start_date ≡ p.start_date
  pub due : q.due_date ≡ p.due_date

pub Lives-refl : (p : Plan) → Lives p p
Lives-refl p = record {
  decided = λ h. refl;
  id = refl;
  subject = refl;
  triggers = refl;
  decider = refl;
  start = refl;
  due = refl;
}

Lives-trans : (p q r : Plan) → Lives p q → Lives q r → Lives p r
Lives-trans p q r a b = record {
  decided = λ h. b.decided (ap is_undecided (a.decided h) ∙ h) ∙ a.decided h;
  id = b.id ∙ a.id;
  subject = b.subject ∙ a.subject;
  triggers = b.triggers ∙ a.triggers;
  decider = b.decider ∙ a.decider;
  start = b.start ∙ a.start;
  due = b.due ∙ a.due;
}

decided-Lives :
    (now : ℕ) (input : DecideInput) (p : Plan)
    → is_undecided p ≡ true
    → Lives p (as_decided now input p)
decided-Lives now input p h = record {
  decided = λ k. absurd (cc);
  id = refl;
  subject = refl;
  triggers = refl;
  decider = refl;
  start = refl;
  due = refl;
}

progressed-Lives :
    (cs : List Checkpoint) (p : Plan) → is_undecided p ≡ true → Lives p (as_progressed cs p)
progressed-Lives cs p h = record {
  decided = λ k. absurd (cc);
  id = refl;
  subject = refl;
  triggers = refl;
  decider = refl;
  start = refl;
  due = refl;
}

module _ {S : Type 0} (table : Table S Plan (λ p. p.id)) (others : S → S)
    (lawful : (s : S) → Keeps table Lives s (others s)) where
  open table use {find, update_many}

  same : (s : S) → Keeps table Lives s s
  same s j p found = (p, found, Lives-refl p)

  then_others : (s t : S) → Keeps table Lives s t → Keeps table Lives s (others t)
  then_others s t keeps j p found =
      let (q, mid, a) = keeps j p found in
      let (r, after, b) = lawful t j q mid in (r, after, Lives-trans p q r a b)

  decide-Keeps :
      (now id : ℕ) (input : DecideInput) (s : S)
      → Keeps table Lives s (update_many id is_undecided (as_decided now input) s).0
  decide-Keeps now id input s =
      update_many-Keeps table Lives Lives-refl is_undecided (as_decided now input) (λ p. refl)
        (decided-Lives now input) id s

  progress_write-Keeps :
      (id : ℕ) (cs : List Checkpoint) (s : S)
      → Keeps table Lives s (update_many id is_undecided (as_progressed cs) s).0
  progress_write-Keeps id cs s =
      update_many-Keeps table Lives Lives-refl is_undecided (as_progressed cs) (λ p. refl)
        (progressed-Lives cs) id s

  decide_plan-Keeps :
      (now id : ℕ) (input : DecideInput) (s : S)
      → Keeps table Lives s (decide_plan table others now id input s).1
  unfolding decide_plan
  decide_plan-Keeps now id input s =
      let written = update_many id is_undecided (as_decided now input) s in
      let after = then_others s written.0 (decide-Keeps now id input s) in
      elim (Bool-cases (is_blank input.decided_by_ref)) [
        | inl blank ↦ rw (blank, decide_plan) (same s)
        | inr named ↦ elim (Bool-cases (written.1 == 0)) [
          | inl missed ↦ rw (named, decide_plan, missed) after
          | inr hit ↦ rw (named, decide_plan, hit) after
        ]
      ]

  write_checkpoints-Keeps :
      (id : ℕ) (cs : List Checkpoint) (s : S)
      → Keeps table Lives s (write_checkpoints table others id cs s).1
  unfolding write_checkpoints
  write_checkpoints-Keeps id cs s =
      let written = update_many id is_undecided (as_progressed cs) s in
      let wrote = progress_write-Keeps id cs s in
      elim (Bool-cases (written.1 == 0)) [
        | inl missed ↦ rw (missed, write_checkpoints) wrote
        | inr hit ↦ rw (hit, write_checkpoints) (then_others s written.0 wrote)
      ]

  progress-Keeps :
      (id index : ℕ) (status : Text) (p : Plan) (s : S)
      → Keeps table Lives s (progress table others id index status p s).1
  unfolding progress
  progress-Keeps id index status p s = elim (Bool-cases (is_undecided p)) [
    | inr closed ↦ rw (closed, progress) (same s)
    | inl free ↦ elim (Bool-cases (ltb index (length (checkpoints_of p)))) [
      | inr outside ↦ rw (free, progress, outside) (same s)
      | inl inside ↦
          rw (free, progress, inside)
            (λ j q found.
              let (r, mid, a) = lawful s j q found in
              let (w, after, b) =
                write_checkpoints-Keeps id (set_status index status (checkpoints_of p)) (others s) j
                  r mid in
              (w, after, Lives-trans q r w a b))
    ]
  ]

  update_checkpoint-Keeps :
      (id index : ℕ) (status : Text) (s : S)
      → Keeps table Lives s (update_checkpoint table others id index status s).1
  unfolding update_checkpoint
  update_checkpoint-Keeps id index status s = elim (Bool-cases (is_blank status)) [
    | inl blank ↦ rw (blank, update_checkpoint) (same s)
    | inr named ↦ elim (Outcome-cases (require_plan table id s)) [
      | inl (e, refused) ↦ rw (named, update_checkpoint, refused) (same s)
      | inr (p, there) ↦ rw (named, update_checkpoint, there) (progress-Keeps id index status p s)
    ]
  ]

  -- Whatever a decision and a progress call find, a plan that is decided stays exactly as it is, and
  -- an open one keeps what it was created with, if the other processes keep that too in between.
  pub calls-Keeps :
      (now id index : ℕ) (input : DecideInput) (status : Text) (s : S)
      → Keeps table Lives s (decide_plan table others now id input s).1
        × Keeps table Lives s (update_checkpoint table others id index status s).1
  calls-Keeps now id index input status s =
      (decide_plan-Keeps now id input s, update_checkpoint-Keeps id index status s)
