-- ===== src/Evaluation/Finding/Writes.antt =====
-- What each write of evaluation/evaluation-finding.service.ts does to a row.
use newbie_modules.Common.{
  ℕ, ◌≡◌, ◌≢◌, refl, ap, ◌∙◌, true, false, none, arith, Bool-cases, inl, inr,
}
use newbie_modules.Evaluation.Contracts.{FindingCandidate}
use newbie_modules.Evaluation.Errors.{Text}
use newbie_modules.Evaluation.Run.State.{Run}
use newbie_modules.Evaluation.Finding.State.{
  Finding, open_status, resolved_status, suppressed_status, eq_status,
}
use newbie_modules.Evaluation.Finding.Data.{
  as_observed, as_reopened, as_resolved, as_suppressed, is_resolved, same_status, observation,
  is_unseen,
}

-- What never changes of a finding: its identity and when it was first seen.
pub record KeepsIdentity (f g : Finding) : Type 0 where
  pub id : g.id ≡ f.id
  pub subject : g.subject_id ≡ f.subject_id
  pub key : g.evaluation_key ≡ f.evaluation_key
  pub fingerprint : g.fingerprint ≡ f.fingerprint
  pub first_run : g.first_seen_run_id ≡ f.first_seen_run_id
  pub first_seen : g.first_seen_at ≡ f.first_seen_at

-- A suppressed finding stays suppressed, with its note and its actor.
abbrev pub KeepsSuppression : Finding → Finding → Type 0
KeepsSuppression f g =
    f.status ≡ suppressed_status
    → (g.status ≡ suppressed_status)
      × (g.suppression_note ≡ f.suppression_note)
      × (g.suppressed_by_ref ≡ f.suppressed_by_ref)

-- The columns of the three states: an open finding has no time of resolution and no suppression,
-- a resolved one has the time, a suppressed one has a note and an actor.
abbrev pub IsCoherent : Finding → Type 0
IsCoherent f = elim f.status [
  | open_status ↦
      (f.resolved_at ≡ none) × (f.suppression_note ≡ none) × (f.suppressed_by_ref ≡ none)
  | resolved_status ↦
      (f.resolved_at ≢ none) × (f.suppression_note ≡ none) × (f.suppressed_by_ref ≡ none)
  | suppressed_status ↦
      (f.resolved_at ≡ none) × (f.suppression_note ≢ none) × (f.suppressed_by_ref ≢ none)
]

-- What every write does to a row.
pub record Lives (f g : Finding) : Type 0 where
  pub same : KeepsIdentity f g
  pub coherent : IsCoherent f → IsCoherent g

-- What a write of a run does.
pub record Respects (f g : Finding) : Type 0 where
  pub lives : Lives f g
  pub silent : KeepsSuppression f g

KeepsIdentity-refl : (f : Finding) → KeepsIdentity f f
KeepsIdentity-refl f = record {
  id = refl;
  subject = refl;
  key = refl;
  fingerprint = refl;
  first_run = refl;
  first_seen = refl;
}

pub Lives-refl : (f : Finding) → Lives f f
Lives-refl f = record { same = KeepsIdentity-refl f; coherent = λ h. h }

pub Respects-refl : (f : Finding) → Respects f f
Respects-refl f = record { lives = Lives-refl f; silent = λ h. (h, refl, refl) }

pub observed-Respects :
    (run : Run) (c : FindingCandidate) (at : ℕ) (f : Finding) → Respects f (as_observed run c at f)
observed-Respects run c at f = record {
  lives = record {
    same = record {
      id = refl;
      subject = refl;
      key = refl;
      fingerprint = refl;
      first_run = refl;
      first_seen = refl;
    };
    coherent = λ h. h;
  };
  silent = λ h. (h, refl, refl);
}

same_identity :
    (f g : Finding)
    → g ≡ record f {
      status = g.status;
      resolved_at = g.resolved_at;
      suppression_note = g.suppression_note;
      suppressed_by_ref = g.suppressed_by_ref;
    }
    → KeepsIdentity f g
same_identity f g e = record {
  id = ap (λ x. x.id) e;
  subject = ap (λ x. x.subject_id) e;
  key = ap (λ x. x.evaluation_key) e;
  fingerprint = ap (λ x. x.fingerprint) e;
  first_run = ap (λ x. x.first_seen_run_id) e;
  first_seen = ap (λ x. x.first_seen_at) e;
}

pub reopened-Lives : (f : Finding) → Lives f (as_reopened f)
reopened-Lives f = record {
  same = same_identity f (as_reopened f) refl;
  coherent = λ h. (refl, refl, refl);
}

pub suppressed-Lives : (note by : Text) (f : Finding) → Lives f (as_suppressed note by f)
suppressed-Lives note by f = record {
  same = same_identity f (as_suppressed note by f) refl;
  coherent = λ h. (refl, (λ e. cc e), (λ e. cc e));
}

not_suppressed :
    (f : Finding) → eq_status f.status suppressed_status ≡ false → f.status ≡ suppressed_status → ⊥
not_suppressed f h e = ground arith

reopened-Respects :
    (f : Finding) → eq_status f.status suppressed_status ≡ false → Respects f (as_reopened f)
reopened-Respects f h = record {
  lives = reopened-Lives f;
  silent = λ e. absurd (not_suppressed f h e);
}

pub Lives-trans : (f g h : Finding) → Lives f g → Lives g h → Lives f h
Lives-trans f g h a b = record {
  same = record {
    id = b.same.id ∙ a.same.id;
    subject = b.same.subject ∙ a.same.subject;
    key = b.same.key ∙ a.same.key;
    fingerprint = b.same.fingerprint ∙ a.same.fingerprint;
    first_run = b.same.first_run ∙ a.same.first_run;
    first_seen = b.same.first_seen ∙ a.same.first_seen;
  };
  coherent = λ x. b.coherent (a.coherent x);
}

pub Respects-trans : (f g h : Finding) → Respects f g → Respects g h → Respects f h
Respects-trans f g h a b = record {
  lives = Lives-trans f g h a.lives b.lives;
  silent = λ e.
      let (s, note, by) = a.silent e in
      let (t, note', by') = b.silent s in (t, note' ∙ note, by' ∙ by);
}

pub observation-Respects :
    (run : Run) (existing : Finding) (c : FindingCandidate) (at : ℕ) (f : Finding)
    → same_status existing f ≡ true
    → Respects f (observation run existing c at f)
observation-Respects run existing c at f h = elim (Bool-cases (is_resolved existing)) [
  | inl resolved ↦ rw resolved (
      Respects-trans f (as_observed run c at f) (as_reopened (as_observed run c at f))
        (observed-Respects run c at f) (reopened-Respects (as_observed run c at f) (ground arith)))
  | inr other ↦ rw other (observed-Respects run c at f)
]

open_columns :
    (f : Finding)
    → f.status ≡ open_status
    → IsCoherent f
    → (f.resolved_at ≡ none) × (f.suppression_note ≡ none) × (f.suppressed_by_ref ≡ none)
open_columns f e c = rw e at c

pub resolved-Respects :
    (now : ℕ) (listed f : Finding) → is_unseen listed f ≡ true → Respects f (as_resolved now f)
resolved-Respects now listed f h = record {
  lives = record {
    same = same_identity f (as_resolved now f) refl;
    coherent = λ c.
        let (none_at, no_note, no_actor) = open_columns f (ground arith) c in
        ((λ e. cc e), no_note, no_actor);
  };
  silent = λ e. absurd (ground arith);
}
