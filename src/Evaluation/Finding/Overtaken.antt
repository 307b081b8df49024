-- ===== src/Evaluation/Finding/Overtaken.antt =====
-- Two runs of one evaluation key in evaluation/evaluation-finding.service.ts, of which the one that
-- started first observes last.
use newbie_modules.Common.{
  ℕ, ◌<◌, ◌≡◌, ◌≢◌, ap, ◌∙◌, Bool, true, false, some, String, ◌==◌, ltb, arith, ==_refl, ==_iff,
  eq_iff,
}
use newbie_modules.Common.Table.{written}
use newbie_modules.Evaluation.Contracts.{FindingCandidate}
use newbie_modules.Evaluation.Run.State.{Run}
use newbie_modules.Evaluation.Finding.State.{
  Finding, FindingDb, open_status, resolved_status, eq_status, observed_at,
}
use newbie_modules.Evaluation.Finding.Data.{
  as_observed, is_resolved, as_resolved, same_status, observation, is_unseen, is_absent,
}
use newbie_modules.Evaluation.Finding.Service.{write_observation, resolve_row}
use newbie_modules.Evaluation.Finding.Lifecycle.{observation-id}
use newbie_modules.Evaluation.Finding.Resolution.{find-resolve_row}

neq : (a b : ℕ) → a ≢ b → (a == b) ≡ false
neq a b h = ground (arith, h)

before : (a b : ℕ) → a < b → ltb a b ≡ true
before a b h = ground arith

overtaken_absent :
    (a b : Run) (key : String) (c : FindingCandidate) (f : Finding)
    → f.subject_id ≡ b.subject_id
    → f.evaluation_key ≡ key
    → f.status ≡ open_status
    → a.id ≢ b.id
    → observed_at a < observed_at b
    → is_absent b key (as_observed a c (observed_at a) f) ≡ true
overtaken_absent a b key c f subject same live other older = rw (
  (==_iff f.subject_id b.subject_id).1 subject,
  (eq_iff f.evaluation_key key).1 same,
  live,
  before (observed_at a) (observed_at b) older,
  neq a.id b.id other,
)

written_if :
    (p : Finding → Bool) (g : Finding → Finding) (f : Finding)
    → p f ≡ true
    → written p g (some f) ≡ some (g f)
written_if p g f h = rw h

observation_plain :
    (run : Run) (f : Finding) (c : FindingCandidate) (at : ℕ)
    → is_resolved f ≡ false
    → observation run f c at f ≡ as_observed run c at f
observation_plain run f c at h = rw h

observed_unseen :
    (run : Run) (c : FindingCandidate) (at : ℕ) (f : Finding)
    → f.status ≡ open_status
    → is_unseen (as_observed run c at f) (as_observed run c at f) ≡ true
observed_unseen run c at f live = rw (live, ==_refl at)

module _ {S : Type 0} (db : FindingDb S) where
  open db.findings use {find, find-update_many}

  -- A run may resolve a finding that it has itself observed. When a run that started earlier
  -- observes the same open finding after it, the time of the last sighting goes back before the
  -- later run's start: the later run then lists the finding as absent and its closing write
  -- resolves it.
  pub resolve_row-overtaken :
      (now : ℕ) (a b : Run) (key : String) (c : FindingCandidate) (f : Finding) (s : S)
      → find f.id s ≡ some f
      → f.subject_id ≡ b.subject_id
      → f.evaluation_key ≡ key
      → f.status ≡ open_status
      → f.last_seen_run_id ≡ b.id
      → a.id ≢ b.id
      → observed_at a < observed_at b
      → let t = (write_observation db a f c (observed_at a) s).0 in
        let g = as_observed a c (observed_at a) f in
        (find f.id t ≡ some g)
        × (is_absent b key g ≡ true)
        × (find f.id (resolve_row db now b key g t).1 ≡ some (as_resolved now g))
  unfolding write_observation
  resolve_row-overtaken now a b key c f s found subject same live seen other older =
      let here =
        find-update_many f.id f.id (same_status f) (observation a f c (observed_at a)) s
          (observation-id a f c (observed_at a))
        ∙ (rw (==_refl f.id) (
            ap (written (same_status f) (observation a f c (observed_at a))) found
            ∙ (written_if (same_status f) (observation a f c (observed_at a)) f
                  (ap (λ st. eq_status st st) live)
                ∙ ap some (
                    observation_plain a f c (observed_at a)
                      (ap (λ st. eq_status st resolved_status) live))))) in
      (
        here,
        overtaken_absent a b key c f subject same live other older,
        find-resolve_row db now b key (as_observed a c (observed_at a) f) _ f.id
            ∙ (rw (==_refl f.id) (
                ap (written (is_unseen (as_observed a c (observed_at a) f)) (as_resolved now)) here
                ∙ written_if (is_unseen (as_observed a c (observed_at a) f)) (as_resolved now) _
                    (observed_unseen a c (observed_at a) f live))),
      )
