-- ===== src/WorkEvaluation/Progress.antt =====
-- The status of a period only goes forward (work-evaluation/work-evaluation-period.service.ts).
use newbie_modules.Common.{ℕ, ◌≡◌, ◌≤◌, sym, ap, ◌∙◌, true, some, arith}
use newbie_modules.Evaluation.Criteria.Service.{CriteriaDb}
use newbie_modules.WorkEvaluation.Period.{
  upcoming, active, closed, Period, PeriodStatus, PeriodDb, is_allowed, with_status,
}
use newbie_modules.WorkEvaluation.Changes.{
  Reach, here, next, RowChange, kept, made, advanced, Step-RowChange,
}

abbrev pub stage : PeriodStatus → ℕ
stage upcoming = 0
stage active = 1
stage closed = 2

is_allowed-stage : (p q : PeriodStatus) → is_allowed p q ≡ true → stage p ≤ stage q
is_allowed-stage p q h = ground (arith, h)

module _ {S C : Type 0} (db : PeriodDb S) (criteria : CriteriaDb C) where
  open db use {periods}

  -- The row of `p` is still there, in the same stage or a later one.
  abbrev pub MovesOn : ℕ → Period → S → Type 0
  MovesOn j p t =
      (to : PeriodStatus) × (periods.find j t ≡ some (with_status to p))
      × (stage p.status ≤ stage to)

  RowChange-MovesOn :
      (k j : ℕ) (s t : S) (p : Period)
      → RowChange db criteria k j s (periods.find j t)
      → periods.find j s ≡ some p
      → MovesOn j p t
  RowChange-MovesOn k j s t p (kept same) h = (p.status, same ∙ h, omega arith)
  RowChange-MovesOn k j s t p (made input e absent ordered empty is) h =
      absurd (cc (sym absent ∙ h))
  RowChange-MovesOn k j s t p (advanced q to found may is) h =
      let e : q ≡ p = cc (sym found ∙ h) in
      (
        to,
        is ∙ ap (λ r. some (with_status to r)) e,
        omega (arith, is_allowed-stage q.status to may, ap (λ r. stage r.status) e),
      )

  -- Under every interleaving of creations and transitions, where a transition may rest on a read of
  -- any state, a period is never deleted, nothing but its
  -- status changes, and the status goes from upcoming over active to closed and never back.
  pub Reach-MovesOn :
      {s t : S} (j : ℕ) (p : Period)
      → Reach db criteria s t
      → periods.find j s ≡ some p
      → MovesOn j p t
  Reach-MovesOn j p here h = (p.status, h, omega arith)
  Reach-MovesOn j p (next {t} {u} reach step) h =
      let (to, found, later) = Reach-MovesOn j p reach h in
      let (k, change) = Step-RowChange db criteria step in
      let (to', found', later') = RowChange-MovesOn k j t u (with_status to p) (change j) found in
      (to', found', omega (arith, later, later'))
