-- ===== src/WorkEvaluation/Changes.antt =====
-- The writes of the periods, under every interleaving of creations and transitions
-- (work-evaluation/work-evaluation-period.service.ts).
use newbie_modules.Common.{
  ℕ, ◌≡◌, inl, inr, refl, sym, ap, ◌∙◌, subst, true, Option, none, some, List, [], ◌∷◌, ◌==◌, ltb,
  Bool-cases, Option-cases, ==_iff, arith,
}
use newbie_modules.Evaluation.Errors.{Outcome-cases}
use newbie_modules.Evaluation.Criteria.Service.{CriteriaDb, Version, require_version}
use newbie_modules.WorkEvaluation.Period.{
  Period, PeriodStatus, PeriodDb, CreatePeriodInput, same_period_status, overlaps, new_period,
  check_anchor, is_allowed, with_status, insert_period, create_period, move_period,
  get_period_by_id, transition_period_status,
}

module _ {S C : Type 0} (db : PeriodDb S) (criteria : CriteriaDb C) where
  open db use {periods}

  -- One call of a handler by any process. The version that a creation rests on was read in any state
  -- `c` of the criteria, and the period of a transition in any state `read`.
  pub data Step : S → S → Type 0 where
    created :
        (input : CreatePeriodInput) (id : ℕ) (c : C) (s : S)
        → Step s (create_period db criteria input id c s).0
    transitioned :
        (id : ℕ) (to : PeriodStatus) (read s : S)
        → Step s (transition_period_status db read id to s).0

  pub data Reach (s : S) : S → Type 0 where
    here : Reach s s
    next : {t u : S} → Reach s t → Step t u → Reach s u

  -- What a write of the row `k` does to the row `j`: it keeps it, creates it, or moves its status
  -- forward.
  pub data RowChange (k j : ℕ) (s : S) (after : Option Period) : Type 0 where
    kept : after ≡ periods.find j s → RowChange k j s after
    made :
        (input : CreatePeriodInput)
        → k ≡ j
        → periods.find j s ≡ none
        → ltb input.period_start input.period_end ≡ true
        → periods.find_many (overlaps input) s ≡ []
        → after ≡ some (new_period input j)
        → RowChange k j s after
    advanced :
        (p : Period) (to : PeriodStatus)
        → periods.find j s ≡ some p
        → is_allowed p.status to ≡ true
        → after ≡ some (with_status to p)
        → RowChange k j s after

  same_period_status_lem :
      (p q to : PeriodStatus)
      → same_period_status p q ≡ true
      → is_allowed q to ≡ true
      → is_allowed p to ≡ true
  same_period_status_lem PeriodStatus.upcoming q to same may = ground (arith, same, may)
  same_period_status_lem PeriodStatus.active q to same may = ground (arith, same, may)
  same_period_status_lem PeriodStatus.closed q to same may = ground (arith, same, may)

  anchor_ordered :
      (input : CreatePeriodInput) (v : Version)
      → check_anchor input v ≡ none
      → ltb input.period_start input.period_end ≡ true
  anchor_ordered input v h = ground (arith, h)

  insert_period-RowChange :
      (j : ℕ) (input : CreatePeriodInput) (id : ℕ) (s : S) (ps : List Period)
      → ltb input.period_start input.period_end ≡ true
      → periods.find_many (overlaps input) s ≡ ps
      → RowChange id j s (periods.find j (insert_period db input id s).0)
  unfolding insert_period
  insert_period-RowChange j input id s (p ∷ ps) ordered listed =
      rw (insert_period, listed) (kept refl)
  insert_period-RowChange j input id s [] ordered listed =
      elim (Option-cases (db.create (new_period input id) s)) [
        | inl taken ↦ rw (insert_period, listed, taken) (kept refl)
        | inr (t, got) ↦
            let found = db.find-create (new_period input id) s t j got in
            elim (Bool-cases (id == j)) [
              | inr other ↦ rw (insert_period, listed, got) (kept (rw other at found))
              | inl same ↦
                  let e : id ≡ j = (==_iff id j).0 same in
                  rw (insert_period, listed, got)
                    (made input e
                      (subst (λ k. periods.find k s ≡ none) e
                        (db.create_fresh (new_period input id) s t got))
                      ordered listed ((rw same at found) ∙ ap (λ k. some (new_period input k)) e))
            ]
      ]

  create_period-RowChange :
      (j : ℕ) (input : CreatePeriodInput) (id : ℕ) (c : C) (s : S)
      → RowChange id j s (periods.find j (create_period db criteria input id c s).0)
  unfolding create_period
  create_period-RowChange j input id c s =
      elim (Outcome-cases (require_version criteria input.rule_set_version_id c)) [
        | inl (e, bad) ↦ rw (create_period, bad) (kept refl)
        | inr (v, good) ↦ elim (Option-cases (check_anchor input v)) [
          | inr (refusal, bad) ↦ rw (create_period, good, bad) (kept refl)
          | inl clear ↦
              rw (create_period, good, clear)
                (insert_period-RowChange j input id s (periods.find_many (overlaps input) s)
                  (anchor_ordered input v clear) refl)
        ]
      ]

  move_period-RowChange :
      (j id : ℕ) (from to : PeriodStatus) (s : S)
      → is_allowed from to ≡ true
      → RowChange id j s (periods.find j (move_period db id from to s).0)
  unfolding move_period
  move_period-RowChange j id from to s may =
      let found =
        periods.find-update_many id j (λ p. same_period_status p.status from) (with_status to) s
          (λ p. refl) in
      elim (Bool-cases (id == j)) [
        | inr other ↦ kept (rw other at found)
        | inl same ↦ elim (Option-cases (periods.find j s)) [
          | inl absent ↦ kept ((rw (same, absent) at found) ∙ sym absent)
          | inr (p, is) ↦ elim (Bool-cases (same_period_status p.status from)) [
            | inr off ↦ kept ((rw (same, is, off) at found) ∙ sym is)
            | inl still ↦
                advanced p to is (same_period_status_lem p.status from to still may)
                  (rw (same, is, still) at found)
          ]
        ]
      ]

  transition_period_status-RowChange :
      (j id : ℕ) (to : PeriodStatus) (read s : S)
      → RowChange id j s (periods.find j (transition_period_status db read id to s).0)
  unfolding transition_period_status get_period_by_id
  transition_period_status-RowChange j id to read s = elim (Option-cases (periods.find id read)) [
    | inl absent ↦ rw (transition_period_status, get_period_by_id, absent) (kept refl)
    | inr (p, found) ↦ elim (Bool-cases (is_allowed p.status to)) [
      | inl may ↦
          rw (transition_period_status, get_period_by_id, found, may)
            (move_period-RowChange j id p.status to s may)
      | inr bad ↦ rw (transition_period_status, get_period_by_id, found, bad) (kept refl)
    ]
  ]

  pub Step-RowChange :
      {s t : S} → Step s t → (k : ℕ) × ((j : ℕ) → RowChange k j s (periods.find j t))
  Step-RowChange (created input id c s) = (id, λ j. create_period-RowChange j input id c s)
  Step-RowChange (transitioned id to read s) =
      (id, λ j. transition_period_status-RowChange j id to read s)
