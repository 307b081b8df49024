-- ===== src/WorkEvaluation/Disjoint.antt =====
-- The periods of one type do not overlap (work-evaluation/work-evaluation-period.service.ts).
use newbie_modules.Common.{
  ℕ, ◌≡◌, ◌≤◌, ◌⊎◌, inl, inr, refl, sym, ap, ◌∙◌, subst, true, false, Option, some, [], ◌==◌, ltb,
  Bool-cases, arith,
}
use mathlib.Core.List.{Memᴰ, not-mem-nil}
use newbie_modules.Evaluation.Criteria.Service.{CriteriaDb}
use newbie_modules.WorkEvaluation.Period.{
  Period, PeriodType, PeriodDb, CreatePeriodInput, same_type, overlaps, new_period, with_status,
}
use newbie_modules.WorkEvaluation.Changes.{
  Step, Reach, here, next, RowChange, kept, made, advanced, Step-RowChange,
}

abbrev pub IsApart : Period → Period → Type 0
IsApart p q =
    same_type p.type q.type ≡ true
    → (p.period_end ≤ q.period_start) ⊎ (q.period_end ≤ p.period_start)

same_type_sym : (a b : PeriodType) → same_type a b ≡ same_type b a
same_type_sym a b = ground arith

IsApart-sym : (p q : Period) → IsApart p q → IsApart q p
IsApart-sym p q apart h = elim (apart (same_type_sym p.type q.type ∙ h)) [
  | inl a ↦ inr a
  | inr b ↦ inl b
]

module _ {S C : Type 0} (db : PeriodDb S) (criteria : CriteriaDb C) where
  open db use {periods}

  pub record IsDisjoint (s : S) : Type 0 where
    pub ordered :
        (j : ℕ) (p : Period) → periods.find j s ≡ some p → ltb p.period_start p.period_end ≡ true
    pub apart :
        (i j : ℕ) (p q : Period)
        → periods.find i s ≡ some p
        → periods.find j s ≡ some q
        → (i == j) ≡ false
        → IsApart p q

  -- A row after a write, from the row before it or from the input of a creation.
  data Origin (k j : ℕ) (s : S) (p : Period) : Type 0 where
    old :
        (q : Period)
        → periods.find j s ≡ some q
        → p.type ≡ q.type
        → p.period_start ≡ q.period_start
        → p.period_end ≡ q.period_end
        → Origin k j s p
    fresh :
        (input : CreatePeriodInput)
        → k ≡ j
        → ltb input.period_start input.period_end ≡ true
        → periods.find_many (overlaps input) s ≡ []
        → p ≡ new_period input j
        → Origin k j s p

  origin :
      (k j : ℕ) (s : S) (after : Option Period) (p : Period)
      → RowChange db criteria k j s after
      → after ≡ some p
      → Origin k j s p
  origin k j s after p (kept same) h = old p (sym same ∙ h) refl refl refl
  origin k j s after p (made input e absent ordered none_there is) h =
      fresh input e ordered none_there (cc (sym h ∙ is))
  origin k j s after p (advanced q to found may is) h =
      let e : p ≡ with_status to q = cc (sym h ∙ is) in
      old q found (ap (λ r. r.type) e) (ap (λ r. r.period_start) e) (ap (λ r. r.period_end) e)

  -- A created period is apart from each row that was there.
  fresh-IsApart :
      (s : S) (j : ℕ) (input : CreatePeriodInput) (id : ℕ) (q : Period)
      → ltb input.period_start input.period_end ≡ true
      → periods.find_many (overlaps input) s ≡ []
      → ltb q.period_start q.period_end ≡ true
      → periods.find j s ≡ some q
      → IsApart q (new_period input id)
  fresh-IsApart s j input id q ordered none_there ordered' found same =
      elim (Bool-cases (overlaps input q)) [
        | inr apart ↦ ground (arith, apart, same, ordered, ordered')
        | inl bad ↦
            let e = periods.find-id j s q found in
            absurd (
              not-mem-nil
                ∣ subst (Memᴰ q) none_there (
                  periods.find_many_complete (overlaps input) s q
                    (ap (λ k. periods.find k s) e ∙ found) bad) ∣₁)
      ]

  origin-IsApart :
      (k i j : ℕ) (s : S) (p q : Period)
      → IsDisjoint s
      → (i == j) ≡ false
      → Origin k i s p
      → Origin k j s q
      → IsApart p q
  origin-IsApart k i j s p q d other (old p0 fp tp sp ep) (old q0 fq tq sq eq) same =
      let apart =
        d.apart i j p0 q0 fp fq other
          (ap (λ t. same_type t q0.type) (sym tp) ∙ ap (same_type p.type) (sym tq) ∙ same) in
      elim apart [ inl a ↦ inl (omega (arith, a, ep, sq)) | inr b ↦ inr (omega (arith, b, eq, sp)) ]
  origin-IsApart k i j s p q d other (old p0 fp tp sp ep) (fresh input e ordered none_there is)
        same =
      let apart = fresh-IsApart s i input j p0 ordered none_there (d.ordered i p0 fp) fp (
        ap (λ t. same_type t input.type) (sym tp)
        ∙ ap (λ r. same_type p.type r.type) (sym is)
        ∙ same) in
      elim apart [
        | inl a ↦ inl (omega (arith, a, ep, ap (λ r. r.period_start) is))
        | inr b ↦ inr (omega (arith, b, sp, ap (λ r. r.period_end) is))
      ]
  origin-IsApart k i j s p q d other (fresh input e ordered none_there is) (old q0 fq tq sq eq)
        same =
      let apart = fresh-IsApart s j input i q0 ordered none_there (d.ordered j q0 fq) fq (
        ap (λ t. same_type t input.type) (sym tq)
        ∙ ap (λ r. same_type q.type r.type) (sym is)
        ∙ same_type_sym q.type p.type
        ∙ same) in
      elim apart [
        | inl a ↦ inr (omega (arith, a, eq, ap (λ r. r.period_start) is))
        | inr b ↦ inl (omega (arith, b, sq, ap (λ r. r.period_end) is))
      ]
  origin-IsApart k i j s p q d other (fresh input e o n is) (fresh input' e' o' n' is') same =
      absurd (ground (arith, other, e, e'))

  origin_ordered :
      (k j : ℕ) (s : S) (p : Period)
      → IsDisjoint s
      → Origin k j s p
      → ltb p.period_start p.period_end ≡ true
  origin_ordered k j s p d (old q found t b e) = rw (b, e) (d.ordered j q found)
  origin_ordered k j s p d (fresh input e ordered none_there is) = rw is ordered

  Step-IsDisjoint : {s t : S} → Step db criteria s t → IsDisjoint s → IsDisjoint t
  Step-IsDisjoint {s} step d =
      let (k, change) = Step-RowChange db criteria step in
      record {
        ordered = λ j p h. origin_ordered k j s p d (origin k j s _ p (change j) h);
        apart = λ i j p q hp hq other.
            origin-IsApart k i j s p q d other (origin k i s _ p (change i) hp)
              (origin k j s _ q (change j) hq);
      }

  -- Under every interleaving of creations and transitions, each period starts before its end, and
  -- two periods of one type do not overlap.
  pub Reach-IsDisjoint : {s t : S} → Reach db criteria s t → IsDisjoint s → IsDisjoint t
  Reach-IsDisjoint here d = d
  Reach-IsDisjoint (next reach step) d = Step-IsDisjoint step (Reach-IsDisjoint reach d)
