-- ===== src/SecurityEvaluation/Findings.antt =====
-- The findings of a merged judgment (security-evaluation-judgment-merge.ts).
use newbie_modules.Common.{
  ℕ, ◌≡◌, inl, inr, refl, sym, ap, ◌∙◌, subst, String, Bool, true, false, Option, none, some,
  str_eq, Dict, get, set, get-set, eq_iff, eq_refl, Bool-cases, arith,
}
use newbie_modules.Evaluation.Contracts.{FindingCandidate}
use newbie_modules.SecurityEvaluation.Merge.{
  severity_rank, rank_at_least, higher_severity, merge_finding,
}

abbrev pub is_ranked : FindingCandidate → Bool
is_ranked f = rank_at_least (severity_rank f.severity) (severity_rank f.severity)

-- The finding `g` stands for `f`: the same fingerprint, and no lower a severity.
abbrev pub StandsFor : FindingCandidate → FindingCandidate → Type 0
StandsFor g f =
    (g.fingerprint ≡ f.fingerprint)
    × (rank_at_least (severity_rank g.severity) (severity_rank f.severity) ≡ true)

abbrev pub IsHeld : FindingCandidate → Dict FindingCandidate → Type 0
IsHeld f m = (g : FindingCandidate) × ((get f.fingerprint m ≡ some g) × StandsFor g f)

-- Every key of the map is its finding's fingerprint, and every severity has a rank.
abbrev pub IsKeyed : Dict FindingCandidate → Type 0
IsKeyed m =
    (k : String) (g : FindingCandidate)
    → get k m ≡ some g
    → (g.fingerprint ≡ k) × (is_ranked g ≡ true)

rank_trans :
    (a b c : Option ℕ)
    → rank_at_least a b ≡ true
    → rank_at_least b c ≡ true
    → rank_at_least a c ≡ true
rank_trans a b c h k = ground (arith, h, k)

rank_total :
    (a b : Option ℕ)
    → rank_at_least a a ≡ true
    → rank_at_least b b ≡ true
    → rank_at_least a b ≡ false
    → rank_at_least b a ≡ true
rank_total none b ra rb h = absurd (cc ra)
rank_total (some a) none ra rb h = absurd (cc rb)
rank_total (some a) (some b) ra rb h = ground (arith, h)

higher_severity_lem :
    (a b : String)
    → rank_at_least (severity_rank a) (severity_rank a) ≡ true
    → rank_at_least (severity_rank b) (severity_rank b) ≡ true
    → let top = severity_rank (higher_severity a b) in
      (rank_at_least top (severity_rank a) ≡ true)
      × (rank_at_least top (severity_rank b) ≡ true)
      × (rank_at_least top top ≡ true)
higher_severity_lem a b ra rb =
    elim (Bool-cases (rank_at_least (severity_rank a) (severity_rank b))) [
      | inl up ↦ rw up (ra, up, ra)
      | inr down ↦ rw down (rank_total (severity_rank a) (severity_rank b) ra rb down, rb, rb)
    ]

-- What takes the place of the finding that was there, if one was.
record Replaces (o : Option FindingCandidate) (f g : FindingCandidate) : Type 0 where
  pub stands : StandsFor g f
  pub ranked : is_ranked g ≡ true
  pub above :
      (h : FindingCandidate)
      → o ≡ some h
      → rank_at_least (severity_rank g.severity) (severity_rank h.severity) ≡ true

merge_finding-Replaces :
    (o : Option FindingCandidate) (f : FindingCandidate)
    → ((h : FindingCandidate) → o ≡ some h → (h.fingerprint ≡ f.fingerprint) × (is_ranked h ≡ true))
    → is_ranked f ≡ true
    → Replaces o f (merge_finding o f)
merge_finding-Replaces none f known ranked = record {
  stands = (refl, ranked);
  ranked = ranked;
  above = λ h e. absurd (cc e);
}
merge_finding-Replaces (some x) f known ranked =
    let (same, ranked') = known x refl in
    let (over_x, over_f, itself) = higher_severity_lem x.severity f.severity ranked' ranked in
    record {
      stands = (same, over_f);
      ranked = itself;
      above = λ h e.
          let same : x ≡ h = cc e in
          subst
            (λ (y : FindingCandidate).
              rank_at_least (severity_rank (higher_severity x.severity f.severity))
                (severity_rank y.severity)
              ≡ true)
            same over_x;
    }

module _ (f : FindingCandidate) (m : Dict FindingCandidate) (keyed : IsKeyed m)
    (ranked : is_ranked f ≡ true) where
  abbrev pub added : Dict FindingCandidate
  added = set f.fingerprint (merge_finding (get f.fingerprint m) f) m

  replaces : Replaces (get f.fingerprint m) f (merge_finding (get f.fingerprint m) f)
  replaces = merge_finding-Replaces (get f.fingerprint m) f (λ h e. keyed f.fingerprint h e) ranked

  pub added-IsKeyed : IsKeyed added
  added-IsKeyed k g h =
      let found = get-set f.fingerprint k (merge_finding (get f.fingerprint m) f) m in
      elim (Bool-cases (str_eq f.fingerprint k)) [
        | inr other ↦ keyed k g (sym (rw other at found) ∙ h)
        | inl same ↦
            let e : merge_finding (get f.fingerprint m) f ≡ g = cc (sym (rw same at found) ∙ h) in
            subst (λ x. (x.fingerprint ≡ k) × (is_ranked x ≡ true)) e
              (replaces.stands.0 ∙ (eq_iff f.fingerprint k).0 same, replaces.ranked)
      ]

  pub added-IsHeld : IsHeld f added
  added-IsHeld = (
    merge_finding (get f.fingerprint m) f,
    (
      rw
          (
            get-set f.fingerprint f.fingerprint (merge_finding (get f.fingerprint m) f) m,
            eq_refl f.fingerprint,
          )
          refl,
      replaces.stands,
    ),
  )

  pub kept-IsHeld : (h : FindingCandidate) → IsHeld h m → IsHeld h added
  kept-IsHeld h (g, (at, (named, over))) =
      let found = get-set f.fingerprint h.fingerprint (merge_finding (get f.fingerprint m) f) m in
      elim (Bool-cases (str_eq f.fingerprint h.fingerprint)) [
        | inr other ↦ (g, ((rw other at found) ∙ at, (named, over)))
        | inl same ↦
            let e = (eq_iff f.fingerprint h.fingerprint).0 same in
            (
              merge_finding (get f.fingerprint m) f,
              (
                rw same at found,
                (
                  replaces.stands.0 ∙ e,
                  rank_trans _ (severity_rank g.severity) _
                      (replaces.above g (ap (λ k. get k m) e ∙ at)) over,
                ),
              ),
            )
      ]
