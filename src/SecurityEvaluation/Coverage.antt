-- ===== src/SecurityEvaluation/Coverage.antt =====
-- No finding of a mechanism is lost in the merge (security-evaluation-judgment-merge.ts).
use mathlib.Core.List.{Memᴰ}
use newbie_modules.Common.{
  ◌≡◌, ◌⊎◌, refl, sym, subst, String, Bool, true, some, List, [], ◌∷◌, ◌++◌, map, all, All,
  All-append, str_eq, Dict, get, Bool-cases, Option-cases, inl, inr, arith,
}
use newbie_modules.Evaluation.Contracts.{FindingCandidate, Judgment, Verdict}
use newbie_modules.SecurityEvaluation.Merge.{
  JudgmentPart, Collected, Merged, merged, clash, nothing_collected, add_findings, add_verdicts,
  add_part, with_part, collect, finish_merge, merge_judgments,
}
use newbie_modules.SecurityEvaluation.Findings.{
  is_ranked, StandsFor, IsHeld, IsKeyed, added, added-IsKeyed, added-IsHeld, kept-IsHeld,
}

-- What a map of findings gains from a list of them.
record Gains (fs : List FindingCandidate) (m n : Dict FindingCandidate) : Type 0 where
  pub keyed : IsKeyed n
  pub gained : All (λ f. IsHeld f n) fs
  pub kept : (h : FindingCandidate) → IsHeld h m → IsHeld h n

add_findings-Gains :
    (fs : List FindingCandidate) (m : Dict FindingCandidate)
    → IsKeyed m
    → all is_ranked fs ≡ true
    → Gains fs m (add_findings fs m)
unfolding add_findings
add_findings-Gains [] m keyed ranked = record { keyed = keyed; gained = tt; kept = λ h k. k }
add_findings-Gains (f ∷ fs) m keyed ranked =
    let one : is_ranked f ≡ true = ground (arith, ranked) in
    let rest =
      add_findings-Gains fs (added f m keyed one) (added-IsKeyed f m keyed one)
        (ground (arith, ranked)) in
    record {
      keyed = rest.keyed;
      gained = (rest.kept f (added-IsHeld f m keyed one), rest.gained);
      kept = λ h k. rest.kept h (kept-IsHeld f m keyed one h k);
    }

abbrev pub all_findings : List JudgmentPart → List FindingCandidate
all_findings [] = []
all_findings (p ∷ ps) = p.judgment.findings ++ all_findings ps

all-append :
    {A : Type 0} (p : A → Bool) (xs ys : List A)
    → all p (xs ++ ys) ≡ true
    → (all p xs ≡ true) × (all p ys ≡ true)
all-append p [] ys h = (refl, h)
all-append p (x ∷ xs) ys h = ground (arith, all-append p xs ys)

All-map :
    {A : Type 0} (P Q : A → Type 0) (xs : List A) → ((a : A) → P a → Q a) → All P xs → All Q xs
All-map P Q [] f h = tt
All-map P Q (x ∷ xs) f (h, hs) = (f x h, All-map P Q xs f hs)

with_part-findings :
    (part : JudgmentPart) (taken : List Verdict × Dict String) (c : Collected)
    → (with_part part taken c).findings ≡ add_findings part.judgment.findings c.findings
with_part-findings part (vs, owners) c = elim (Option-cases part.judgment.skipped) [
  | inl absent ↦ rw absent refl
  | inr (bucket, is) ↦ rw is refl
]

Merged-cases :
    {A : Type 0} (r : Merged A)
    → ((key : String) × (owner : String) × (name : String) × (r ≡ clash key owner name))
      ⊎ ((a : A) × (r ≡ merged a))
Merged-cases (merged a) = inr (a, refl)
Merged-cases (clash key owner name) = inl (key, owner, name, refl)

collect-Gains :
    (ps : List JudgmentPart) (c d : Collected)
    → IsKeyed c.findings
    → all is_ranked (all_findings ps) ≡ true
    → collect ps c ≡ merged d
    → Gains (all_findings ps) c.findings d.findings
unfolding collect add_part
collect-Gains [] c d keyed ranked done =
    let same : c ≡ d = cc done in
    subst (λ (x : Collected). Gains [] c.findings x.findings) same
      (record { keyed = keyed; gained = tt; kept = λ h k. k })
collect-Gains (p ∷ ps) c d keyed ranked done =
    let (ranked', ranked'') = all-append is_ranked p.judgment.findings (all_findings ps) ranked in
    elim (Merged-cases
      (add_verdicts p.mechanism_name p.judgment.verdicts c.verdicts c.verdict_owners)) [
        | inl (k, o, n, bad) ↦ absurd (cc (rw (collect, add_part, bad) at done))
        | inr (taken, good) ↦
            let c' = with_part p taken c in
            let same = with_part-findings p taken c in
            let first = add_findings-Gains p.judgment.findings c.findings keyed ranked' in
            let go : collect ps c' ≡ merged d = rw (collect, add_part, good) at done in
            let rest : Gains (all_findings ps) c'.findings d.findings =
              collect-Gains ps c' d (subst IsKeyed (sym same) first.keyed) ranked'' go in
            let later : (h : FindingCandidate)
                → IsHeld h (add_findings p.judgment.findings c.findings)
                → IsHeld h d.findings =
              (λ h k. rest.kept h (subst (IsHeld h) (sym same) k)) in
            record {
              keyed = rest.keyed;
              gained =
                  All-append (λ f. IsHeld f d.findings) p.judgment.findings (all_findings ps)
                    (All-map (λ f. IsHeld f (add_findings p.judgment.findings c.findings))
                      (λ f. IsHeld f d.findings) p.judgment.findings later first.gained)
                    rest.gained;
              kept = λ h k. later h (first.kept h k);
            }
      ]

get-Memᴰ :
    (k : String) (m : Dict FindingCandidate) (g : FindingCandidate)
    → get k m ≡ some g
    → Memᴰ g (map (λ e. e.1) m)
unfolding get
get-Memᴰ k [] g h = absurd (cc h)
get-Memᴰ k ((j, x) ∷ m) g h = elim (Bool-cases (str_eq j k)) [
  | inl same ↦ Memᴰ.head (cc (sym (rw same at h)))
  | inr other ↦ Memᴰ.tail (get-Memᴰ k m g (rw other at h))
]

abbrev pub IsCovered : Judgment → FindingCandidate → Type 0
IsCovered j f = (g : FindingCandidate) × (Memᴰ g j.findings × StandsFor g f)

nothing-IsKeyed : IsKeyed []
unfolding get
nothing-IsKeyed k g h = absurd (cc h)

-- Where the findings of the parts have severities that are ranked and the merge succeeds, each of
-- them has a finding of its fingerprint in the merged judgment, with a severity that is no lower.
pub merge_judgments-IsCovered :
    (parts : List JudgmentPart) (j : Judgment)
    → all is_ranked (all_findings parts) ≡ true
    → merge_judgments parts ≡ merged j
    → All (IsCovered j) (all_findings parts)
unfolding merge_judgments
merge_judgments-IsCovered parts j ranked done =
    elim (Merged-cases (collect parts nothing_collected)) [
      | inl (k, o, n, bad) ↦ absurd (cc (rw (merge_judgments, bad) at done))
      | inr (c, good) ↦
          let gains = collect-Gains parts nothing_collected c nothing-IsKeyed ranked good in
          let is : finish_merge c ≡ j = cc (rw (merge_judgments, good) at done) in
          subst (λ x. All (IsCovered x) (all_findings parts)) is
            (All-map (λ f. IsHeld f c.findings) (IsCovered (finish_merge c)) (all_findings parts)
              (λ f held. (held.0, (get-Memᴰ f.fingerprint c.findings held.0 held.1.0, held.1.1)))
              gains.gained)
    ]
