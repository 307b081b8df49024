-- ===== src/Evaluation/Judgment/Sound.antt =====
-- The verdicts and findings that evaluation-invariants.ts accepts, as predicates.
use newbie_modules.Common.{
  String, Bool, true, false, not, ◌≡◌, ◌≢◌, ◌↔◌, refl, Option, none, some, List, [], ◌∷◌, ◌++◌,
  Dict, get, arith, All,
}
use newbie_modules.Evaluation.Contracts.{
  CriterionKind, scored, assertion, CriterionRef, Verdict, FindingCandidate, Problem,
}
use newbie_modules.Evaluation.Coverage.Compose.{has}
use newbie_modules.Evaluation.Coverage.Validate.{push_if}
use newbie_modules.Evaluation.Judgment.Validate.{
  confidences, severities, is_scored, is_finite, has_counts, unknown_refs, evidence_problems,
  or_no_refs, identity,
}

pub append-nil_iff {ℓ} : {A : Type ℓ} (xs ys : List A) → (xs ++ ys ≡ []) ↔ ((xs ≡ []) × (ys ≡ []))
append-nil_iff [] ys = ground arith
append-nil_iff (x ∷ xs) ys = ground arith

-- A guard that reports nothing did not fire.
pub guard-nil :
    (b : Bool) (p : Problem) (rest : List Problem)
    → push_if b p ++ rest ≡ []
    → (b ≡ false) × (rest ≡ [])
guard-nil true p rest h = cc
guard-nil false p rest h = (refl, h)

pub of_not : (b : Bool) → not b ≡ false → b ≡ true
of_not true h = refl
of_not false h = cc

pub scored_of : (k : CriterionKind) → is_scored k ≡ true → k ≡ scored
scored_of scored h = refl
scored_of assertion h = cc

pub assertion_of : (k : CriterionKind) → is_scored k ≡ false → k ≡ assertion
assertion_of scored h = cc
assertion_of assertion h = refl

-- Each ref names collected evidence, where the evidence is known.
abbrev pub Cites : Option (List String) → List String → Type 0
Cites none refs = Unit
Cites (some known) refs = All (λ ref. has ref known ≡ true) refs

unknown_refs_iff :
    (p : String → Problem) (known refs : List String)
    → (unknown_refs p known refs ≡ []) ↔ All (λ ref. has ref known ≡ true) refs
unfolding unknown_refs
unknown_refs_iff p known [] = ground arith
unknown_refs_iff p known (ref ∷ refs) = ground (
  arith,
  unknown_refs_iff p known refs,
  append-nil_iff (push_if (not (has ref known)) (p ref)) (unknown_refs p known refs),
)

pub evidence_iff :
    (p : String → Problem) (evidence_ids : Option (List String)) (refs : List String)
    → (evidence_problems p evidence_ids refs ≡ []) ↔ Cites evidence_ids refs
evidence_iff p none refs = ground arith
evidence_iff p (some known) refs = unknown_refs_iff p known refs

-- A verdict scores a SCORED criterion that no earlier verdict has scored, with a finite score, a
-- known confidence, natural counts, and evidence that was collected.
pub record IsSoundVerdict (criteria : Dict CriterionRef) (evidence_ids : Option (List String))
    (seen : List String) (v : Verdict) : Type 0 where
  pub criterion : CriterionRef
  pub listed : get v.criterion_key criteria ≡ some criterion
  pub kind : criterion.kind ≡ scored
  pub once : has v.criterion_key seen ≡ false
  pub finite : is_finite v.score ≡ true
  pub confidence : has v.confidence confidences ≡ true
  pub counts : has_counts v.coverage ≡ true
  pub evidence : Cites evidence_ids v.evidence_refs

-- A finding asserts an ASSERTION criterion, under a fingerprint that is not empty and that no
-- earlier finding of the criterion has, with a known severity and evidence that was collected.
pub record IsSoundFinding (criteria : Dict CriterionRef) (evidence_ids : Option (List String))
    (seen : List String) (f : FindingCandidate) : Type 0 where
  pub criterion : CriterionRef
  pub listed : get f.criterion_key criteria ≡ some criterion
  pub kind : criterion.kind ≡ assertion
  pub named : f.fingerprint ≢ ""
  pub severity : has f.severity severities ≡ true
  pub once : has (identity f) seen ≡ false
  pub evidence : Cites evidence_ids (or_no_refs f.evidence_refs)

abbrev pub AreSoundVerdicts :
    Dict CriterionRef → Option (List String) → List String → List Verdict → Type 0
AreSoundVerdicts criteria evidence_ids seen [] = Unit
AreSoundVerdicts criteria evidence_ids seen (v ∷ vs) =
    IsSoundVerdict criteria evidence_ids seen v
    × AreSoundVerdicts criteria evidence_ids (seen ++ v.criterion_key ∷ []) vs

abbrev pub AreSoundFindings :
    Dict CriterionRef → Option (List String) → List String → List FindingCandidate → Type 0
AreSoundFindings criteria evidence_ids seen [] = Unit
AreSoundFindings criteria evidence_ids seen (f ∷ fs) =
    IsSoundFinding criteria evidence_ids seen f
    × AreSoundFindings criteria evidence_ids (seen ++ identity f ∷ []) fs
