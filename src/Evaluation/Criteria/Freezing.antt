-- ===== src/Evaluation/Criteria/Freezing.antt =====
-- The calls of evaluation/evaluation-criteria.service.ts, and what leaves a version as it is.
use newbie_modules.Common.{
  ℕ, ◌≡◌, ◌≢◌, ◌⊎◌, ◌↔◌, refl, sym, ap, ◌∙◌, String, true, false, Option, none, some, List, [], ◌∷◌,
  ◌==◌, arith, Bool-cases, Option-cases, inl, inr, ==_iff,
}
use newbie_modules.Evaluation.Errors.{ok}
use newbie_modules.Evaluation.Criteria.Service.{
  Version, Criterion, CreateVersionInput, CreateCriterionInput, UpdateCriterionInput, CriteriaDb,
  is_draft, lock_draft_version, add_version, update_version, publish_version, add_criterion,
  update_criterion, remove_criterion,
}

pub List-cases : {A : Type 0} (xs : List A) → (xs ≡ []) ⊎ ((x : A) × (ys : List A) × (xs ≡ x ∷ ys))
List-cases [] = inl refl
List-cases (x ∷ xs) = inr (x, xs, refl)

pub some_of : {A : Type 0} {a b : A} → some a ≡ some b → a ≡ b
some_of h = cc

pub none_of : {A : Type 0} {a : A} → none ≡ some a → ⊥
none_of h = cc

pub neq : (a b : ℕ) → a ≢ b → (a == b) ≡ false
neq a b h = ground (arith, h)

module _ {S : Type 0} (db : CriteriaDb S) where
  -- One call of the service. A transaction is one step.
  pub data Step : S → S → Type 0 where
    added : (input : CreateVersionInput) (id : ℕ) (s : S) → Step s (add_version db input id s).1
    updated :
        (id : ℕ) (description : Option String) (s : S)
        → Step s (update_version db id description s).1
    published : (now id : ℕ) (s : S) → Step s (publish_version db now id s).1
    criterion_added :
        (version_id : ℕ) (input : CreateCriterionInput) (id : ℕ) (s : S)
        → Step s (add_criterion db version_id input id s).1
    criterion_updated :
        (id : ℕ) (input : UpdateCriterionInput) (s : S) → Step s (update_criterion db id input s).1
    criterion_removed : (id : ℕ) (s : S) → Step s (remove_criterion db id s).1

  pub data Reach (s : S) : S → Type 0 where
    here : Reach s s
    next : {t u : S} → Reach s t → Step t u → Reach s u

  -- The version `j` is still `v`, and its criteria are the same.
  pub record Freezes (j : ℕ) (v : Version) (s t : S) : Type 0 where
    pub version : db.versions.find j t ≡ some v
    pub criteria :
        (k : ℕ) (c : Criterion)
        → c.rule_set_version_id ≡ j
        → (db.criteria.find k s ≡ some c) ↔ (db.criteria.find k t ≡ some c)

  pub lock_ok :
      (id : ℕ) (s : S) (w : Version)
      → lock_draft_version db id s ≡ ok w
      → (db.versions.find id s ≡ some w) × (is_draft w ≡ true)
  unfolding lock_draft_version
  lock_ok id s w h = elim (Option-cases (db.versions.find id s)) [
    | inl missing ↦ absurd (cc (rw (missing, lock_draft_version) at h))
    | inr (v, found) ↦ elim (Bool-cases (is_draft v)) [
      | inr out ↦ absurd (cc (rw (found, lock_draft_version, out) at h))
      | inl draft ↦
          let e : v ≡ w = cc (rw (found, lock_draft_version, draft) at h) in
          (found ∙ ap some e, ap is_draft (sym e) ∙ draft)
    ]
  ]

  module _ (j : ℕ) (v : Version) (s : S) (found : db.versions.find j s ≡ some v)
      (out : is_draft v ≡ false) where
    pub other_version : (id : ℕ) (w : Version) → lock_draft_version db id s ≡ ok w → id ≢ j
    other_version id w locked e =
        let (there, draft) = lock_ok id s w locked in
        let same : some w ≡ some v = sym there ∙ (ap (λ k. db.versions.find k s) e ∙ found) in
        absurd (cc (draft, out, some_of same))

    pub Freezes-refl : Freezes j v s s
    Freezes-refl = record { version = found; criteria = λ k c h. (λ x. x, λ x. x) }

    -- A write of the criteria that touches only the row `i`, of another version.
    pub Freezes-elsewhere :
        (i : ℕ) (t : S)
        → db.versions.find j t ≡ db.versions.find j s
        → ((k : ℕ) → (i == k) ≡ false → db.criteria.find k t ≡ db.criteria.find k s)
        → ((c : Criterion) → db.criteria.find i s ≡ some c → c.rule_set_version_id ≢ j)
        → ((c : Criterion) → db.criteria.find i t ≡ some c → c.rule_set_version_id ≢ j)
        → Freezes j v s t
    Freezes-elsewhere i t kept others before after = record {
      version = kept ∙ found;
      criteria = λ k c mine. elim (Bool-cases (i == k)) [
        | inr other ↦ (λ x. others k other ∙ x, λ x. sym (others k other) ∙ x)
        | inl same ↦
            let e : i ≡ k = (==_iff i k).0 same in
            (
              λ x. absurd (before c (ap (λ n. db.criteria.find n s) e ∙ x) mine),
              λ x. absurd (after c (ap (λ n. db.criteria.find n t) e ∙ x) mine),
            )
      ];
    }

    -- A write of the versions that leaves the row `j`.
    pub Freezes-versions :
        (t : S)
        → db.versions.find j t ≡ some v
        → ((k : ℕ) → db.criteria.find k t ≡ db.criteria.find k s)
        → Freezes j v s t
    Freezes-versions t kept same = record {
      version = kept;
      criteria = λ k c mine. (λ x. same k ∙ x, λ x. sym (same k) ∙ x);
    }
