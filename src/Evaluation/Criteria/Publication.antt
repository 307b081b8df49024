-- ===== src/Evaluation/Criteria/Publication.antt =====
-- What the publication of a version takes in evaluation/evaluation-criteria.service.ts.
use newbie_modules.Common.{
  ℕ, ◌≡◌, refl, sym, ap, ◌∙◌, true, some, List, [], ◌∷◌, inl, inr, ==_iff, ==_refl, All, subst,
}
use newbie_modules.Common.Table.{written}
use newbie_modules.Evaluation.Errors.{ok, Outcome-cases}
use newbie_modules.Evaluation.Criteria.Service.{
  Version, Criterion, CriteriaDb, is_draft, as_published, belongs_to, lock_draft_version,
  publish_version, require_version,
}
use newbie_modules.Evaluation.Criteria.Freezing.{lock_ok, List-cases}

head_of :
    (P : Criterion → Type 0) (cs ds : List Criterion) (c : Criterion) → cs ≡ c ∷ ds → All P cs → P c
head_of P [] ds c h k = absurd (cc h)
head_of P (d ∷ cs) ds c h (k, ks) = subst P (cc h) k

module _ {S : Type 0} (db : CriteriaDb S) where
  -- What comes with a publication.
  pub record IsPublished (now id : ℕ) (s t : S) (w : Version) : Type 0 where
    pub before : Version
    pub found : db.versions.find id s ≡ some before
    pub draft : is_draft before ≡ true
    pub criterion : Criterion
    pub there : db.criteria.find criterion.id s ≡ some criterion
    pub mine : criterion.rule_set_version_id ≡ id
    pub answer : w ≡ as_published now before
    pub stored : db.versions.find id t ≡ some w

  require_ok :
      (id : ℕ) (t : S) (v w : Version)
      → db.versions.find id t ≡ some v
      → require_version db id t ≡ ok w
      → v ≡ w
  unfolding require_version
  require_ok id t v w found h = cc (rw (found, require_version) at h)

  -- A publication succeeds only for a version that is a draft and has a criterion; the version is
  -- then stored with the time of publication, and else as it was.
  pub publish_version_ok :
      (now id : ℕ) (s t : S) (w : Version)
      → publish_version db now id s ≡ (ok w, t)
      → IsPublished now id s t w
  unfolding publish_version
  publish_version_ok now id s t w h = elim (Outcome-cases (lock_draft_version db id s)) [
    | inl (e, refused) ↦ absurd (cc (rw (refused, publish_version) at h))
    | inr (v, locked) ↦ elim (List-cases (db.criteria.find_many (belongs_to id) s)) [
      | inl empty ↦ absurd (cc (rw (locked, publish_version, empty) at h))
      | inr (c, cs, listed) ↦
          let u = (db.versions.update_many id (λ x. true) (as_published now) s).0 in
          let result : (require_version db id u, u) ≡ (ok w, t) =
            rw (locked, publish_version, listed) at h in
          let state : u ≡ t = ap (λ r. r.1) result in
          let (found, draft) = lock_ok db id s v locked in
          let stored : db.versions.find id u ≡ some (as_published now v) =
            db.versions.find-update_many id id (λ x. true) (as_published now) s (λ x. refl)
            ∙ rw (==_refl id) (ap (written (λ x. true) (as_published now)) found) in
          let same = require_ok id u (as_published now v) w stored (ap (λ r. r.0) result) in
          let (there, mine) =
            head_of (λ c. (db.criteria.find c.id s ≡ some c) × (belongs_to id c ≡ true)) _ cs c
              listed (db.criteria.find_many_sound (belongs_to id) s) in
          record {
            before = v;
            found = found;
            draft = draft;
            criterion = c;
            there = there;
            mine = (==_iff c.rule_set_version_id id).0 mine;
            answer = sym same;
            stored = ap (λ x. db.versions.find id x) (sym state) ∙ (stored ∙ ap some same);
          }
    ]
  ]
