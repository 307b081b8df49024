-- ===== src/Evaluation/Criteria/Tests.antt =====
-- Versions and criteria of evaluation/evaluation-criteria.service.ts on two tables of rows, at
-- concrete inputs.
use newbie_modules.Common.{
  ℕ, ◌≡◌, refl, sym, ap, Option, none, some, List, [], ◌∷◌, ◌==◌, if◌then◌else◌, arith, select, not,
}
use newbie_modules.Common.Table.{matched}
use newbie_modules.Common.Rows.{
  find_row, find_rows, write_row, find_row-id, find_row-write_row, find_rows_sound,
  find_rows_complete,
}
use newbie_modules.Evaluation.Contracts.{scored}
use newbie_modules.Evaluation.Errors.{ok}
use newbie_modules.Evaluation.Criteria.Service.{
  Version, Criterion, CriteriaDb, CreateCriterionInput, as_published, publish_version,
  add_criterion, lock_draft_version, require_version,
}
use newbie_modules.Evaluation.Criteria.Freezing.{here, next, criterion_added, Freezes}
use newbie_modules.Evaluation.Criteria.Frozen.{Reach-Freezes}
use newbie_modules.Evaluation.Criteria.Publication.{IsPublished, publish_version_ok}

abbrev pub Tables : Type 0
Tables = List Version × List Criterion

abbrev pub insert : {Row : Type 0} → (Row → ℕ) → Row → List Row → Option (Row) → Option (List Row)
insert id_of r rs none = some (r ∷ rs)
insert id_of r rs (some q) = none

pub insert-some :
    {Row : Type 0} (id_of : Row → ℕ) (r : Row) (rs t : List Row) (o : Option Row)
    → insert id_of r rs o ≡ some t
    → (o ≡ none) × (t ≡ r ∷ rs)
insert-some id_of r rs t none h = (refl, cc)
insert-some id_of r rs t (some q) h = cc

abbrev pub with_versions : List Criterion → Option (List Version) → Option Tables
with_versions cs none = none
with_versions cs (some vs) = some (vs, cs)

pub with_versions-some :
    (cs : List Criterion) (o : Option (List Version)) (t : Tables)
    → with_versions cs o ≡ some t
    → (o ≡ some t.0) × (t.1 ≡ cs)
with_versions-some cs none t h = absurd (cc h)
with_versions-some cs (some vs) t h =
    let e : (vs, cs) ≡ t = cc h in (ap (λ x. some x.0) e, ap (λ x. x.1) (sym e))

abbrev pub with_criteria : List Version → Option (List Criterion) → Option Tables
with_criteria vs none = none
with_criteria vs (some cs) = some (vs, cs)

pub with_criteria-some :
    (vs : List Version) (o : Option (List Criterion)) (t : Tables)
    → with_criteria vs o ≡ some t
    → (o ≡ some t.1) × (t.0 ≡ vs)
with_criteria-some vs none t h = absurd (cc h)
with_criteria-some vs (some cs) t h =
    let e : (vs, cs) ≡ t = cc h in (ap (λ x. some x.1) e, ap (λ x. x.0) (sym e))

pub find_row-select :
    (id j : ℕ) (cs : List Criterion)
    → find_row (λ c. c.id) j (select (λ c. not (c.id == id)) cs)
      ≡ (if id == j then none else find_row (λ c. c.id) j cs)
find_row-select id j [] = ground arith
find_row-select id j (c ∷ cs) = ground (arith, find_row-select id j cs)

abbrev pub add_version_row : Version → Tables → Option Tables
add_version_row v s = with_versions s.1 (insert (λ v. v.id) v s.0 (find_row (λ v. v.id) v.id s.0))

abbrev pub add_criterion_row : Criterion → Tables → Option Tables
add_criterion_row c s = with_criteria s.0 (insert (λ c. c.id) c s.1 (find_row (λ c. c.id) c.id s.1))

abbrev pub tables : CriteriaDb Tables
tables = record {
  versions = record {
    find = λ j s. find_row (λ v. v.id) j s.0;
    find_many = λ p s. find_rows (λ v. v.id) p s.0;
    update_many = λ id p f s.
        ((write_row (λ v. v.id) id p f s.0, s.1), matched p (find_row (λ v. v.id) id s.0));
    find-id = λ j s. find_row-id (λ v. v.id) j s.0;
    find-update_many = λ id j p f s. find_row-write_row (λ v. v.id) id j p f s.0;
    count-update_many = λ id p f s. refl;
    find_many_sound = λ p s. find_rows_sound (λ v. v.id) p s.0;
    find_many_complete = λ p s. find_rows_complete (λ v. v.id) p s.0;
  };
  criteria = record {
    find = λ j s. find_row (λ c. c.id) j s.1;
    find_many = λ p s. find_rows (λ c. c.id) p s.1;
    update_many = λ id p f s.
        ((s.0, write_row (λ c. c.id) id p f s.1), matched p (find_row (λ c. c.id) id s.1));
    find-id = λ j s. find_row-id (λ c. c.id) j s.1;
    find-update_many = λ id j p f s. find_row-write_row (λ c. c.id) id j p f s.1;
    count-update_many = λ id p f s. refl;
    find_many_sound = λ p s. find_rows_sound (λ c. c.id) p s.1;
    find_many_complete = λ p s. find_rows_complete (λ c. c.id) p s.1;
  };
  create_version = add_version_row;
  create_criterion = add_criterion_row;
  delete_criterion = λ id s. (s.0, select (λ c. not (c.id == id)) s.1);
  find-create_version = λ v s t j made.
      let (added, same) = with_versions-some s.1 _ t made in
      rw (insert-some (λ v. v.id) v s.0 t.0 _ added).1;
  create_version_fresh = λ v s t made.
      let (added, same) = with_versions-some s.1 _ t made in
      (insert-some (λ v. v.id) v s.0 t.0 _ added).0;
  find-create_criterion = λ c s t j made.
      let (added, same) = with_criteria-some s.0 _ t made in
      rw (insert-some (λ c. c.id) c s.1 t.1 _ added).1;
  create_criterion_fresh = λ c s t made.
      let (added, same) = with_criteria-some s.0 _ t made in
      (insert-some (λ c. c.id) c s.1 t.1 _ added).0;
  find-delete_criterion = λ id s j. find_row-select id j s.1;
  criteria-create_version =
      λ v s t j made. ap (find_row (λ c. c.id) j) (with_versions-some s.1 _ t made).1;
  criteria-update_version = λ id p f s j. refl;
  versions-create_criterion =
      λ c s t j made. ap (find_row (λ v. v.id) j) (with_criteria-some s.0 _ t made).1;
  versions-update_criterion = λ id p f s j. refl;
  versions-delete_criterion = λ id s j. refl;
}

abbrev pub draft : Version
draft = record {
  id = 3;
  kind = "vendor";
  evaluation_key = "k";
  version = "1";
  description = none;
  published_at = none;
}

abbrev price : Criterion
price = record {
  id = 8;
  rule_set_version_id = 3;
  criterion_key = "price";
  kind = scored;
  name = "Price";
  description = none;
}

abbrev lapse : CreateCriterionInput
lapse = record { criterion_key = "lapse"; kind = scored; name = "Lapse"; description = none }

abbrev pub drafted : Tables
drafted = (draft ∷ [], price ∷ [])

abbrev issued : Tables
issued = (as_published 50 draft ∷ [], price ∷ [])

publishes_draft : publish_version tables 50 3 drafted ≡ (ok (as_published 50 draft), issued)
unfolding publish_version lock_draft_version require_version
publishes_draft = refl

publish_version_ok_example : IsPublished tables 50 3 drafted issued (as_published 50 draft)
publish_version_ok_example =
    publish_version_ok tables 50 3 drafted issued (as_published 50 draft) publishes_draft

Reach-Freezes_example :
    Freezes tables 3 (as_published 50 draft) issued (add_criterion tables 3 lapse 9 issued).1
Reach-Freezes_example =
    Reach-Freezes tables 3 (as_published 50 draft) (next here (criterion_added 3 lapse 9 issued))
      refl refl
