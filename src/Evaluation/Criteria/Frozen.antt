-- ===== src/Evaluation/Criteria/Frozen.antt =====
-- That a published version of evaluation/evaluation-criteria.service.ts never changes again.
use newbie_modules.Common.{
  ℕ, ◌≡◌, refl, sym, ap, ◌∙◌, String, true, false, Option, some, ◌==◌, Bool-cases, Option-cases,
  inl, inr, ==_iff, ==_refl,
}
use newbie_modules.Common.Table.{written}
use newbie_modules.Evaluation.Errors.{Outcome-cases}
use newbie_modules.Evaluation.Criteria.Service.{
  Version, CreateVersionInput, CreateCriterionInput, UpdateCriterionInput, CriteriaDb, is_draft,
  described, as_published, edited, new_version, new_criterion, belongs_to, lock_draft_version,
  add_version, update_version, publish_version, add_criterion, update_criterion, remove_criterion,
}
use newbie_modules.Evaluation.Criteria.Freezing.{
  List-cases, some_of, none_of, neq, Step, added, updated, published, criterion_added,
  criterion_updated, criterion_removed, Reach, here, next, Freezes, other_version, Freezes-refl,
  Freezes-elsewhere, Freezes-versions,
}

module _ {S : Type 0} (db : CriteriaDb S) where
  module _ (j : ℕ) (v : Version) (s : S) (found : db.versions.find j s ≡ some v)
      (out : is_draft v ≡ false) where
    created_elsewhere :
        (w : Version) (t : S) → db.create_version w s ≡ some t → db.versions.find j t ≡ some v
    created_elsewhere w t made = elim (Bool-cases (w.id == j)) [
      | inl same ↦
          let e : w.id ≡ j = (==_iff w.id j).0 same in
          absurd (
            none_of (
              sym (db.create_version_fresh w s t made)
              ∙ (ap (λ k. db.versions.find k s) e ∙ found)))
      | inr other ↦ db.find-create_version w s t j made ∙ rw other found
    ]

    add_version-Freezes :
        (input : CreateVersionInput) (id : ℕ) → Freezes db j v s (add_version db input id s).1
    unfolding add_version
    add_version-Freezes input id =
        let w = new_version input id in
        elim (Option-cases (db.create_version w s)) [
          | inl refused ↦ rw (refused, add_version) (Freezes-refl db j v s found out)
          | inr (t, made) ↦
              rw (made, add_version)
                (Freezes-versions db j v s found out t (created_elsewhere w t made)
                  (λ k. db.criteria-create_version w s t k made))
        ]

    update_version-state :
        (id : ℕ) (description : Option String)
        → (update_version db id description s).1
          ≡ (db.versions.update_many id is_draft (described description) s).0
    unfolding update_version
    update_version-state id description =
        elim (Bool-cases ((db.versions.update_many id is_draft (described description) s).1 == 0)) [
          | inl missed ↦ rw missed
          | inr hit ↦ rw hit
        ]

    update_version-Freezes :
        (id : ℕ) (description : Option String)
        → Freezes db j v s (update_version db id description s).1
    update_version-Freezes id description = rw (update_version-state id description) (
        Freezes-versions db j v s found out _
          (db.versions.find-update_many id j is_draft (described description) s (λ w. refl)
            ∙ elim (Bool-cases (id == j)) [
              | inl same ↦
                  rw same (ap (written is_draft (described description)) found ∙ rw out refl)
              | inr other ↦ rw other found
            ])
          (db.criteria-update_version id is_draft (described description) s))

    publish_version-Freezes : (now id : ℕ) → Freezes db j v s (publish_version db now id s).1
    unfolding publish_version
    publish_version-Freezes now id = elim (Outcome-cases (lock_draft_version db id s)) [
      | inl (e, refused) ↦ rw (refused, publish_version) (Freezes-refl db j v s found out)
      | inr (w, locked) ↦ elim (List-cases (db.criteria.find_many (belongs_to id) s)) [
        | inl empty ↦ rw (locked, publish_version, empty) (Freezes-refl db j v s found out)
        | inr (c, cs, some_there) ↦
            rw (locked, publish_version, some_there)
              (Freezes-versions db j v s found out _
                (db.versions.find-update_many id j (λ x. true) (as_published now) s (λ x. refl)
                  ∙ (rw (neq id j (other_version db j v s found out id w locked)) found))
                (db.criteria-update_version id (λ x. true) (as_published now) s))
      ]
    ]

    add_criterion-Freezes :
        (version_id : ℕ) (input : CreateCriterionInput) (id : ℕ)
        → Freezes db j v s (add_criterion db version_id input id s).1
    unfolding add_criterion
    add_criterion-Freezes version_id input id =
        let c = new_criterion version_id input id in
        elim (Outcome-cases (lock_draft_version db version_id s)) [
          | inl (e, refused) ↦ rw (refused, add_criterion) (Freezes-refl db j v s found out)
          | inr (w, locked) ↦ elim (Option-cases (db.create_criterion c s)) [
            | inl failed ↦ rw (locked, add_criterion, failed) (Freezes-refl db j v s found out)
            | inr (t, made) ↦
                rw (locked, add_criterion, made)
                  (Freezes-elsewhere db j v s found out id t
                    (db.versions-create_criterion c s t j made)
                    (λ k other. db.find-create_criterion c s t k made ∙ rw other)
                    (λ d there.
                      absurd (none_of (sym (db.create_criterion_fresh c s t made) ∙ there)))
                    (λ d there e.
                      let new : some c ≡ some d =
                        sym (db.find-create_criterion c s t id made ∙ rw (==_refl id) refl)
                        ∙ there in
                      other_version db j v s found out version_id w locked
                        (ap (λ x. x.rule_set_version_id) (some_of new) ∙ e)))
          ]
        ]

    update_criterion-Freezes :
        (id : ℕ) (input : UpdateCriterionInput)
        → Freezes db j v s (update_criterion db id input s).1
    unfolding update_criterion
    update_criterion-Freezes id input = elim (Option-cases (db.criteria.find id s)) [
      | inl missing ↦ rw (missing, update_criterion) (Freezes-refl db j v s found out)
      | inr (c, there) ↦ elim (Outcome-cases (lock_draft_version db c.rule_set_version_id s)) [
        | inl (e, refused) ↦ rw (there, update_criterion, refused) (Freezes-refl db j v s found out)
        | inr (w, locked) ↦
            let elsewhere = other_version db j v s found out c.rule_set_version_id w locked in
            let t = (db.criteria.update_many id (λ x. true) (edited input) s).0 in
            let after : db.criteria.find id t ≡ some (edited input c) =
              db.criteria.find-update_many id id (λ x. true) (edited input) s (λ x. refl)
              ∙ rw (==_refl id) (ap (written (λ x. true) (edited input)) there) in
            rw (there, update_criterion, locked)
              (Freezes-elsewhere db j v s found out id t
                (db.versions-update_criterion id (λ x. true) (edited input) s j)
                (λ k other.
                  db.criteria.find-update_many id k (λ x. true) (edited input) s (λ x. refl)
                  ∙ rw other)
                (λ d here e.
                  elsewhere (ap (λ x. x.rule_set_version_id) (some_of (sym there ∙ here)) ∙ e))
                (λ d here e.
                  elsewhere (ap (λ x. x.rule_set_version_id) (some_of (sym after ∙ here)) ∙ e)))
      ]
    ]

    remove_criterion-Freezes : (id : ℕ) → Freezes db j v s (remove_criterion db id s).1
    unfolding remove_criterion
    remove_criterion-Freezes id = elim (Option-cases (db.criteria.find id s)) [
      | inl missing ↦ rw (missing, remove_criterion) (Freezes-refl db j v s found out)
      | inr (c, there) ↦ elim (Outcome-cases (lock_draft_version db c.rule_set_version_id s)) [
        | inl (e, refused) ↦ rw (there, remove_criterion, refused) (Freezes-refl db j v s found out)
        | inr (w, locked) ↦
            let elsewhere = other_version db j v s found out c.rule_set_version_id w locked in
            rw (there, remove_criterion, locked)
              (Freezes-elsewhere db j v s found out id _ (db.versions-delete_criterion id s j)
                (λ k other. db.find-delete_criterion id s k ∙ rw other)
                (λ d here e.
                  elsewhere (ap (λ x. x.rule_set_version_id) (some_of (sym there ∙ here)) ∙ e))
                (λ d here.
                  absurd (
                    none_of
                      (sym (db.find-delete_criterion id s id ∙ rw (==_refl id) refl) ∙ here))))
      ]
    ]

  Step-Freezes :
      {s t : S} (j : ℕ) (v : Version)
      → Step db s t
      → db.versions.find j s ≡ some v
      → is_draft v ≡ false
      → Freezes db j v s t
  Step-Freezes j v (added input id s) found out = add_version-Freezes j v s found out input id
  Step-Freezes j v (updated id description s) found out =
      update_version-Freezes j v s found out id description
  Step-Freezes j v (published now id s) found out = publish_version-Freezes j v s found out now id
  Step-Freezes j v (criterion_added version_id input id s) found out =
      add_criterion-Freezes j v s found out version_id input id
  Step-Freezes j v (criterion_updated id input s) found out =
      update_criterion-Freezes j v s found out id input
  Step-Freezes j v (criterion_removed id s) found out = remove_criterion-Freezes j v s found out id

  -- Publication is one-way and final: whatever is called after it, in whatever order, a published
  -- version keeps every column, and its criteria are exactly the same rows.
  pub Reach-Freezes :
      {s t : S} (j : ℕ) (v : Version)
      → Reach db s t
      → db.versions.find j s ≡ some v
      → is_draft v ≡ false
      → Freezes db j v s t
  Reach-Freezes {s} j v here found out = Freezes-refl db j v s found out
  Reach-Freezes j v (next r step) found out =
      let first = Reach-Freezes j v r found out in
      let then_next = Step-Freezes j v step first.version out in
      record {
        version = then_next.version;
        criteria = λ k c mine.
            let (a, b) = first.criteria k c mine in
            let (x, y) = then_next.criteria k c mine in (λ h. x (a h), λ h. b (y h));
      }
