-- ===== src/Evaluation/Coverage/Attribution.antt =====
-- The evaluated and the unconsumed bucket of evaluation-invariants.ts count what they list.
use newbie_modules.Common.{
  suc, String, false, ◌≡◌, ◌≢◌, refl, sym, ap, ◌∙◌, none, List, [], ◌∷◌, ◌++◌, map, arith, ◌||◌,
  Bool-cases, Option-cases, inl, inr, Dict, length, length-append, get, set, get-set,
}
use newbie_modules.Common.Int.{ℤ, pos, ◌+ℤ◌, eq_ℤ_refl, pos-+ℤ, +ℤ-zero, +ℤ_assoc}
use newbie_modules.Common.Counts.{add_count, sum_counts, sum-add_count}
use newbie_modules.Evaluation.Contracts.{EvidenceItem, Problem, ref_not_collected, unconsumed}
use newbie_modules.Evaluation.Coverage.Compose.{
  has, index_from, attribute, unconsumed_from, unconsumed_bucket,
}
use newbie_modules.Evaluation.Coverage.Validate.{validate_bucket, outside_manifest}

pub append-eq-nil {ℓ} : {A : Type ℓ} (xs ys : List A) → xs ++ ys ≡ [] → (xs ≡ []) × (ys ≡ [])
append-eq-nil [] ys h = (refl, h)
append-eq-nil (x ∷ xs) ys h = cc

append-snoc-ne {ℓ} : {A : Type ℓ} (xs : List A) (x : A) → xs ++ x ∷ [] ≢ []
append-snoc-ne [] x h = cc
append-snoc-ne (y ∷ xs) x h = cc

-- The evaluated bucket: once a problem is reported it stays reported.
attribute-ne-nil :
    (by_id : Dict EvidenceItem) (refs : List String) (m : Dict ℤ) (ps : List Problem)
    → ps ≢ []
    → (attribute by_id refs m ps).1 ≢ []
unfolding attribute
attribute-ne-nil by_id [] m ps h = h
attribute-ne-nil by_id (ref ∷ refs) m ps h = elim (Option-cases (get ref by_id)) [
  | inl missing ↦
      rw (missing, attribute)
        (attribute-ne-nil by_id refs m (ps ++ ref_not_collected ref ∷ [])
          (append-snoc-ne ps (ref_not_collected ref)))
  | inr (item, found) ↦
      rw (found, attribute) (attribute-ne-nil by_id refs (add_count item.source (pos 1) m) ps h)
]

-- With no problem every ref is counted under its source.
pub sum-attribute :
    (by_id : Dict EvidenceItem) (refs : List String) (m : Dict ℤ)
    → (attribute by_id refs m []).1 ≡ []
    → sum_counts (attribute by_id refs m []).0 ≡ sum_counts m +ℤ pos (length refs)
unfolding attribute
sum-attribute by_id [] m h = sym (+ℤ-zero (sum_counts m))
sum-attribute by_id (ref ∷ refs) m h = elim (Option-cases (get ref by_id)) [
  | inl missing ↦ absurd (
      attribute-ne-nil by_id refs m (ref_not_collected ref ∷ []) (λ e. cc)
        (rw (missing, attribute) at h))
  | inr (item, found) ↦
      let ih =
        sum-attribute by_id refs (add_count item.source (pos 1) m) (rw (found, attribute) at h) in
      rw (found, attribute)
        (ih
          ∙ (ap (λ s. s +ℤ pos (length refs)) (sum-add_count item.source (pos 1) m)
              ∙ (+ℤ_assoc (sum_counts m) (pos 1) (pos (length refs))
                  ∙ ap (λ s. sum_counts m +ℤ s) (pos-+ℤ 1 (length refs) ∙ ap pos (omega arith)))))
]

-- and every ref names an item.
get-index_from-has :
    (ref : String) (m : Dict EvidenceItem) (items : List EvidenceItem)
    → has ref (map (λ i. i.id) items) ≡ false
    → get ref (index_from m items) ≡ get ref m
unfolding index_from has
get-index_from-has ref m [] h = refl
get-index_from-has ref m (item ∷ items) h =
    ground (arith, get-index_from-has ref (set item.id item m) items, get-set item.id ref item m)

get-index_from-missing :
    (ref : String) (items : List EvidenceItem)
    → has ref (map (λ i. i.id) items) ≡ false
    → get ref (index_from [] items) ≡ none
unfolding get
get-index_from-missing ref items h = get-index_from-has ref [] items h

pub outside-attribute :
    (items : List EvidenceItem) (refs : List String) (m : Dict ℤ)
    → (attribute (index_from [] items) refs m []).1 ≡ []
    → outside_manifest (map (λ i. i.id) items) refs ≡ []
unfolding attribute outside_manifest
outside-attribute items [] m h = refl
outside-attribute items (ref ∷ refs) m h = elim (Option-cases (get ref (index_from [] items))) [
  | inl missing ↦ absurd (
      attribute-ne-nil (index_from [] items) refs m (ref_not_collected ref ∷ []) (λ e. cc)
        (rw (missing, attribute) at h))
  | inr (item, found) ↦ elim (Bool-cases (has ref (map (λ i. i.id) items))) [
    | inl there ↦ rw there (
        outside-attribute items refs (add_count item.source (pos 1) m) (rw (found, attribute) at h))
    | inr absent ↦ absurd (cc (get-index_from-missing ref items absent))
  ]
]

-- The unconsumed bucket: as many counts as ids.
pub unconsumed_from-sum :
    (seen cut : List String) (items : List EvidenceItem) (ids : List String) (m : Dict ℤ)
    → sum_counts m ≡ pos (length ids)
    → sum_counts (unconsumed_from seen cut items ids m).1
      ≡ pos (length (unconsumed_from seen cut items ids m).0)
unfolding unconsumed_from
unconsumed_from-sum seen cut [] ids m h = h
unconsumed_from-sum seen cut (item ∷ items) ids m h =
    elim (Bool-cases (has item.id seen || has item.id cut)) [
      | inl taken ↦ rw taken (unconsumed_from-sum seen cut items ids m h)
      | inr left ↦ rw left (
          unconsumed_from-sum seen cut items (ids ++ item.id ∷ []) (add_count item.source (pos 1) m)
            (sum-add_count item.source (pos 1) m
              ∙ (ap (λ s. s +ℤ pos 1) h
                  ∙ (pos-+ℤ (length ids) 1 ∙ ap pos (sym (length-append ids (item.id ∷ [])))))))
    ]

pub unconsumed_bucket-valid :
    (ids : List String) (m : Dict ℤ)
    → sum_counts m ≡ pos (length ids)
    → validate_bucket unconsumed (unconsumed_bucket ids m) ≡ []
unfolding validate_bucket
unconsumed_bucket-valid [] m h = refl
unconsumed_bucket-valid (id ∷ ids) m h = rw (h, eq_ℤ_refl (pos (suc (length ids))))
