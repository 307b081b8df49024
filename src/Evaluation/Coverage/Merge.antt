-- ===== src/Evaluation/Coverage/Merge.antt =====
-- Merging valid skipped buckets in evaluation-invariants.ts gives a valid skipped bucket.
use Prim.Native.String
use text.Mathlib.TextLemmas.{cons-append}
use newbie_modules.Common.{
  String, true, false, ◌≡◌, ◌≢◌, refl, sym, ap, ◌∙◌, Option, none, some, List, [], ◌∷◌, ◌++◌, arith,
  ◌&&◌, Bool-cases, inl, inr, eq_iff, str_eq_of_ne, Dict, length, length-append, All, All-append,
}
use newbie_modules.Common.Int.{
  ℤ, pos, ◌+ℤ◌, is_negative, is_positive, eq_ℤ_refl, pos-+ℤ, +ℤ-zero, +ℤ_assoc, +ℤ-natural,
  +ℤ-positive,
}
use newbie_modules.Common.Counts.{add_count, sum_counts, sum-add_count}
use newbie_modules.Evaluation.Contracts.{
  CoverageBucket, skipped, skipped_note_required, skipped_items_required,
}
use newbie_modules.Evaluation.Coverage.Compose.{
  truthy, to_list, Merging, merge_from, merged_bucket, no_buckets, non_empty, or_empty, add_counts,
  join_notes, join_if_any,
}
use newbie_modules.Evaluation.Coverage.Validate.{
  push_if, lacks_note, lacks_items, sum_problems, items_problems, validate_bucket,
}
use newbie_modules.Evaluation.Coverage.Attribution.{append-eq-nil}
use newbie_modules.Evaluation.Coverage.Mergeable.{IsMergeable}

-- The invariant of the merge.
pub record IsMerged (m : Merging) : Type 0 where
  pub natural : is_negative m.total ≡ false
  pub summed : sum_counts m.by_source ≡ m.total
  pub listed : pos (length m.items) ≡ m.total
  pub noted : is_positive m.total ≡ true → m.notes ≢ []
  pub full : All (λ note. note ≢ "") m.notes

pub sum-add_counts :
    (entries m : Dict ℤ) → sum_counts (add_counts entries m) ≡ sum_counts m +ℤ sum_counts entries
unfolding add_counts sum_counts
sum-add_counts [] m = sym (+ℤ-zero (sum_counts m))
sum-add_counts ((source, count) ∷ entries) m =
    sum-add_counts entries (add_count source count m)
    ∙ (ap (λ s. s +ℤ sum_counts entries) (sum-add_count source count m)
        ∙ +ℤ_assoc (sum_counts m) count (sum_counts entries))

truthy_full : (note : Option String) → All (λ s. s ≢ "") (to_list (truthy note))
truthy_full none = tt
truthy_full (some s) = ground (arith, eq_iff s "")

merge_step : Merging → CoverageBucket → Merging
merge_step m bucket = record {
  total = m.total +ℤ bucket.total;
  by_source = add_counts (or_empty bucket.by_source) m.by_source;
  items = m.items ++ or_empty bucket.items;
  notes = m.notes ++ to_list (truthy bucket.note);
}

to_list-nil : (note : Option String) → to_list note ≡ [] → note ≡ none
to_list-nil none h = refl
to_list-nil (some s) h = cc

merge_step-IsMerged :
    (m : Merging) (bucket : CoverageBucket)
    → IsMerged m
    → IsMergeable bucket
    → IsMerged (merge_step m bucket)
unfolding merge_step
merge_step-IsMerged m bucket h k = record {
  natural = +ℤ-natural m.total bucket.total h.natural k.natural;
  summed = sum-add_counts (or_empty bucket.by_source) m.by_source ∙ cc (h.summed, k.summed);
  listed =
      ap pos (length-append m.items (or_empty bucket.items))
      ∙ (sym (pos-+ℤ (length m.items) (length (or_empty bucket.items))) ∙ cc (h.listed, k.listed));
  noted = λ p e.
      let (old, new) = append-eq-nil m.notes (to_list (truthy bucket.note)) e in
      elim (+ℤ-positive m.total bucket.total h.natural k.natural p) [
        | inl q ↦ h.noted q old
        | inr q ↦ k.noted q (to_list-nil (truthy bucket.note) new)
      ];
  full = All-append (λ s. s ≢ "") m.notes _ h.full (truthy_full bucket.note);
}

pub merge_from-IsMerged :
    (m : Merging) (buckets : List CoverageBucket)
    → IsMerged m
    → All IsMergeable buckets
    → IsMerged (merge_from m buckets)
unfolding merge_from merge_step
merge_from-IsMerged m [] h k = h
merge_from-IsMerged m (bucket ∷ buckets) h (k, ks) =
    merge_from-IsMerged (merge_step m bucket) buckets (merge_step-IsMerged m bucket h k) ks

append-full : (s t : String) → s ≢ "" → String.◌++◌ s t ≢ ""
append-full String.[] t h = absurd (h refl)
append-full (String.◌∷◌ c s) t h = λ e. cc (rw cons-append at e)

join_notes-full :
    (notes : List String)
    → notes ≢ []
    → All (λ s. s ≢ "") notes
    → lacks_note (join_if_any notes) ≡ false
unfolding join_notes
join_notes-full [] h k = absurd (h refl)
join_notes-full (note ∷ []) h (k, ks) = ground (arith, eq_iff note "")
join_notes-full (note ∷ next ∷ notes) h (k, ks) =
    str_eq_of_ne _ "" (append-full note (String.◌++◌ "; " (join_notes (next ∷ notes))) k)

pub no_buckets-IsMerged : IsMerged no_buckets
unfolding sum_counts
no_buckets-IsMerged = record {
  natural = refl;
  summed = refl;
  listed = refl;
  noted = λ p e. cc;
  full = tt;
}

merged_sum :
    (total : ℤ) (m : Dict ℤ) → sum_counts m ≡ total → sum_problems skipped total (non_empty m) ≡ []
merged_sum total [] h = refl
merged_sum total (e ∷ m) h = rw (h, eq_ℤ_refl total)

merged_items :
    (total : ℤ) (ids : List String)
    → pos (length ids) ≡ total
    → (push_if (is_positive total && lacks_items (non_empty ids)) skipped_items_required ≡ [])
      × (items_problems total (non_empty ids) ≡ [])
merged_items total [] h = (rw (← h), refl)
merged_items total (id ∷ ids) h = (ground arith, rw (h, eq_ℤ_refl total))

merged_note :
    (total : ℤ) (notes : List String)
    → (is_positive total ≡ true → notes ≢ [])
    → All (λ s. s ≢ "") notes
    → push_if (is_positive total && lacks_note (join_if_any notes)) skipped_note_required ≡ []
merged_note total notes h k = elim (Bool-cases (is_positive total)) [
  | inl p ↦ rw (p, join_notes-full notes (h p) k)
  | inr p ↦ rw p
]

pub merged_bucket-valid :
    (m : Merging) → IsMerged m → validate_bucket skipped (merged_bucket m) ≡ []
unfolding validate_bucket
merged_bucket-valid m h =
    let (lists, count) = merged_items m.total m.items h.listed in
    rw (
      h.natural,
      merged_sum m.total m.by_source h.summed,
      merged_note m.total m.notes h.noted h.full,
      lists,
      count,
    )
