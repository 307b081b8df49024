-- ===== src/Evaluation/Coverage/Partition.antt =====
-- Where each collected item ends up in the coverage that evaluation-invariants.ts composes.
use newbie_modules.Common.{
  String, Bool, not, ◌≡◌, refl, ap, ◌∙◌, Option, none, some, List, [], ◌∷◌, ◌++◌, map, arith, ◌&&◌,
  ◌||◌, str_eq, eq_iff, Dict,
}
use newbie_modules.Common.Int.{ℤ, pos, ◌+ℤ◌}
use newbie_modules.Common.Counts.{add_count}
use newbie_modules.Evaluation.Contracts.{EvidenceItem, CoverageBucket}
use newbie_modules.Evaluation.Coverage.Compose.{
  has, dedupe_from, dedupe, bucket_items, skipped_ids, unconsumed_from, unconsumed_bucket, present,
  Merging, merge_from, merge_buckets, merged_bucket, no_buckets, or_empty, ComposeInput,
  compose_coverage_stats, truthy, to_list, add_counts,
}

pub has-append : (x : String) (xs ys : List String) → has x (xs ++ ys) ≡ (has x xs || has x ys)
unfolding has
has-append x [] ys = refl
has-append x (y ∷ xs) ys = ground (arith, has-append x xs ys)

pub has-map_id :
    (x : String) (item : EvidenceItem) (items : List EvidenceItem)
    → has x (map (λ i. i.id) (item ∷ items)) ≡ (str_eq item.id x || has x (map (λ i. i.id) items))
unfolding has
has-map_id x item items = ground arith

has-dedupe_from :
    (x : String) (seen xs : List String) → has x (dedupe_from seen xs) ≡ (has x seen || has x xs)
unfolding dedupe_from has
has-dedupe_from x seen [] = ground arith
has-dedupe_from x seen (y ∷ xs) = ground (
  arith,
  has-dedupe_from x seen xs,
  has-dedupe_from x (seen ++ y ∷ []) xs,
  has-append x seen (y ∷ []),
  eq_iff y x,
)

pub has-dedupe : (x : String) (xs : List String) → has x (dedupe xs) ≡ has x xs
unfolding dedupe has
has-dedupe x xs = has-dedupe_from x [] xs

-- What stays of the manifest once the evaluated and the skipped ids are taken out.
abbrev pub is_left : String → List String → List String → Bool
is_left x evaluated skipped = not (has x evaluated) && not (has x skipped)

has-unconsumed_from :
    (x : String) (evaluated skipped : List String) (items : List EvidenceItem) (ids : List String)
    (m : Dict ℤ)
    → has x (unconsumed_from evaluated skipped items ids m).0
      ≡ (has x ids || (has x (map (λ i. i.id) items) && is_left x evaluated skipped))
unfolding unconsumed_from has
has-unconsumed_from x evaluated skipped [] ids m = ground arith
has-unconsumed_from x evaluated skipped (item ∷ items) ids m = ground (
  arith,
  eq_iff item.id x,
  has-append x ids (item.id ∷ []),
  has-unconsumed_from x evaluated skipped items ids m,
  has-unconsumed_from x evaluated skipped items (ids ++ item.id ∷ [])
      (add_count item.source (pos 1) m),
)

bucket_items-unconsumed_bucket :
    (ids : List String) (m : Dict ℤ) → bucket_items (some (unconsumed_bucket ids m)) ≡ ids
bucket_items-unconsumed_bucket [] m = refl
bucket_items-unconsumed_bucket (id ∷ ids) m = refl

merge_from-items :
    (x : String) (m : Merging) (buckets : List (Option CoverageBucket))
    → has x (merge_from m (present buckets)).items ≡ (has x m.items || has x (skipped_ids buckets))
unfolding merge_from present skipped_ids has
merge_from-items x m [] = ground arith
merge_from-items x m (none ∷ buckets) = merge_from-items x m buckets
merge_from-items x m (some bucket ∷ buckets) = ground (
  arith,
  has-append x m.items (or_empty bucket.items),
  has-append x (bucket_items (some bucket)) (skipped_ids buckets),
  merge_from-items x
      (record {
        total = m.total +ℤ bucket.total;
        by_source = add_counts (or_empty bucket.by_source) m.by_source;
        items = m.items ++ or_empty bucket.items;
        notes = m.notes ++ to_list (truthy bucket.note);
      })
      buckets,
)

bucket_items-merged_bucket :
    (total : ℤ) (by_source : Dict ℤ) (items notes : List String)
    → bucket_items (
        some (
          merged_bucket
            (record { total = total; by_source = by_source; items = items; notes = notes })))
      ≡ items
bucket_items-merged_bucket total by_source [] notes = refl
bucket_items-merged_bucket total by_source (id ∷ ids) notes = refl

-- Every id is accounted for. The evaluated bucket holds exactly the examined refs, the skipped
-- bucket exactly the ids that a skipped bucket lists, and the unconsumed bucket exactly the ids of
-- the collected items that are in neither.
pub compose-accounts :
    (input : ComposeInput) (x : String)
    → let stats = (compose_coverage_stats input).0 in
      (has x (bucket_items stats.evaluated) ≡ has x input.evaluated_refs)
      × (has x (bucket_items stats.skipped) ≡ has x (skipped_ids input.skipped_buckets))
      × (has x (bucket_items stats.unconsumed) ≡ (
          has x (map (λ i. i.id) input.items)
          && is_left x input.evaluated_refs (skipped_ids input.skipped_buckets)))
unfolding compose_coverage_stats merge_buckets has
compose-accounts input x =
    let refs = dedupe input.evaluated_refs in
    let skipped = skipped_ids input.skipped_buckets in
    let left = unconsumed_from refs skipped input.items [] [] in
    let merged = merge_from no_buckets (present input.skipped_buckets) in
    (
      has-dedupe x input.evaluated_refs,
      ap (has x)
            (bucket_items-merged_bucket merged.total merged.by_source merged.items merged.notes)
          ∙ merge_from-items x no_buckets input.skipped_buckets,
      ap (has x) (bucket_items-unconsumed_bucket left.0 left.1)
          ∙ (has-unconsumed_from x refs skipped input.items [] []
              ∙ ap (λ b. has x (map (λ i. i.id) input.items) && (not b && not (has x skipped)))
                  (has-dedupe x input.evaluated_refs)),
    )
