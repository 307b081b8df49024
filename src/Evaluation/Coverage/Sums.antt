-- ===== src/Evaluation/Coverage/Sums.antt =====
-- That the coverage composed by evaluation-invariants.ts passes its own validation.
use newbie_modules.Common.{
  String, ◌≡◌, refl, ap, ◌∙◌, Option, none, some, List, [], ◌∷◌, map, arith, Dict, length, All,
}
use newbie_modules.Common.Int.{ℤ, pos, eq_ℤ_refl, pos-+ℤ}
use newbie_modules.Common.Counts.{sum_counts}
use newbie_modules.Evaluation.Contracts.{
  EvidenceItem, CoverageBucket, evaluated, declared_unlinked, skipped, unconsumed,
}
use newbie_modules.Evaluation.Coverage.Compose.{
  dedupe, index_from, attribute, skipped_ids, unconsumed_from, unconsumed_bucket, present, truthy,
  normalize_bucket, merge_from, merge_buckets, no_buckets, ComposeInput, compose_coverage_stats,
}
use newbie_modules.Evaluation.Coverage.Validate.{
  lacks_note, validate_bucket, validate_coverage_stats,
}
use newbie_modules.Evaluation.Coverage.Attribution.{
  sum-attribute, outside-attribute, unconsumed_from-sum, unconsumed_bucket-valid,
}
use newbie_modules.Evaluation.Coverage.Mergeable.{IsAttributed, IsMergeable, IsMergeable-of_valid}
use newbie_modules.Evaluation.Coverage.Merge.{
  merge_from-IsMerged, no_buckets-IsMerged, merged_bucket-valid,
}

lacks_note-truthy : (note : Option String) → lacks_note (truthy note) ≡ lacks_note note
lacks_note-truthy none = refl
lacks_note-truthy (some s) = ground arith

declared-valid :
    (bucket : CoverageBucket)
    → validate_bucket declared_unlinked bucket ≡ []
    → validate_bucket declared_unlinked (normalize_bucket bucket) ≡ []
unfolding validate_bucket normalize_bucket
declared-valid bucket h = rw (lacks_note-truthy bucket.note) h

evaluated-valid :
    (refs : List String) (m : Dict ℤ)
    → sum_counts m ≡ pos (length refs)
    → validate_bucket evaluated
        (record { total = pos (length refs); by_source = some m; note = none; items = some refs })
      ≡ []
unfolding validate_bucket
evaluated-valid refs m h = rw (h, eq_ℤ_refl (pos (length refs)))

All-IsMergeable :
    (buckets : List CoverageBucket)
    → All (λ b. (validate_bucket skipped b ≡ []) × IsAttributed b) buckets
    → All IsMergeable buckets
All-IsMergeable [] h = tt
All-IsMergeable (b ∷ bs) ((valid, attributed), h) =
    (IsMergeable-of_valid b valid attributed, All-IsMergeable bs h)

skipped-valid :
    (buckets : List (Option CoverageBucket))
    → All (λ b. (validate_bucket skipped b ≡ []) × IsAttributed b) (present buckets)
    → validate_bucket skipped (merge_buckets buckets) ≡ []
unfolding merge_buckets
skipped-valid buckets h = merged_bucket-valid (merge_from no_buckets (present buckets)) (
    merge_from-IsMerged no_buckets (present buckets) no_buckets-IsMerged
      (All-IsMergeable (present buckets) h))

attribute-total :
    (items : List EvidenceItem) (refs : List String)
    → (attribute (index_from [] items) refs [] []).1 ≡ []
    → sum_counts (attribute (index_from [] items) refs [] []).0 ≡ pos (length refs)
unfolding sum_counts
attribute-total items refs h =
    sum-attribute (index_from [] items) refs [] h ∙ pos-+ℤ 0 (length refs) ∙ ap pos (omega arith)

unconsumed-valid :
    (seen cut : List String) (items : List EvidenceItem)
    → let left = unconsumed_from seen cut items [] [] in
      validate_bucket unconsumed (unconsumed_bucket left.0 left.1) ≡ []
unfolding sum_counts
unconsumed-valid seen cut items =
    unconsumed_bucket-valid _ _ (unconsumed_from-sum seen cut items [] [] refl)

-- A composed coverage passes validation against the ids of the collected items if no evaluated ref was unknown, the declared bucket is valid, and
-- each skipped bucket is valid and attributes what it counts to its sources.
pub compose-valid :
    (input : ComposeInput)
    → (compose_coverage_stats input).1 ≡ []
    → validate_bucket declared_unlinked input.declared_unlinked ≡ []
    → All (λ b. (validate_bucket skipped b ≡ []) × IsAttributed b) (present input.skipped_buckets)
    → validate_coverage_stats (compose_coverage_stats input).0 (some (map (λ i. i.id) input.items))
      ≡ []
unfolding compose_coverage_stats validate_coverage_stats
compose-valid input known declared buckets =
    let refs = dedupe input.evaluated_refs in
    rw (
      evaluated-valid refs _ (attribute-total input.items refs known),
      declared-valid input.declared_unlinked declared,
      skipped-valid input.skipped_buckets buckets,
      unconsumed-valid refs (skipped_ids input.skipped_buckets) input.items,
      outside-attribute input.items refs [] known,
    )
