-- ===== src/Evaluation/Coverage/Compose.antt =====
-- `composeCoverageStats`, `normalizeBucket` and `mergeBuckets` of evaluation-invariants.ts.
-- A `Set<string>` is the list of its members in insertion order. An object with the sources as keys is
-- a plain dictionary: a source that is spelled like an inherited member of objects, such as
-- `constructor`, is left out.
use Prim.Native.String
use newbie_modules.Common.{
  String, Bool, true, false, Option, none, some, List, [], ◌∷◌, ◌++◌, if◌then◌else◌, ◌||◌, str_eq,
  length, Dict, get, set,
}
use newbie_modules.Common.Int.{ℤ, pos, ◌+ℤ◌}
use newbie_modules.Common.Counts.{add_count}
use newbie_modules.Evaluation.Contracts.{
  EvidenceItem, CoverageBucket, CoverageStats, Problem, ref_not_collected,
}

-- `set.has(s)`
unfoldable pub has : String → List String → Bool
has s [] = false
has s (x ∷ xs) = if str_eq x s then true else has s xs

-- `[...new Set(xs)]`, with the members seen so far.
unfoldable pub dedupe_from : List String → List String → List String
dedupe_from seen [] = seen
dedupe_from seen (x ∷ xs) = dedupe_from (if has x seen then seen else seen ++ x ∷ []) xs

unfoldable pub dedupe : List String → List String
dedupe xs = dedupe_from [] xs

-- `new Map(items.map((item) => [item.id, item]))`
unfoldable pub index_from : Dict EvidenceItem → List EvidenceItem → Dict EvidenceItem
index_from m [] = m
index_from m (item ∷ items) = index_from (set item.id item m) items

-- The loop over the evaluated refs: the counts by source, and the refs that name no item.
unfoldable pub attribute :
    Dict EvidenceItem → List String → Dict ℤ → List Problem → Dict ℤ × List Problem
attribute by_id [] by_source problems = (by_source, problems)
attribute by_id (ref ∷ refs) by_source problems = elim (get ref by_id) [
  | none ↦ attribute by_id refs by_source (problems ++ ref_not_collected ref ∷ [])
  | some item ↦ attribute by_id refs (add_count item.source (pos 1) by_source) problems
]

-- `bucket?.items ?? []`
abbrev pub bucket_items : Option CoverageBucket → List String
bucket_items none = []
bucket_items (some bucket) = elim bucket.items [ none ↦ [] | some ids ↦ ids ]

unfoldable pub skipped_ids : List (Option CoverageBucket) → List String
skipped_ids [] = []
skipped_ids (bucket ∷ buckets) = bucket_items bucket ++ skipped_ids buckets

-- The loop over the items that were neither evaluated nor skipped.
unfoldable pub unconsumed_from :
    List String → List String → List EvidenceItem → List String → Dict ℤ → List String × Dict ℤ
unconsumed_from evaluated skipped [] ids by_source = (ids, by_source)
unconsumed_from evaluated skipped (item ∷ items) ids by_source =
    let rest =
      unconsumed_from evaluated skipped items (ids ++ item.id ∷ [])
        (add_count item.source (pos 1) by_source) in
    if has item.id evaluated || has item.id skipped
    then unconsumed_from evaluated skipped items ids by_source
    else rest

abbrev pub unconsumed_bucket : List String → Dict ℤ → CoverageBucket
unconsumed_bucket [] by_source = record {
  total = pos 0;
  by_source = none;
  note = none;
  items = none;
}
unconsumed_bucket (id ∷ ids) by_source = record {
  total = pos (length (id ∷ ids));
  by_source = some by_source;
  note = none;
  items = some (id ∷ ids);
}

-- A note is copied if it is truthy, so an empty text counts as none.
abbrev pub truthy : Option String → Option String
truthy none = none
truthy (some s) = if str_eq s "" then none else some s

unfoldable pub normalize_bucket : CoverageBucket → CoverageBucket
normalize_bucket bucket = record {
  total = bucket.total;
  by_source = bucket.by_source;
  note = truthy bucket.note;
  items = bucket.items;
}

-- `buckets.filter(Boolean)`
unfoldable pub present : List (Option CoverageBucket) → List CoverageBucket
present [] = []
present (none ∷ buckets) = present buckets
present (some bucket ∷ buckets) = bucket ∷ present buckets

-- `for (const [source, count] of Object.entries(…)) bySource[source] = (bySource[source] ?? 0) + count`
unfoldable pub add_counts : Dict ℤ → Dict ℤ → Dict ℤ
add_counts [] m = m
add_counts ((source, count) ∷ entries) m = add_counts entries (add_count source count m)

abbrev pub or_empty {ℓ} : {A : Type ℓ} → Option (List A) → List A
or_empty none = []
or_empty (some xs) = xs

abbrev pub to_list : Option String → List String
to_list none = []
to_list (some s) = s ∷ []

pub record Merging : Type 0 where
  pub total : ℤ
  pub by_source : Dict ℤ
  pub items : List String
  pub notes : List String

unfoldable pub merge_from : Merging → List CoverageBucket → Merging
merge_from m [] = m
merge_from m (bucket ∷ buckets) =
    merge_from
      (record {
        total = m.total +ℤ bucket.total;
        by_source = add_counts (or_empty bucket.by_source) m.by_source;
        items = m.items ++ or_empty bucket.items;
        notes = m.notes ++ to_list (truthy bucket.note);
      })
      buckets

-- `notes.join("; ")`
unfoldable pub join_notes : List String → String
join_notes [] = ""
join_notes (note ∷ []) = note
join_notes (note ∷ next ∷ notes) = String.◌++◌ note (String.◌++◌ "; " (join_notes (next ∷ notes)))

abbrev pub non_empty {ℓ} : {A : Type ℓ} → List A → Option (List A)
non_empty [] = none
non_empty (x ∷ xs) = some (x ∷ xs)

abbrev pub join_if_any : List String → Option String
join_if_any [] = none
join_if_any (note ∷ notes) = some (join_notes (note ∷ notes))

abbrev pub no_buckets : Merging
no_buckets = record { total = pos 0; by_source = []; items = []; notes = [] }

abbrev pub merged_bucket : Merging → CoverageBucket
merged_bucket m = record {
  total = m.total;
  by_source = non_empty m.by_source;
  note = join_if_any m.notes;
  items = non_empty m.items;
}

-- With no bucket present the loop leaves the same bucket as the early return.
unfoldable pub merge_buckets : List (Option CoverageBucket) → CoverageBucket
merge_buckets buckets = merged_bucket (merge_from no_buckets (present buckets))

pub record ComposeInput : Type 0 where
  pub items : List EvidenceItem
  pub evaluated_refs : List String
  pub declared_unlinked : CoverageBucket
  pub skipped_buckets : List (Option CoverageBucket)

unfoldable pub compose_coverage_stats : ComposeInput → CoverageStats × List Problem
compose_coverage_stats input =
    let refs = dedupe input.evaluated_refs in
    let by_id = index_from [] input.items in
    let (by_source, problems) = attribute by_id refs [] [] in
    let skipped = skipped_ids input.skipped_buckets in
    let (ids, left_by_source) = unconsumed_from refs skipped input.items [] [] in
    (
      record {
        evaluated = some (record {
          total = pos (length refs);
          by_source = some by_source;
          note = none;
          items = some refs;
        });
        declared_unlinked = some (normalize_bucket input.declared_unlinked);
        skipped = some (merge_buckets input.skipped_buckets);
        unconsumed = some (unconsumed_bucket ids left_by_source);
      },
      problems,
    )
