-- ===== src/Evaluation/Coverage/Validate.antt =====
-- `validateCoverageStats` and `validateBucket` of evaluation-invariants.ts.
use newbie_modules.Common.{
  String, Bool, true, false, not, Option, none, some, List, [], ◌∷◌, ◌++◌, if◌then◌else◌, ◌&&◌,
  str_eq, length, Dict,
}
use newbie_modules.Common.Int.{ℤ, pos, is_negative, is_positive, eq_ℤ}
use newbie_modules.Common.Counts.{sum_counts}
use newbie_modules.Evaluation.Contracts.{
  CoverageBucket, CoverageStats, Problem, BucketName, evaluated, declared_unlinked, skipped,
  unconsumed, bucket_required, total_not_natural, by_source_sum, skipped_note_required,
  skipped_items_required, skipped_items_count, declared_note_required, ref_not_in_manifest,
}
use newbie_modules.Evaluation.Coverage.Compose.{has}

-- `if (test) problems.push(p)`
abbrev pub push_if : Bool → Problem → List Problem
push_if b p = if b then p ∷ [] else []

-- `!bucket.note`
abbrev pub lacks_note : Option String → Bool
lacks_note none = true
lacks_note (some s) = str_eq s ""

-- `!bucket.items || bucket.items.length === 0`
abbrev pub lacks_items : Option (List String) → Bool
lacks_items none = true
lacks_items (some []) = true
lacks_items (some (id ∷ ids)) = false

abbrev pub sum_problems : BucketName → ℤ → Option (Dict ℤ) → List Problem
sum_problems name total none = []
sum_problems name total (some by_source) =
    push_if (not (eq_ℤ (sum_counts by_source) total))
      (by_source_sum name (sum_counts by_source) total)

abbrev pub items_problems : ℤ → Option (List String) → List Problem
items_problems total none = []
items_problems total (some ids) =
    push_if (not (eq_ℤ (pos (length ids)) total)) (skipped_items_count (length ids) total)

-- The checks that depend on the bucket's name.
abbrev pub named_problems : BucketName → CoverageBucket → List Problem
named_problems evaluated bucket = []
named_problems unconsumed bucket = []
named_problems skipped bucket =
    push_if (is_positive bucket.total && lacks_note bucket.note) skipped_note_required
    ++ (push_if (is_positive bucket.total && lacks_items bucket.items) skipped_items_required
        ++ items_problems bucket.total bucket.items)
named_problems declared_unlinked bucket =
    push_if (is_positive bucket.total && lacks_note bucket.note) declared_note_required

unfoldable pub validate_bucket : BucketName → CoverageBucket → List Problem
validate_bucket name bucket =
    push_if (is_negative bucket.total) (total_not_natural name)
    ++ (sum_problems name bucket.total bucket.by_source ++ named_problems name bucket)

abbrev pub validate_named : BucketName → Option CoverageBucket → List Problem
validate_named name none = bucket_required name ∷ []
validate_named name (some bucket) = validate_bucket name bucket

unfoldable pub outside_manifest : List String → List String → List Problem
outside_manifest manifest [] = []
outside_manifest manifest (ref ∷ refs) =
    push_if (not (has ref manifest)) (ref_not_in_manifest ref) ++ outside_manifest manifest refs

-- `stats?.evaluated?.items && manifestIds`
abbrev pub manifest_problems : Option CoverageBucket → Option (List String) → List Problem
manifest_problems none manifest = []
manifest_problems (some bucket) none = []
manifest_problems (some bucket) (some manifest) = elim bucket.items [
  | none ↦ []
  | some refs ↦ outside_manifest manifest refs
]

unfoldable pub validate_coverage_stats : CoverageStats → Option (List String) → List Problem
validate_coverage_stats stats manifest =
    validate_named evaluated stats.evaluated
    ++ (validate_named declared_unlinked stats.declared_unlinked
        ++ (validate_named skipped stats.skipped
            ++ (validate_named unconsumed stats.unconsumed
                ++ manifest_problems stats.evaluated manifest)))
