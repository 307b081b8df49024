-- ===== src/Evaluation/Coverage/Tests.antt =====
-- The coverage of evaluation-invariants.ts at concrete inputs.
use newbie_modules.Common.{String, ◌≡◌, refl, none, some, List, [], ◌∷◌, ◌&&◌, map, get, set}
use newbie_modules.Common.Int.{pos, ◌+ℤ◌}
use newbie_modules.Common.Counts.{sum_counts}
use newbie_modules.Evaluation.Contracts.{EvidenceItem, CoverageBucket, skipped, declared_unlinked}
use newbie_modules.Evaluation.Coverage.Compose.{
  has, dedupe_from, dedupe, index_from, attribute, bucket_items, skipped_ids, ComposeInput,
  compose_coverage_stats, unconsumed_from, present,
}
use newbie_modules.Evaluation.Coverage.Validate.{validate_bucket, validate_coverage_stats}
use newbie_modules.Evaluation.Coverage.Partition.{is_left, compose-accounts}
use newbie_modules.Evaluation.Coverage.Sums.{compose-valid}

abbrev item : String → String → EvidenceItem
item id source = record { id = id; layer = "L1"; source = source; summary = "s"; observed_at = 1 }

abbrev three_items : List EvidenceItem
three_items = item "a" "crm" ∷ item "b" "web" ∷ item "c" "crm" ∷ []

abbrev cut : CoverageBucket
cut = record {
  total = pos 1;
  by_source = some (("web", pos 1) ∷ []);
  note = some "budget";
  items = some ("b" ∷ []);
}

abbrev nothing : CoverageBucket
nothing = record { total = pos 0; by_source = none; note = none; items = none }

abbrev input : ComposeInput
input = record {
  items = three_items;
  evaluated_refs = "a" ∷ "a" ∷ [];
  declared_unlinked = nothing;
  skipped_buckets = some cut ∷ none ∷ [];
}

compose_problems : (compose_coverage_stats input).1 ≡ []
unfolding compose_coverage_stats dedupe dedupe_from has index_from attribute get set
compose_problems = refl

compose_left : bucket_items (compose_coverage_stats input).0.unconsumed ≡ "c" ∷ []
unfolding compose_coverage_stats dedupe dedupe_from has skipped_ids unconsumed_from
compose_left = refl

cut_valid : validate_bucket skipped cut ≡ []
unfolding validate_bucket sum_counts ◌+ℤ◌
cut_valid = refl

nothing_valid : validate_bucket declared_unlinked nothing ≡ []
unfolding validate_bucket
nothing_valid = refl

compose-accounts_example :
    let stats = (compose_coverage_stats input).0 in
    (has "c" (bucket_items stats.evaluated) ≡ has "c" input.evaluated_refs)
    × (has "c" (bucket_items stats.skipped) ≡ has "c" (skipped_ids input.skipped_buckets))
    × (has "c" (bucket_items stats.unconsumed) ≡ (
        has "c" (map (λ i. i.id) input.items)
        && is_left "c" input.evaluated_refs (skipped_ids input.skipped_buckets)))
compose-accounts_example = compose-accounts input "c"

compose-valid_example :
    validate_coverage_stats (compose_coverage_stats input).0 (some (map (λ i. i.id) input.items))
    ≡ []
unfolding present
compose-valid_example =
    compose-valid input compose_problems nothing_valid ((cut_valid, λ e. cc), tt)

abbrev uncounted : CoverageBucket
uncounted = record { total = pos 1; by_source = none; note = some "lost"; items = some ("z" ∷ []) }

uncounted_valid : validate_bucket skipped uncounted ≡ []
unfolding validate_bucket
uncounted_valid = refl
