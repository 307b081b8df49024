-- ===== src/Evaluation/Coverage/Unattributed.antt =====
-- Where merging skipped buckets in evaluation-invariants.ts loses validity.
use newbie_modules.Common.{
  true, ◌≡◌, ◌≢◌, refl, sym, ◌∙◌, Option, none, some, [], ◌∷◌, arith, Dict, subst,
}
use newbie_modules.Common.Int.{ℤ, pos, ◌+ℤ◌, is_negative, is_positive, eq_of_eq_ℤ, zero-+ℤ}
use newbie_modules.Common.Counts.{sum_counts}
use newbie_modules.Evaluation.Contracts.{CoverageBucket, skipped, total_not_natural}
use newbie_modules.Evaluation.Coverage.Compose.{
  add_counts, non_empty, merge_from, merge_buckets, present,
}
use newbie_modules.Evaluation.Coverage.Validate.{push_if, sum_problems, validate_bucket}
use newbie_modules.Evaluation.Coverage.Attribution.{append-eq-nil}
use newbie_modules.Evaluation.Coverage.Merge.{sum-add_counts}

sum_of_no_problem :
    (total : ℤ) (by_source : Option (Dict ℤ)) (m : Dict ℤ)
    → by_source ≡ some m
    → sum_problems skipped total by_source ≡ []
    → sum_counts m ≡ total
sum_of_no_problem total none m h k = absurd (cc h)
sum_of_no_problem total (some n) m h k =
    let same : n ≡ m = cc h in
    let sums : sum_counts n ≡ total = eq_of_eq_ℤ (sum_counts n) total (ground arith) in
    subst (λ d. sum_counts d ≡ total) same sums

-- What a valid bucket attributes is what it counts.
attributed_sum :
    (bucket : CoverageBucket) (m : Dict ℤ)
    → validate_bucket skipped bucket ≡ []
    → bucket.by_source ≡ some m
    → sum_counts m ≡ bucket.total
unfolding validate_bucket
attributed_sum bucket m valid attributed =
    let (sign, rest) =
      append-eq-nil (push_if (is_negative bucket.total) (total_not_natural skipped)) _ valid in
    let (sums, named) = append-eq-nil (sum_problems skipped bucket.total bucket.by_source) _ rest in
    sum_of_no_problem bucket.total bucket.by_source m attributed sums

non_empty-some : (m : Dict ℤ) → sum_counts m ≢ pos 0 → non_empty m ≡ some m
unfolding sum_counts
non_empty-some [] h = absurd (h refl)
non_empty-some (e ∷ m) h = refl

sum_from_empty : (m : Dict ℤ) → sum_counts (add_counts m []) ≡ sum_counts m
unfolding sum_counts
sum_from_empty m = sum-add_counts m [] ∙ zero-+ℤ (sum_counts m)

positive-ne : (n : ℤ) → is_positive n ≡ true → n ≢ pos 0
positive-ne n h = ground arith

no_sum : (a b : ℤ) → is_positive a ≡ true → is_positive b ≡ true → b ≢ pos 0 +ℤ a +ℤ b
unfolding ◌+ℤ◌
no_sum a b h k = ground arith

-- Two skipped buckets that both pass validation may merge into one that does not: when the first
-- counts material and attributes none, and the second attributes what it counts, the sum over the
-- sources falls short of the merged total.
pub merge-rejected :
    (a b : CoverageBucket) (m : Dict ℤ)
    → validate_bucket skipped a ≡ []
    → validate_bucket skipped b ≡ []
    → a.by_source ≡ none
    → b.by_source ≡ some m
    → is_positive a.total ≡ true
    → is_positive b.total ≡ true
    → validate_bucket skipped (merge_buckets (some a ∷ some b ∷ [])) ≢ []
unfolding merge_buckets merge_from present add_counts
merge-rejected a b m valid_a valid_b none_a some_b counts_a counts_b valid =
    let sums = attributed_sum b m valid_b some_b in
    let here = sum_from_empty m ∙ sums in
    let listed =
      non_empty-some (add_counts m []) (λ e. positive-ne b.total counts_b (sym here ∙ e)) in
    let merged =
      attributed_sum (merge_buckets (some a ∷ some b ∷ [])) (add_counts m []) valid
        (rw (none_a, some_b) listed) in
    no_sum a.total b.total counts_a counts_b (sym here ∙ merged)
