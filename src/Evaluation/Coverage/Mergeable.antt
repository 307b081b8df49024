-- ===== src/Evaluation/Coverage/Mergeable.antt =====
-- What a valid skipped bucket of evaluation-invariants.ts brings to a merge.
use newbie_modules.Common.{
  String, true, false, ◌≡◌, ◌≢◌, refl, sym, Option, none, some, List, [], ◌∷◌, ◌++◌, arith, ◌&&◌,
  Dict, length,
}
use newbie_modules.Common.Int.{ℤ, pos, is_negative, is_positive, eq_of_eq_ℤ}
use newbie_modules.Common.Counts.{sum_counts}
use newbie_modules.Evaluation.Contracts.{
  CoverageBucket, skipped, total_not_natural, skipped_note_required, skipped_items_required,
}
use newbie_modules.Evaluation.Coverage.Compose.{truthy, or_empty}
use newbie_modules.Evaluation.Coverage.Validate.{
  push_if, lacks_note, lacks_items, sum_problems, items_problems, validate_bucket,
}

-- What a valid skipped bucket gives to a merge, if it attributes what it counts.
pub record IsMergeable (bucket : CoverageBucket) : Type 0 where
  pub natural : is_negative bucket.total ≡ false
  pub summed : sum_counts (or_empty bucket.by_source) ≡ bucket.total
  pub listed : pos (length (or_empty bucket.items)) ≡ bucket.total
  pub noted : is_positive bucket.total ≡ true → truthy bucket.note ≢ none

-- A bucket that counts material attributes it to its sources.
abbrev pub IsAttributed : CoverageBucket → Type 0
IsAttributed bucket = bucket.by_source ≡ none → bucket.total ≡ pos 0

append_four-eq-nil {ℓ} :
    {A : Type ℓ} (a b c d e : List A)
    → a ++ (b ++ (c ++ (d ++ e))) ≡ []
    → (a ≡ []) × (b ≡ []) × (c ≡ []) × (d ≡ []) × (e ≡ [])
append_four-eq-nil [] [] [] [] e h = (refl, refl, refl, refl, h)
append_four-eq-nil [] [] [] (x ∷ d) e h = cc
append_four-eq-nil [] [] (x ∷ c) d e h = cc
append_four-eq-nil [] (x ∷ b) c d e h = cc
append_four-eq-nil (x ∷ a) b c d e h = cc

summed_of_valid :
    (total : ℤ) (by_source : Option (Dict ℤ))
    → sum_problems skipped total by_source ≡ []
    → (by_source ≡ none → total ≡ pos 0)
    → sum_counts (or_empty by_source) ≡ total
unfolding sum_counts
summed_of_valid total none h attributed = sym (attributed refl)
summed_of_valid total (some m) h attributed = eq_of_eq_ℤ (sum_counts m) total (ground arith)

listed_of_valid :
    (total : ℤ) (items : Option (List String))
    → is_negative total ≡ false
    → push_if (is_positive total && lacks_items items) skipped_items_required ≡ []
    → items_problems total items ≡ []
    → pos (length (or_empty items)) ≡ total
listed_of_valid total none sign h k = ground arith
listed_of_valid total (some ids) sign h k = eq_of_eq_ℤ (pos (length ids)) total (ground arith)

noted_of_valid :
    (total : ℤ) (note : Option String)
    → push_if (is_positive total && lacks_note note) skipped_note_required ≡ []
    → is_positive total ≡ true
    → truthy note ≢ none
noted_of_valid total none h p = ground arith
noted_of_valid total (some s) h p = ground arith

pub IsMergeable-of_valid :
    (bucket : CoverageBucket)
    → validate_bucket skipped bucket ≡ []
    → IsAttributed bucket
    → IsMergeable bucket
unfolding validate_bucket
IsMergeable-of_valid bucket h attributed =
    let (sign, sums, note, items, count) =
      append_four-eq-nil (push_if (is_negative bucket.total) (total_not_natural skipped))
        (sum_problems skipped bucket.total bucket.by_source)
        (push_if (is_positive bucket.total && lacks_note bucket.note) skipped_note_required)
        (push_if (is_positive bucket.total && lacks_items bucket.items) skipped_items_required)
        (items_problems bucket.total bucket.items) h in
    let natural : is_negative bucket.total ≡ false = ground arith in
    record {
      natural = natural;
      summed = summed_of_valid bucket.total bucket.by_source sums attributed;
      listed = listed_of_valid bucket.total bucket.items natural items count;
      noted = noted_of_valid bucket.total bucket.note note;
    }
