-- ===== src/Evaluation/Result/Reads.antt =====
-- The reads of evaluation/evaluation-result.service.ts by the id of a result or of a run, and what
-- they answer of a result that was just archived.
use newbie_modules.Common.{
  ℕ, ◌≡◌, refl, sym, ap, ◌∙◌, String, Bool, ◌&&◌, not, Option, none, some, List, if◌then◌else◌,
  str_eq, ◌==◌, ==_refl,
}
use newbie_modules.Evaluation.Contracts.{EvidenceItem, CoverageStats}
use newbie_modules.Evaluation.Errors.{
  Text, not_found, Exception, http, Outcome, ok, throw, result_missing, result_of_other_kind,
  run_unconcluded, run_unconcluded_for,
}
use newbie_modules.Evaluation.Result.Service.{
  Result, CreateResultInput, ResultDb, new_result, create_result,
}
use newbie_modules.Evaluation.Result.Snapshot.{create_result_ok}

-- `runId` is a unique column, so a result is found by it.
pub record ResultReads (S : Type 0) (db : ResultDb S) : Type 0 where
  -- The kind of a result's subject, which its select joins.
  pub kind_of : Result → S → String
  pub find_for_run : ℕ → S → Option Result
  pub find_for_run-create :
      (r : Result) (s t : S) (run_id : ℕ)
      → db.create r s ≡ some t
      → find_for_run run_id t ≡ (if r.run_id == run_id then some r else find_for_run run_id s)

pub record Archived : Type 0 where
  pub content_hash : Text
  pub coverage_stats : CoverageStats
  pub manifest : List EvidenceItem

-- `kind && result.subject.kind !== kind`; the empty text is no kind.
abbrev pub is_other_kind : String → String → Bool
is_other_kind kind actual = not (str_eq kind "") && not (str_eq actual kind)

abbrev pub of_kind : Option String → String → (String → Exception) → Result → Outcome Result
of_kind none actual e r = ok r
of_kind (some kind) actual e r = if is_other_kind kind actual then throw (e kind) else ok r

module _ {S : Type 0} (db : ResultDb S) (reads : ResultReads S db) where
  unfoldable pub get_result : ℕ → Option String → S → Outcome Result
  get_result id kind s = elim (db.results.find id s) [
    | none ↦ throw (http not_found (result_missing id))
    | some r ↦ of_kind kind (reads.kind_of r s) (λ k. http not_found (result_of_other_kind id k)) r
  ]

  unfoldable pub get_result_manifest : ℕ → S → Outcome Archived
  get_result_manifest id s = elim (db.results.find id s) [
    | none ↦ throw (http not_found (result_missing id))
    | some r ↦ ok (record {
      content_hash = r.content_hash;
      coverage_stats = r.coverage_stats;
      manifest = r.manifest;
    })
  ]

  unfoldable pub get_result_for_run : ℕ → Option String → S → Outcome Result
  get_result_for_run run_id kind s = elim (reads.find_for_run run_id s) [
    | none ↦ throw (http not_found (run_unconcluded run_id))
    | some r ↦
        of_kind kind (reads.kind_of r s) (λ k. http not_found (run_unconcluded_for run_id k)) r
  ]

  -- A result that was archived is read back, by its id and by its run, as it was answered, and its
  -- manifest comes with the hash of exactly that manifest and with the coverage of the input.
  pub create_result-get :
      (hash : List EvidenceItem → Text) (id : ℕ) (input : CreateResultInput) (s t : S) (r : Result)
      → create_result db hash id input s ≡ (ok r, t)
      → (get_result id none t ≡ ok r)
        × (get_result_for_run input.run_id none t ≡ ok r)
        × (get_result_manifest id t
            ≡ ok (record {
              content_hash = hash input.manifest;
              coverage_stats = input.coverage_stats;
              manifest = input.manifest;
            }))
  unfolding get_result get_result_manifest get_result_for_run
  create_result-get hash id input s t r h =
      let made = create_result_ok db hash id input s t r h in
      let same : r ≡ new_result hash id input made.run = made.row in
      let by_run : reads.find_for_run input.run_id t ≡ some r =
        reads.find_for_run-create (new_result hash id input made.run) s t input.run_id made.created
        ∙ rw (==_refl input.run_id) (ap some (sym same)) in
      (
        rw (get_result, made.stored) refl,
        rw (get_result_for_run, by_run) refl,
        rw (get_result_manifest, made.stored ∙ ap some same) refl,
      )
