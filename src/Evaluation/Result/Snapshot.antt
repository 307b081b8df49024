-- ===== src/Evaluation/Result/Snapshot.antt =====
-- What an archived result of evaluation/evaluation-result.service.ts holds, and that it stays.
use newbie_modules.Common.{
  ℕ, ◌≡◌, ◌≢◌, ◌⊎◌, refl, sym, ap, ◌∙◌, true, ◌&&◌, some, List, [], ◌∷◌, ◌==◌, Bool-cases,
  Option-cases, inl, inr, ==_iff, ==_refl, arith,
}
use newbie_modules.Common.Evolution.{Keeps, update_many-Keeps}
use newbie_modules.Evaluation.Contracts.{EvidenceItem}
use newbie_modules.Evaluation.Coverage.Validate.{validate_coverage_stats}
use newbie_modules.Evaluation.Judgment.Validate.{validate_judgment}
use newbie_modules.Evaluation.Errors.{Text, ok}
use newbie_modules.Evaluation.Run.State.{Run, is_active}
use newbie_modules.Evaluation.Result.Service.{
  Result, CreateResultInput, ReviewInput, ResultDb, manifest_ids, new_result, as_reviewed,
  is_rejection, lacks_reason, archive, result_problems, create_result, review_result,
}

List-cases : {A : Type 0} (xs : List A) → (xs ≡ []) ⊎ ((x : A) × (ys : List A) × (xs ≡ x ∷ ys))
List-cases [] = inl refl
List-cases (x ∷ xs) = inr (x, xs, refl)

some_of : {A : Type 0} {a b : A} → some a ≡ some b → a ≡ b
some_of h = cc

-- Everything but the review.
pub record SameSnapshot (r q : Result) : Type 0 where
  pub run : q.run_id ≡ r.run_id
  pub subject : q.subject_id ≡ r.subject_id
  pub version : q.rule_set_version_id ≡ r.rule_set_version_id
  pub manifest : q.manifest ≡ r.manifest
  pub content_hash : q.content_hash ≡ r.content_hash
  pub coverage : q.coverage_stats ≡ r.coverage_stats
  pub verdicts : q.verdicts ≡ r.verdicts
  pub summary : q.summary ≡ r.summary

SameSnapshot-refl : (r : Result) → SameSnapshot r r
SameSnapshot-refl r = record {
  run = refl;
  subject = refl;
  version = refl;
  manifest = refl;
  content_hash = refl;
  coverage = refl;
  verdicts = refl;
  summary = refl;
}

SameSnapshot-trans : (r q p : Result) → SameSnapshot r q → SameSnapshot q p → SameSnapshot r p
SameSnapshot-trans r q p a b = record {
  run = b.run ∙ a.run;
  subject = b.subject ∙ a.subject;
  version = b.version ∙ a.version;
  manifest = b.manifest ∙ a.manifest;
  content_hash = b.content_hash ∙ a.content_hash;
  coverage = b.coverage ∙ a.coverage;
  verdicts = b.verdicts ∙ a.verdicts;
  summary = b.summary ∙ a.summary;
}

reviewed-SameSnapshot :
    (now : ℕ) (input : ReviewInput) (r : Result) → SameSnapshot r (as_reviewed now input r)
reviewed-SameSnapshot now input r = record {
  run = refl;
  subject = refl;
  version = refl;
  manifest = refl;
  content_hash = refl;
  coverage = refl;
  verdicts = refl;
  summary = refl;
}

module _ {S : Type 0} (db : ResultDb S) (hash : List EvidenceItem → Text) where
  open db.results use {find}

  -- One call that writes.
  pub data Step : S → S → Type 0 where
    concluded :
        (id : ℕ) (input : CreateResultInput) (s : S) → Step s (create_result db hash id input s).1
    reviewed :
        (now : ℕ) (input : ReviewInput) (s : S) → Step s (review_result db hash now input s).1

  pub data Reach (s : S) : S → Type 0 where
    here : Reach s s
    next : {t u : S} → Reach s t → Step t u → Reach s u

  -- What a result that was archived comes with.
  pub record IsArchived (id : ℕ) (input : CreateResultInput) (s t : S) (r : Result) : Type 0 where
    pub run : Run
    pub found : db.find_run input.run_id s ≡ some run
    pub active : is_active run ≡ true
    pub coverage : validate_coverage_stats input.coverage_stats (some (manifest_ids input)) ≡ []
    pub verdicts :
        validate_judgment (record {
          criteria = db.list_criteria run.rule_set_version_id s;
          verdicts = input.verdicts;
          findings = [];
          evidence_ids = some (manifest_ids input);
        })
        ≡ []
    pub row : r ≡ new_result hash id input run
    pub created : db.create (new_result hash id input run) s ≡ some t
    pub stored : find id t ≡ some r
    pub first : (j : ℕ) (q : Result) → find j s ≡ some q → q.run_id ≢ input.run_id

  no_problems :
      (input : CreateResultInput) (run : Run) (s : S)
      → result_problems db hash input run s ≡ []
      → (validate_coverage_stats input.coverage_stats (some (manifest_ids input)) ≡ [])
        × (validate_judgment (record {
          criteria = db.list_criteria run.rule_set_version_id s;
          verdicts = input.verdicts;
          findings = [];
          evidence_ids = some (manifest_ids input);
        })
            ≡ [])
  unfolding result_problems
  no_problems input run s h =
      elim (List-cases (validate_coverage_stats input.coverage_stats (some (manifest_ids input)))) [
        | inl good ↦ (good, rw (good, result_problems) at h)
        | inr (p, ps, bad) ↦ absurd (cc (rw (bad, result_problems) at h))
      ]

  archive_ok :
      (r q : Result) (s t : S)
      → archive db hash r s ≡ (ok q, t)
      → (q ≡ r) × (db.create r s ≡ some t)
  unfolding archive
  archive_ok r q s t h = ground arith

  -- A result is archived only for a run that is there and active, and only if its coverage and its
  -- verdicts have no problem against that run's criteria and the ids of its own manifest; it is the
  -- first of its run, and it is stored as it was answered, not yet reviewed and with the run's
  -- subject and version.
  pub create_result_ok :
      (id : ℕ) (input : CreateResultInput) (s t : S) (r : Result)
      → create_result db hash id input s ≡ (ok r, t)
      → IsArchived id input s t r
  unfolding create_result
  create_result_ok id input s t r h = elim (Option-cases (db.find_run input.run_id s)) [
    | inl absent ↦ absurd (cc (rw (absent, create_result) at h))
    | inr (run, found) ↦ elim (Bool-cases (is_active run)) [
      | inr finished ↦ absurd (cc (rw (found, create_result, finished) at h))
      | inl active ↦ elim (List-cases (result_problems db hash input run s)) [
        | inr (p, ps, bad) ↦ absurd (cc (rw (found, create_result, active, bad) at h))
        | inl good ↦
            let made = new_result hash id input run in
            let run_it : archive db hash made s ≡ (ok r, t) =
              rw (found, create_result, active, good) at h in
            let (row, created) = archive_ok made r s t run_it in
            let (coverage, verdicts) = no_problems input run s good in
            record {
              run = run;
              found = found;
              active = active;
              coverage = coverage;
              verdicts = verdicts;
              row = row;
              created = created;
              stored = db.find-create made s t id created ∙ (rw (==_refl id) (ap some (sym row)));
              first = λ j q there. db.create_unique made q s t j created there;
            }
      ]
    ]
  ]

  archive-Keeps : (r : Result) (s : S) → Keeps db.results SameSnapshot s (archive db hash r s).1
  unfolding archive
  archive-Keeps r s = elim (Option-cases (db.create r s)) [
    | inl taken ↦ rw (taken, archive) (λ j q found. (q, found, SameSnapshot-refl q))
    | inr (t, made) ↦
        rw (made, archive)
          (λ j q found. elim (Bool-cases (r.id == j)) [
            | inl same ↦
                let e : r.id ≡ j = (==_iff r.id j).0 same in
                absurd (cc (db.create_fresh r s t made, found, e))
            | inr other ↦ (q, rw (db.find-create r s t j made, other) found, SameSnapshot-refl q)
          ])
  ]

  create_result-Keeps :
      (id : ℕ) (input : CreateResultInput) (s : S)
      → Keeps db.results SameSnapshot s (create_result db hash id input s).1
  unfolding create_result
  create_result-Keeps id input s = elim (Option-cases (db.find_run input.run_id s)) [
    | inl absent ↦ rw (absent, create_result) (λ j q found. (q, found, SameSnapshot-refl q))
    | inr (run, there) ↦ elim (Bool-cases (is_active run)) [
      | inr finished ↦
          rw (there, create_result, finished) (λ j q found. (q, found, SameSnapshot-refl q))
      | inl active ↦ elim (List-cases (result_problems db hash input run s)) [
        | inr (p, ps, bad) ↦
            rw (there, create_result, active, bad) (λ j q found. (q, found, SameSnapshot-refl q))
        | inl good ↦
            rw (there, create_result, active, good) (archive-Keeps (new_result hash id input run) s)
      ]
    ]
  ]

  review_result-Keeps :
      (now : ℕ) (input : ReviewInput) (s : S)
      → Keeps db.results SameSnapshot s (review_result db hash now input s).1
  unfolding review_result
  review_result-Keeps now input s =
      elim (Bool-cases (is_rejection input.review_status && lacks_reason input.note)) [
        | inl bare ↦ rw (bare, review_result) (λ j q found. (q, found, SameSnapshot-refl q))
        | inr fine ↦ elim (Option-cases (find input.id s)) [
          | inl absent ↦
              rw (fine, review_result, absent) (λ j q found. (q, found, SameSnapshot-refl q))
          | inr (r, there) ↦
              rw (fine, review_result, there)
                (update_many-Keeps db.results SameSnapshot SameSnapshot-refl (λ q. true)
                  (as_reviewed now input) (λ q. refl) (λ q h. reviewed-SameSnapshot now input q)
                  input.id s)
        ]
      ]

  Step-Keeps : {s t : S} → Step s t → Keeps db.results SameSnapshot s t
  Step-Keeps (concluded id input s) = create_result-Keeps id input s
  Step-Keeps (reviewed now input s) = review_result-Keeps now input s

  -- Under every sequence of conclusions and reviews, an archived result stays in the database, with
  -- the same run, subject, version, manifest, content hash, coverage, verdicts and summary.
  pub Reach-SameSnapshot : {s t : S} → Reach s t → Keeps db.results SameSnapshot s t
  Reach-SameSnapshot here j q found = (q, found, SameSnapshot-refl q)
  Reach-SameSnapshot (next reach step) j q found =
      let (r, mid, a) = Reach-SameSnapshot reach j q found in
      let (p, after, b) = Step-Keeps step j r mid in (p, after, SameSnapshot-trans q r p a b)
