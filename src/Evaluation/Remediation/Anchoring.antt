-- ===== src/Evaluation/Remediation/Anchoring.antt =====
-- What a plan that `createPlan` of evaluation/evaluation-remediation.service.ts makes is about.
use newbie_modules.Common.{
  ℕ, ◌<◌, ◌≡◌, ◌≢◌, ◌⊎◌, refl, sym, ap, ◌∙◌, subst, String, Bool, true, false, ◌&&◌, ◌||◌, not,
  some, List, [], ◌∷◌, ◌++◌, map, ◌==◌, if◌then◌else◌, select, inl, inr, Bool-cases, Option-cases,
  ==_iff, ==_refl, All, arith,
}
use newbie_modules.Evaluation.Errors.{ok, Outcome-cases}
use newbie_modules.Evaluation.Finding.State.{Finding, is_blank}
use newbie_modules.Evaluation.Result.Service.{Result}
use newbie_modules.Evaluation.Run.State.{Subject}
use newbie_modules.Evaluation.Remediation.Service.{Plan, Checkpoint}
use newbie_modules.Evaluation.Remediation.Checkpoints.{IsShaped, in_time_lem, shaped_lem}
use newbie_modules.Evaluation.Remediation.Creation.{
  CreatePlanInput, PlanDb, has_id, distinct_from, problems_of, is_early, new_plan, known_ids,
  unknown_ids, insert_plan, check_input, create_plan,
}

List-cases : {A : Type 0} (xs : List A) → (xs ≡ []) ⊎ ((x : A) × (ys : List A) × (xs ≡ x ∷ ys))
List-cases [] = inl refl
List-cases (x ∷ xs) = inr (x, xs, refl)

has_id-append : (x : ℕ) (xs ys : List ℕ) → has_id x (xs ++ ys) ≡ (has_id x xs || has_id x ys)
has_id-append x [] ys = refl
has_id-append x (y ∷ xs) ys = ground (arith, has_id-append x xs ys)

has_id-distinct_from :
    (x : ℕ) (seen xs : List ℕ) → has_id x (distinct_from seen xs) ≡ (has_id x seen || has_id x xs)
has_id-distinct_from x seen [] = ground arith
has_id-distinct_from x seen (y ∷ xs) =
    let more = has_id-append x seen (y ∷ []) in
    let step = has_id-distinct_from x (if has_id y seen then seen else seen ++ y ∷ []) xs in
    elim (Bool-cases (y == x)) [
      | inr other ↦ ground (arith, step, more, other)
      | inl same ↦
          let e : y ≡ x = (==_iff y x).0 same in
          let seen_same : has_id y seen ≡ has_id x seen = ap (λ z. has_id z seen) e in
          ground (arith, step, more, same, seen_same)
    ]

row_of :
    {Row : Type 0} (id_of : Row → ℕ) (P : Row → Type 0) (x : ℕ) (rows : List Row)
    → has_id x (map id_of rows) ≡ true
    → All P rows
    → (r : Row) × (id_of r ≡ x) × P r
row_of id_of P x [] h k = absurd (cc h)
row_of id_of P x (r ∷ rows) h (k, ks) = elim (Bool-cases (id_of r == x)) [
  | inl same ↦ (r, (==_iff (id_of r) x).0 same, k)
  | inr other ↦ row_of id_of P x rows (rw other at h) ks
]

none_left :
    (known : ℕ → Bool) (x : ℕ) (xs : List ℕ)
    → select (λ y. not (known y)) xs ≡ []
    → has_id x xs ≡ true
    → known x ≡ true
none_left known x [] h k = absurd (cc k)
none_left known x (y ∷ xs) h k = elim (Bool-cases (known y)) [
  | inr missing ↦ absurd (cc (rw missing at h))
  | inl there ↦ elim (Bool-cases (y == x)) [
    | inl same ↦ subst (λ z. known z ≡ true) ((==_iff y x).0 same) there
    | inr other ↦ none_left known x xs (rw there at h) (rw other at k)
  ]
]

and_right : (a b : Bool) → (a && b) ≡ true → b ≡ true
and_right a b h = ground arith

module _ {S : Type 0} (db : PlanDb S) (parses : String → Bool) where
  abbrev pub IsFinding : ℕ → ℕ → S → Type 0
  IsFinding subject_id ref s =
      (f : Finding) × (db.findings.find ref s ≡ some f) × (f.subject_id ≡ subject_id)

  abbrev pub IsResult : ℕ → ℕ → S → Type 0
  IsResult subject_id ref s =
      (r : Result) × (db.results.find ref s ≡ some r) × (r.subject_id ≡ subject_id)

  -- What comes with a plan that is created.
  pub record IsCreated (id : ℕ) (input : CreatePlanInput) (s t : S) (p : Plan) : Type 0 where
    pub named : is_blank input.decider_ref ≡ false
    pub triggered : input.trigger_refs ≢ []
    pub in_time : (due : ℕ) → input.due_date ≡ some due → input.start_date < due
    pub shaped : (cs : List Checkpoint) → input.checkpoints ≡ some cs → All (IsShaped parses) cs
    pub subject : Subject
    pub found : db.find_subject input.subject_id s ≡ some subject
    pub row : p ≡ new_plan id input
    pub refs : (x : ℕ) → has_id x p.trigger_refs ≡ has_id x input.trigger_refs
    pub anchored :
        (x : ℕ)
        → has_id x input.trigger_refs ≡ true
        → IsFinding input.subject_id x s ⊎ IsResult input.subject_id x s
    pub stored : db.plans.find id t ≡ some p

  known_row :
      (subject_id x : ℕ) (refs : List ℕ) (s : S)
      → has_id x (known_ids db parses subject_id refs s) ≡ true
      → IsFinding subject_id x s ⊎ IsResult subject_id x s
  known_row subject_id x refs s h =
      let p : Finding → Bool = λ f. has_id f.id refs && (f.subject_id == subject_id) in
      let q : Result → Bool = λ r. has_id r.id refs && (r.subject_id == subject_id) in
      let fs = db.findings.find_many p s in
      let rs = db.results.find_many q s in
      elim (Bool-cases (has_id x (map (λ f. f.id) fs))) [
        | inl mine ↦
            let (f, e, (found, good)) =
              row_of (λ f. f.id) (λ f. (db.findings.find f.id s ≡ some f) × (p f ≡ true)) x fs mine
                (db.findings.find_many_sound p s) in
            inl (
              f,
              subst (λ k. db.findings.find k s ≡ some f) e found,
              (==_iff f.subject_id subject_id).0 (and_right _ _ good),
            )
        | inr other ↦
            let split = sym (has_id-append x (map (λ f. f.id) fs) (map (λ r. r.id) rs)) ∙ h in
            let (r, e, (found, good)) =
              row_of (λ r. r.id) (λ r. (db.results.find r.id s ≡ some r) × (q r ≡ true)) x rs
                (rw other at split) (db.results.find_many_sound q s) in
            inr (
              r,
              subst (λ k. db.results.find k s ≡ some r) e found,
              (==_iff r.subject_id subject_id).0 (and_right _ _ good),
            )
      ]

  check_input_ok :
      (input : CreatePlanInput) (u : Unit {0})
      → check_input db parses input ≡ ok u
      → (is_blank input.decider_ref ≡ false)
        × (input.trigger_refs ≢ [])
        × (is_early input.due_date input.start_date ≡ false)
        × (problems_of parses input.checkpoints ≡ [])
  unfolding check_input
  check_input_ok input u h = elim (Bool-cases (is_blank input.decider_ref)) [
    | inl blank ↦ absurd (cc (rw (blank, check_input) at h))
    | inr named ↦ elim (List-cases input.trigger_refs) [
      | inl empty ↦ absurd (cc (rw (named, check_input, empty) at h))
      | inr (ref, refs, there) ↦ elim (Bool-cases (is_early input.due_date input.start_date)) [
        | inl early ↦ absurd (cc (rw (named, check_input, there, early) at h))
        | inr fine ↦ elim (List-cases (problems_of parses input.checkpoints)) [
          | inr (p, ps, bad) ↦ absurd (cc (rw (named, check_input, there, fine, bad) at h))
          | inl good ↦ (named, (λ e. cc), fine, good)
        ]
      ]
    ]
  ]

  insert_plan_ok :
      (id : ℕ) (input : CreatePlanInput) (s t : S) (p : Plan)
      → insert_plan db parses id input s ≡ (ok p, t)
      → (unknown_ids db parses input.subject_id (distinct_from [] input.trigger_refs) s ≡ [])
        × (p ≡ new_plan id input)
        × (db.create (new_plan id input) s ≡ some t)
  unfolding insert_plan
  insert_plan_ok id input s t p h =
      let made = new_plan id input in
      elim (List-cases (unknown_ids db parses input.subject_id made.trigger_refs s)) [
        | inr (u, us, bad) ↦ absurd (cc (rw (bad, insert_plan) at h))
        | inl good ↦ elim (Option-cases (db.create made s)) [
          | inl taken ↦ absurd (cc (rw (good, insert_plan, taken) at h))
          | inr (v, created) ↦
              let result : (ok made, v) ≡ (ok p, t) = rw (good, insert_plan, created) at h in
              let row : made ≡ p = cc (ap (λ r. r.0) result) in
              (good, sym row, created ∙ ap (λ r. some r.1) result)
        ]
      ]

  anchors :
      (subject_id x : ℕ) (refs : List ℕ) (s : S)
      → unknown_ids db parses subject_id refs s ≡ []
      → has_id x refs ≡ true
      → IsFinding subject_id x s ⊎ IsResult subject_id x s
  unfolding unknown_ids
  anchors subject_id x refs s h k =
      known_row subject_id x refs s
        (none_left (λ y. has_id y (known_ids db parses subject_id refs s)) x refs h k)

  -- A plan is created only for a subject that is there, with a named decider and at least one
  -- trigger; a due date, if there is one, is after the start, and each checkpoint has a description,
  -- a status and a date that parses. Each trigger is a finding or a result of that subject. The new
  -- plan is stored with the fields of the input, and its triggers are those of the input.
  pub create_plan_ok :
      (id : ℕ) (input : CreatePlanInput) (s t : S) (p : Plan)
      → create_plan db parses id input s ≡ (ok p, t)
      → IsCreated id input s t p
  unfolding create_plan
  create_plan_ok id input s t p h = elim (Outcome-cases (check_input db parses input)) [
    | inl (e, refused) ↦ absurd (cc (rw (refused, create_plan) at h))
    | inr (u, passed) ↦ elim (Option-cases (db.find_subject input.subject_id s)) [
      | inl absent ↦ absurd (cc (rw (passed, create_plan, absent) at h))
      | inr (subject, found) ↦
          let (known, row, created) =
            insert_plan_ok id input s t p (rw (passed, create_plan, found) at h) in
          let (named, triggered, in_time, shaped) = check_input_ok input u passed in
          let made = new_plan id input in
          let refs : (x : ℕ) → has_id x made.trigger_refs ≡ has_id x input.trigger_refs =
            λ x. has_id-distinct_from x [] input.trigger_refs in
          record {
            named = named;
            triggered = triggered;
            in_time = λ due. in_time_lem parses input.due_date input.start_date due in_time;
            shaped = λ cs. shaped_lem parses input.checkpoints cs shaped;
            subject = subject;
            found = found;
            row = row;
            refs = λ x. ap (λ q. has_id x q.trigger_refs) row ∙ refs x;
            anchored = λ x k. anchors input.subject_id x made.trigger_refs s known (refs x ∙ k);
            stored = db.find-create made s t id created ∙ rw (==_refl id) (ap some (sym row));
          }
    ]
  ]
