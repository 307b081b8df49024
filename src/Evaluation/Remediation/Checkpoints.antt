-- ===== src/Evaluation/Remediation/Checkpoints.antt =====
-- What the checks of the input of `createPlan` in evaluation/evaluation-remediation.service.ts mean.
use newbie_modules.Common.{
  ℕ, zero, suc, ◌<◌, ◌≡◌, subst, String, Bool, true, false, Option, none, some, List, [], ◌∷◌, inl,
  inr, Bool-cases, All, arith,
}
use newbie_modules.Evaluation.Finding.State.{is_blank}
use newbie_modules.Evaluation.Remediation.Service.{Checkpoint}
use newbie_modules.Evaluation.Remediation.Creation.{problems_of, is_early, validate_checkpoints}

module _ (parses : String → Bool) where
  abbrev pub IsShaped : Checkpoint → Type 0
  IsShaped c =
      (is_blank c.description ≡ false) × (is_blank c.status ≡ false) × (parses c.due_date ≡ true)

  pub in_time_lem :
      (due_date : Option ℕ) (start due : ℕ)
      → is_early due_date start ≡ false
      → due_date ≡ some due
      → start < due
  in_time_lem none start due h e = absurd (cc e)
  in_time_lem (some d) start due h e = let same : d ≡ due = cc e in ground (arith, h, same)

  -- A checkpoint without problem of its own.
  first_problems :
      (i : ℕ) (c : Checkpoint) (cs : List Checkpoint)
      → validate_checkpoints parses i (c ∷ cs) ≡ []
      → IsShaped c × (validate_checkpoints parses (suc i) cs ≡ [])
  unfolding validate_checkpoints
  first_problems i c cs h = elim (Bool-cases (is_blank c.description)) [
    | inl blank ↦ absurd (cc (rw (validate_checkpoints, blank) at h))
    | inr described ↦ elim (Bool-cases (is_blank c.status)) [
      | inl blank ↦ absurd (cc (rw (validate_checkpoints, described, blank) at h))
      | inr stated ↦ elim (Bool-cases (parses c.due_date)) [
        | inr bad ↦ absurd (cc (rw (validate_checkpoints, described, stated, bad) at h))
        | inl dated ↦
            ((described, stated, dated), rw (validate_checkpoints, described, stated, dated) at h)
      ]
    ]
  ]

  validate_checkpoints_each :
      (i : ℕ) (cs : List Checkpoint) → validate_checkpoints parses i cs ≡ [] → All IsShaped cs
  validate_checkpoints_each i [] h = tt
  validate_checkpoints_each i (c ∷ cs) h =
      let (first, rest) = first_problems i c cs h in
      (first, validate_checkpoints_each (suc i) cs rest)

  pub shaped_lem :
      (checkpoints : Option (List Checkpoint)) (cs : List Checkpoint)
      → problems_of parses checkpoints ≡ []
      → checkpoints ≡ some cs
      → All IsShaped cs
  shaped_lem none cs h e = absurd (cc e)
  shaped_lem (some ds) cs h e =
      let same : ds ≡ cs = cc e in subst (All IsShaped) same (validate_checkpoints_each zero ds h)
