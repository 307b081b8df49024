-- ===== src/Evaluation/Remediation/Closing.antt =====
-- Which call of `decidePlan` of evaluation/evaluation-remediation.service.ts closes a plan.
use newbie_modules.Common.{
  ℕ, ◌≡◌, refl, sym, ap, ◌∙◌, true, false, Option, none, some, ◌==◌, if◌then◌else◌, Bool-cases,
  Option-cases, inl, inr, ==_refl,
}
use newbie_modules.Common.Table.{Table, written, matched}
use newbie_modules.Common.Evolution.{Keeps}
use newbie_modules.Evaluation.Errors.{ok}
use newbie_modules.Evaluation.Finding.State.{is_blank}
use newbie_modules.Evaluation.Remediation.Service.{
  Plan, Decision, complete, cancel, DecideInput, is_undecided, as_decided, require_plan, undecided,
  decide_plan,
}
use newbie_modules.Evaluation.Remediation.Freezing.{Lives}

decided-closed :
    (now : ℕ) (d : Decision) (input : DecideInput) (p : Plan)
    → is_undecided (as_decided now (record input { decision = d }) p) ≡ false
decided-closed now complete input p = refl
decided-closed now cancel input p = refl

some_of : {A : Type 0} {a b : A} → some a ≡ some b → a ≡ b
some_of h = cc

module _ {S : Type 0} (table : Table S Plan (λ p. p.id)) (others : S → S)
    (lawful : (s : S) → Keeps table Lives s (others s)) where
  open table use {find, update_many}

  -- What comes with a decision that succeeds.
  pub record IsDecided (now id : ℕ) (input : DecideInput) (s t : S) (q : Plan) : Type 0 where
    pub before : Plan
    pub found : find id s ≡ some before
    pub was_open : is_undecided before ≡ true
    pub named : is_blank input.decided_by_ref ≡ false
    pub answer : q ≡ as_decided now input before
    pub stored : find id t ≡ some q
    pub closed : is_undecided q ≡ false

  undecided_never : (id : ℕ) (u : S) (q : Plan) → undecided table id u ≡ ok q → ⊥
  unfolding undecided
  undecided_never id u q h = elim (Option-cases (find id u)) [
    | inl absent ↦ cc (rw (absent, undecided) at h)
    | inr (p, found) ↦ cc (rw (found, undecided) at h)
  ]

  require_plan_ok :
      (id : ℕ) (u : S) (q : Plan) → require_plan table id u ≡ ok q → find id u ≡ some q
  unfolding require_plan
  require_plan_ok id u q h = elim (Option-cases (find id u)) [
    | inl absent ↦ absurd (cc (rw (absent, require_plan) at h))
    | inr (p, found) ↦ found ∙ ap some (cc (rw (found, require_plan) at h))
  ]

  matched_open :
      (o : Option Plan)
      → (matched is_undecided o == 0) ≡ false
      → (p : Plan) × (o ≡ some p) × (is_undecided p ≡ true)
  matched_open none h = absurd (cc h)
  matched_open (some p) h = elim (Bool-cases (is_undecided p)) [
    | inl free ↦ (p, refl, free)
    | inr closed ↦ absurd (cc (rw closed at h))
  ]

  -- A decision succeeds only for a plan that was open and only with a named actor; whatever other
  -- processes write before the answer is read, if they change no decided plan, the plan that is
  -- answered and stored is closed by this decision.
  pub decide_plan_ok :
      (now id : ℕ) (input : DecideInput) (s t : S) (q : Plan)
      → decide_plan table others now id input s ≡ (ok q, t)
      → IsDecided now id input s t q
  unfolding decide_plan
  decide_plan_ok now id input s t q h = elim (Bool-cases (is_blank input.decided_by_ref)) [
    | inl blank ↦ absurd (cc (rw (blank, decide_plan) at h))
    | inr named ↦
        let after = update_many id is_undecided (as_decided now input) s in
        elim (Bool-cases (after.1 == 0)) [
          | inl missed ↦
              let result : (undecided table id (others after.0), others after.0) ≡ (ok q, t) =
                rw (named, decide_plan, missed) at h in
              absurd (undecided_never id (others after.0) q (ap (λ r. r.0) result))
          | inr hit ↦
              let result : (require_plan table id (others after.0), others after.0) ≡ (ok q, t) =
                rw (named, decide_plan, hit) at h in
              let (p, found, free) = matched_open (find id s) (
                ap (λ n. n == 0)
                  (sym (table.count-update_many id is_undecided (as_decided now input) s))
                ∙ hit) in
              let wrote : find id after.0 ≡ some (as_decided now input p) =
                table.find-update_many id id is_undecided (as_decided now input) s (λ x. refl)
                ∙ rw (==_refl id) (
                    ap (written is_undecided (as_decided now input)) found
                    ∙ ap (λ b. some (if b then as_decided now input p else p)) free) in
              let shut = decided-closed now input.decision input p in
              let (w, later, kept) = lawful after.0 id (as_decided now input p) wrote in
              let read = require_plan_ok id (others after.0) q (ap (λ r. r.0) result) in
              let same : q ≡ w = some_of (sym read ∙ later) in
              let answer = same ∙ kept.decided shut in
              record {
                before = p;
                found = found;
                was_open = free;
                named = named;
                answer = answer;
                stored = ap (λ x. find id x) (sym (ap (λ r. r.1) result)) ∙ read;
                closed = ap is_undecided answer ∙ shut;
              }
        ]
  ]
