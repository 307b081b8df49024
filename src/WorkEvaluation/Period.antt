-- ===== src/WorkEvaluation/Period.antt =====
-- `WorkEvaluationPeriodService` of work-evaluation/work-evaluation-period.service.ts over the
-- criteria service. The serializable transaction of createPeriod is one step; a transition reads the
-- period in one state and writes in a later one, after what other processes did in between. The home
-- ground is left out.
use newbie_modules.Common.{
  ℕ, ◌≡◌, String, Bool, true, false, ◌&&◌, Option, none, some, [], ◌∷◌, ltb, leb, ◌==◌,
  if◌then◌else◌, str_eq,
}
use newbie_modules.Common.Table.{Table}
use newbie_modules.Evaluation.Errors.{Exception, ok, throw}
use newbie_modules.Evaluation.Criteria.Service.{CriteriaDb, Version, require_version}

pub data PeriodType : Type 0 where
  collection review : PeriodType

pub data PeriodStatus : Type 0 where
  upcoming active closed : PeriodStatus

pub record Period : Type 0 where
  pub id : ℕ
  pub rule_set_version_id : ℕ
  pub type : PeriodType
  pub period_start : ℕ
  pub period_end : ℕ
  pub status : PeriodStatus

pub record CreatePeriodInput : Type 0 where
  pub rule_set_version_id : ℕ
  pub type : PeriodType
  pub period_start : ℕ
  pub period_end : ℕ

-- The exceptions, with what their messages quote of the periods.
pub data Refusal : Type 0 where
  of_criteria : Exception → Refusal
  other_kind : (kind : String) → Refusal
  draft_version unordered starts_early : Refusal
  overlapping : (id : ℕ) → Refusal
  id_taken : Refusal
  period_missing : (id : ℕ) → Refusal
  illegal_transition : (from to : PeriodStatus) → Refusal
  changed_concurrently : (id : ℕ) → Refusal

pub data Reply (A : Type 0) : Type 0 where
  done : A → Reply A
  refused : Refusal → Reply A

-- The table of periods. A row that is created has an id that is not taken.
pub record PeriodDb (S : Type 0) : Type 0 where
  pub periods : Table S Period (λ p. p.id)
  pub create : Period → S → Option S
  pub find-create :
      (p : Period) (s t : S) (j : ℕ)
      → create p s ≡ some t
      → periods.find j t ≡ (if p.id == j then some p else periods.find j s)
  pub create_fresh : (p : Period) (s t : S) → create p s ≡ some t → periods.find p.id s ≡ none

abbrev pub work_kind : String
work_kind = "work"

abbrev pub same_type : PeriodType → PeriodType → Bool
same_type collection collection = true
same_type collection review = false
same_type review collection = false
same_type review review = true

abbrev pub same_period_status : PeriodStatus → PeriodStatus → Bool
same_period_status upcoming q = elim q [ upcoming ↦ true | _ ↦ false ]
same_period_status active q = elim q [ active ↦ true | _ ↦ false ]
same_period_status closed q = elim q [ closed ↦ true | _ ↦ false ]

-- `overlappingWhere`
abbrev pub overlaps : CreatePeriodInput → Period → Bool
overlaps input p =
    same_type p.type input.type
    && (ltb p.period_start input.period_end && ltb input.period_start p.period_end)

abbrev pub new_period : CreatePeriodInput → ℕ → Period
new_period input id = record {
  id = id;
  rule_set_version_id = input.rule_set_version_id;
  type = input.type;
  period_start = input.period_start;
  period_end = input.period_end;
  status = upcoming;
}

-- The checks before the transaction, on the version that was read.
abbrev pub check_anchor : CreatePeriodInput → Version → Option Refusal
check_anchor input v =
    if str_eq v.kind work_kind
    then elim v.published_at [
      | none ↦ some draft_version
      | some at ↦
          if leb input.period_end input.period_start
          then some unordered
          else if ltb input.period_start at
          then some starts_early
          else none
    ]
    else some (other_kind v.kind)

-- `allowedTransitions[from].includes(to)`
abbrev pub is_allowed : PeriodStatus → PeriodStatus → Bool
is_allowed upcoming to = elim to [ upcoming ↦ false | _ ↦ true ]
is_allowed active to = elim to [ closed ↦ true | _ ↦ false ]
is_allowed closed to = false

abbrev pub with_status : PeriodStatus → Period → Period
with_status to p = record p { status = to }

module _ {S : Type 0} (db : PeriodDb S) where
  unfoldable pub get_period_by_id : ℕ → S → Reply Period
  get_period_by_id id s = elim (db.periods.find id s) [
    | none ↦ refused (period_missing id)
    | some p ↦ done p
  ]

  -- The transaction.
  unfoldable pub insert_period : CreatePeriodInput → ℕ → S → S × Reply Period
  insert_period input id s = elim (db.periods.find_many (overlaps input) s) [
    | p ∷ ps ↦ (s, refused (overlapping p.id))
    | [] ↦ elim (db.create (new_period input id) s) [
      | none ↦ (s, refused id_taken)
      | some t ↦ (t, done (new_period input id))
    ]
  ]

  unfoldable pub create_period :
      {C : Type 0} → CriteriaDb C → CreatePeriodInput → ℕ → C → S → S × Reply Period
  create_period criteria input id c s =
      elim (require_version criteria input.rule_set_version_id c) [
        | throw e ↦ (s, refused (of_criteria e))
        | ok v ↦ elim (check_anchor input v) [
          | some refusal ↦ (s, refused refusal)
          | none ↦ insert_period input id s
        ]
      ]

  -- The conditional update from the status that was read.
  unfoldable pub move_period : ℕ → PeriodStatus → PeriodStatus → S → S × Reply Period
  move_period id from to s =
      let (t, count) =
        db.periods.update_many id (λ p. same_period_status p.status from) (with_status to) s in
      (t, if count == 0 then refused (changed_concurrently id) else get_period_by_id id t)

  -- The period is read in the state `read`; the update runs later, in `s`.
  unfoldable pub transition_period_status : (read : S) → ℕ → PeriodStatus → S → S × Reply Period
  transition_period_status read id to s = elim (get_period_by_id id read) [
    | refused refusal ↦ (s, refused refusal)
    | done p ↦
        if is_allowed p.status to
        then move_period id p.status to s
        else (s, refused (illegal_transition p.status to))
  ]
