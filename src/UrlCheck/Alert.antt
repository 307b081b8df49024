-- ===== src/UrlCheck/Alert.antt =====
-- The alert of one target: `advanceState`, `emitDown` and `emitRecovered` of
-- url-check/url-check-probe.service.ts, and what `update` of url-check/url-check.service.ts does to
-- it. A state is the row of the target with its incidents, a transaction is one step on it; each
-- query of the incidents names the target. A time is a number of milliseconds. A failure of an
-- event listener is only logged, and so an emission is an entry of a list.
use newbie_modules.Common.{
  ℕ, suc, ◌+◌, ◌-◌, ◌/◌, String, Bool, true, false, ◌&&◌, not, Option, none, some, List, [], ◌∷◌,
  map, ltb, leb, if◌then◌else◌,
}
use newbie_modules.Common.Int.{ℤ, sub_ℕ}
use newbie_modules.Evaluation.Errors.{Text}
pub mod Invariant
pub mod Hysteresis

abbrev pub alert_failure_threshold : ℕ
alert_failure_threshold = 3

abbrev pub recovery_success_threshold : ℕ
recovery_success_threshold = 3

pub record ProbeOutcome : Type 0 where
  pub is_up : Bool
  pub status_code : Option ℕ
  pub duration_ms : ℕ
  pub error : Text

pub record Target : Type 0 where
  pub id : ℕ
  pub project_id : ℕ
  pub name : String
  pub url : Text
  pub is_active : Bool
  pub consecutive_failures : ℕ
  pub consecutive_successes : ℕ
  pub is_alert_open : Bool
  pub alert_opened_at : Option ℕ
  pub last_checked_at : Option ℕ
  pub last_status_code : Option ℕ
  pub last_is_up : Option Bool

pub record Incident : Type 0 where
  pub opened_at : ℕ
  pub peak_consecutive_failures : ℕ
  pub recovered_at : Option ℕ
  pub duration_ms : Option ℤ

pub record State : Type 0 where
  pub row : Target
  pub incidents : List Incident

-- `outcome.error || …`
pub data Cause : Type 0 where
  message : Text → Cause
  http_status : ℕ → Cause
  nothing : Cause

pub data Event : Type 0 where
  down :
      (target_id project_id : ℕ) (name : String) (url : Text) (error : Cause)
      (consecutive_failures down_since : ℕ)
      → Event
  recovered :
      (target_id project_id : ℕ) (name : String) (url : Text) (down_since : Option ℕ)
      (recovered_at downtime_minutes : ℕ)
      → Event

abbrev pub status_cause : Option ℕ → Cause
status_cause none = nothing
status_cause (some code) = http_status code

abbrev pub cause_of : Text → Option ℕ → Cause
cause_of [] code = status_cause code
cause_of (c ∷ cs) code = message (c ∷ cs)

abbrev pub is_ongoing : Incident → Bool
is_ongoing i = elim i.recovered_at [ none ↦ true | some _ ↦ false ]

-- `at.getTime() - openedAt.getTime()`, if it was open.
abbrev pub span : ℕ → Option ℕ → Option ℤ
span at none = none
span at (some opened) = some (sub_ℕ at opened)

-- `Math.max(0, Math.round((recoveredAt - openedAt) / 60000))`
abbrev pub minutes : ℕ → Option ℕ → ℕ
minutes at none = 0
minutes at (some opened) = (at - opened + 30000) / 60000

abbrev pub close_incident : ℕ → Option ℤ → Incident → Incident
close_incident at duration i =
    if is_ongoing i then record i { recovered_at = some at; duration_ms = duration } else i

abbrev pub raise_peak : ℕ → Incident → Incident
raise_peak failures i =
    if is_ongoing i && ltb i.peak_consecutive_failures failures
    then record i { peak_consecutive_failures = failures }
    else i

abbrev pub new_incident : ℕ → ℕ → Incident
new_incident at failures = record {
  opened_at = at;
  peak_consecutive_failures = failures;
  recovered_at = none;
  duration_ms = none;
}

abbrev pub failures_after : Target → ProbeOutcome → ℕ
failures_after target outcome = if outcome.is_up then 0 else target.consecutive_failures + 1

abbrev pub successes_after : Target → ProbeOutcome → ℕ
successes_after target outcome =
    if outcome.is_up && target.is_alert_open then target.consecutive_successes + 1 else 0

abbrev pub opens_alert : Target → ProbeOutcome → Bool
opens_alert target outcome =
    not outcome.is_up
    && (leb alert_failure_threshold (failures_after target outcome) && not target.is_alert_open)

abbrev pub closes_alert : Target → ProbeOutcome → Bool
closes_alert target outcome =
    outcome.is_up
    && (target.is_alert_open && leb recovery_success_threshold (successes_after target outcome))

abbrev pub outage_continues : Target → ProbeOutcome → Bool
outage_continues target outcome = not outcome.is_up && target.is_alert_open

-- The columns that every check writes.
abbrev pub checked : Target → ProbeOutcome → ℕ → Target → Target
checked target outcome at row = record row {
  consecutive_failures = failures_after target outcome;
  consecutive_successes = successes_after target outcome;
  last_checked_at = some at;
  last_status_code = outcome.status_code;
  last_is_up = some outcome.is_up;
}

-- `target` is the row as the cycle read it, the state is that of the transaction.
unfoldable pub advance_state : Target → ProbeOutcome → ℕ → State → State × List Event
advance_state target outcome at s =
    let row = checked target outcome at s.row in
    let failures = failures_after target outcome in
    if opens_alert target outcome
    then (
      record {
        row = record row { is_alert_open = true; alert_opened_at = some at };
        incidents = new_incident at failures ∷ s.incidents;
      },
      down target.id target.project_id target.name target.url
            (cause_of outcome.error outcome.status_code) failures at
          ∷ [],
    )
    else if closes_alert target outcome
    then (
      record {
        row = record row {
          is_alert_open = false;
          alert_opened_at = none;
          consecutive_successes = 0;
        };
        incidents = map (close_incident at (span at target.alert_opened_at)) s.incidents;
      },
      recovered target.id target.project_id target.name target.url target.alert_opened_at at
            (minutes at target.alert_opened_at)
          ∷ [],
    )
    else if outage_continues target outcome
    then (record { row = row; incidents = map (raise_peak failures) s.incidents }, [])
    else (record { row = row; incidents = s.incidents }, [])

pub record UpdateTarget : Type 0 where
  pub name : Option String
  pub url : Option Text
  pub is_active : Option Bool

abbrev pub given {ℓ} : {A : Type ℓ} → Option A → A → A
given none old = old
given (some new) old = new

abbrev pub pauses : Option Bool → Bool
pauses none = false
pauses (some active) = not active

abbrev pub closes_on_pause : Target → UpdateTarget → Bool
closes_on_pause target body = pauses body.is_active && target.is_alert_open

abbrev pub edited_target : UpdateTarget → Target → Target
edited_target body row = record row {
  name = given body.name row.name;
  url = given body.url row.url;
  is_active = given body.is_active row.is_active;
}

-- The transaction of `update`; `target` is the row that was read before it.
unfoldable pub update_target : Target → UpdateTarget → ℕ → State → State
update_target target body closed_at s =
    if closes_on_pause target body
    then record {
      row = record (edited_target body s.row) { is_alert_open = false; alert_opened_at = none };
      incidents =
          map (close_incident closed_at (span closed_at target.alert_opened_at)) s.incidents;
    }
    else record { row = edited_target body s.row; incidents = s.incidents }

-- A target as `create` stores it, with the defaults of the columns.
abbrev pub new_target : ℕ → ℕ → String → Text → Target
new_target id project_id name url = record {
  id = id;
  project_id = project_id;
  name = name;
  url = url;
  is_active = true;
  consecutive_failures = 0;
  consecutive_successes = 0;
  is_alert_open = false;
  alert_opened_at = none;
  last_checked_at = none;
  last_status_code = none;
  last_is_up = none;
}
