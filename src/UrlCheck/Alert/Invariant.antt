-- ===== src/UrlCheck/Alert/Invariant.antt =====
-- The alert of a target and its incidents, under checks and updates one after the other
-- (url-check/url-check-probe.service.ts, url-check/url-check.service.ts).
use newbie_modules.Common.{
  ℕ, ◌+◌, ◌≡◌, ◌≢◌, refl, ◌∙◌, true, false, Option, none, List, [], ◌∷◌, map, if◌then◌else◌,
  Bool-cases, inl, inr, arith,
}
use newbie_modules.Common.Int.{ℤ}
use newbie_modules.UrlCheck.Alert.{
  Target, Incident, State, ProbeOutcome, UpdateTarget, is_ongoing, close_incident, raise_peak,
  advance_state, update_target, opens_alert, closes_alert, outage_continues, closes_on_pause,
}

abbrev pub open_count : List Incident → ℕ
open_count [] = 0
open_count (i ∷ is) = (if is_ongoing i then 1 else 0) + open_count is

pub open_count-close :
    (at : ℕ) (d : Option ℤ) (is : List Incident) → open_count (map (close_incident at d) is) ≡ 0
open_count-close at d [] = refl
open_count-close at d (i ∷ is) = ground (arith, open_count-close at d is)

pub open_count-raise :
    (n : ℕ) (is : List Incident) → open_count (map (raise_peak n) is) ≡ open_count is
open_count-raise n [] = refl
open_count-raise n (i ∷ is) = ground (arith, open_count-raise n is)

-- An open alert has exactly one open incident and a time, any other has none.
pub record IsMatched (s : State) : Type 0 where
  pub incident : open_count s.incidents ≡ (if s.row.is_alert_open then 1 else 0)
  pub time : s.row.is_alert_open ≡ false → s.row.alert_opened_at ≡ none
  pub timed : s.row.is_alert_open ≡ true → s.row.alert_opened_at ≢ none

-- One check, or one update, that sees the row as it is.
pub data Step : State → State → Type 0 where
  checked_once :
      (outcome : ProbeOutcome) (at : ℕ) (s : State) → Step s (advance_state s.row outcome at s).0
  updated : (body : UpdateTarget) (at : ℕ) (s : State) → Step s (update_target s.row body at s)

pub data Reach (s : State) : State → Type 0 where
  here : Reach s s
  next : {t u : State} → Reach s t → Step t u → Reach s u

opens-closed :
    (t : Target) (outcome : ProbeOutcome) → opens_alert t outcome ≡ true → t.is_alert_open ≡ false
opens-closed t outcome h = ground arith

advance_state-IsMatched :
    (outcome : ProbeOutcome) (at : ℕ) (s : State)
    → IsMatched s
    → IsMatched (advance_state s.row outcome at s).0
unfolding advance_state
advance_state-IsMatched outcome at s h = elim (Bool-cases (opens_alert s.row outcome)) [
  | inl opens ↦
      rw (opens, advance_state)
        (record {
          incident = ground (arith, h.incident, opens-closed s.row outcome opens);
          time = λ k. cc;
          timed = λ k. cc;
        })
  | inr stays ↦ elim (Bool-cases (closes_alert s.row outcome)) [
    | inl closes ↦
        rw (stays, advance_state, closes)
          (record {
            incident = open_count-close _ _ s.incidents;
            time = λ k. refl;
            timed = λ k. cc;
          })
    | inr other ↦ elim (Bool-cases (outage_continues s.row outcome)) [
      | inl lasts ↦
          rw (stays, advance_state, other, lasts)
            (record {
              incident = open_count-raise _ s.incidents ∙ h.incident;
              time = h.time;
              timed = h.timed;
            })
      | inr quiet ↦
          rw (stays, advance_state, other, quiet)
            (record { incident = h.incident; time = h.time; timed = h.timed })
    ]
  ]
]

update_target-IsMatched :
    (body : UpdateTarget) (at : ℕ) (s : State)
    → IsMatched s
    → IsMatched (update_target s.row body at s)
unfolding update_target
update_target-IsMatched body at s h = elim (Bool-cases (closes_on_pause s.row body)) [
  | inl closes ↦
      rw (closes, update_target)
        (record { incident = open_count-close _ _ s.incidents; time = λ k. refl; timed = λ k. cc })
  | inr other ↦
      rw (other, update_target) (record { incident = h.incident; time = h.time; timed = h.timed })
]

-- After any checks and updates that each see the row as it is, an open alert has exactly one open
-- incident and the time it was opened, and a closed alert has neither.
pub Reach-IsMatched : {s t : State} → Reach s t → IsMatched s → IsMatched t
Reach-IsMatched here h = h
Reach-IsMatched (next r (checked_once outcome at t)) h =
    advance_state-IsMatched outcome at t (Reach-IsMatched r h)
Reach-IsMatched (next r (updated body at t)) h =
    update_target-IsMatched body at t (Reach-IsMatched r h)
