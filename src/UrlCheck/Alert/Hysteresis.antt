-- ===== src/UrlCheck/Alert/Hysteresis.antt =====
-- The alert of url-check/url-check-probe.service.ts against its rule: three checks in a row that
-- agree decide whether it is open.
use newbie_modules.Common.{
  ℕ, suc, ◌≡◌, refl, ap, ◌∙◌, String, Bool, true, false, ◌&&◌, not, List, [], ◌∷◌, ◌++◌, map, leb,
  if◌then◌else◌, arith,
}
use newbie_modules.Evaluation.Errors.{Text}
use newbie_modules.UrlCheck.Alert.{
  State, Event, down, recovered, ProbeOutcome, new_target, advance_state,
}

-- A check, and when it was made.
abbrev pub Check : Type 0
Check = ProbeOutcome × ℕ

-- Whether the target was up, newest first.
abbrev pub ups : List Check → List Bool
ups = map (λ c. c.0.is_up)

-- One cycle after the other, newest first.
unfoldable pub replay : State → List Check → State
replay s [] = s
replay s ((outcome, at) ∷ h) = let t = replay s h in (advance_state t.row outcome at t).0

-- What was emitted, newest first.
unfoldable pub log : State → List Check → List Event
log s [] = []
log s ((outcome, at) ∷ h) = let t = replay s h in (advance_state t.row outcome at t).1 ++ log s h

-- The rule.
abbrev pub two_more : Bool → List Bool → Bool
two_more a [] = false
two_more a (b ∷ []) = false
two_more true (b ∷ c ∷ h) = b && c
two_more false (b ∷ c ∷ h) = not b && not c

abbrev pub is_decided_open : List Bool → Bool
is_decided_open [] = false
is_decided_open (a ∷ h) = if two_more a h then not a else is_decided_open h

pub data Kind : Type 0 where
  goes_down goes_up : Kind

abbrev pub kind_of : Event → Kind
kind_of (down id p n u e f since) = goes_down
kind_of (recovered id p n u since at m) = goes_up

abbrev pub change : Bool → Bool → List Kind
change false false = []
change false true = goes_down ∷ []
change true false = goes_up ∷ []
change true true = []

-- One notification for each change of the rule's verdict.
abbrev pub changes : List Bool → List Kind
changes [] = []
changes (a ∷ h) = change (is_decided_open h) (is_decided_open (a ∷ h)) ++ changes h

-- How many of the newest checks agree with `a`.
abbrev lead : Bool → List Bool → ℕ
lead a [] = 0
lead true (b ∷ h) = if b then suc (lead true h) else 0
lead false (b ∷ h) = if b then 0 else suc (lead false h)

two_more-lead : (a : Bool) (h : List Bool) → two_more a h ≡ leb 2 (lead a h)
two_more-lead true [] = ground arith
two_more-lead true (b ∷ []) = ground arith
two_more-lead true (b ∷ c ∷ h) = ground arith
two_more-lead false [] = ground arith
two_more-lead false (b ∷ []) = ground arith
two_more-lead false (b ∷ c ∷ h) = ground arith

record Tracks (s : State) (h : List Bool) : Type 0 where
  failures : s.row.consecutive_failures ≡ lead false h
  successes : s.row.consecutive_successes ≡ (if s.row.is_alert_open then lead true h else 0)
  opened : s.row.is_alert_open ≡ is_decided_open h

advance-Tracks :
    (outcome : ProbeOutcome) (at : ℕ) (s : State) (h : List Bool)
    → Tracks s h
    → Tracks (advance_state s.row outcome at s).0 (outcome.is_up ∷ h)
unfolding advance_state
advance-Tracks outcome at s h k = record {
  failures = ground (arith, k.failures);
  successes = ground (arith, k.successes, k.opened);
  opened =
      ground
        (arith, k.failures, k.successes, k.opened, two_more-lead true h, two_more-lead false h);
}

advance-change :
    (outcome : ProbeOutcome) (at : ℕ) (s : State) (h : List Bool)
    → Tracks s h
    → map kind_of (advance_state s.row outcome at s).1
      ≡ change (is_decided_open h) (is_decided_open (outcome.is_up ∷ h))
unfolding advance_state
advance-change outcome at s h k =
    ground (arith, k.failures, k.successes, k.opened, two_more-lead true h, two_more-lead false h)

module _ (id project_id : ℕ) (name : String) (url : Text) where
  -- A target that has not been checked, without an incident.
  abbrev pub unchecked : State
  unchecked = record { row = new_target id project_id name url; incidents = [] }

  replay-Tracks : (h : List Check) → Tracks (replay unchecked h) (ups h)
  unfolding replay
  replay-Tracks [] = record { failures = refl; successes = refl; opened = refl }
  replay-Tracks ((outcome, at) ∷ h) =
      advance-Tracks outcome at (replay unchecked h) (ups h) (replay-Tracks h)

  map-append : (f : Event → Kind) (xs ys : List Event) → map f (xs ++ ys) ≡ map f xs ++ map f ys
  map-append f [] ys = refl
  map-append f (x ∷ xs) ys = ap (λ r. f x ∷ r) (map-append f xs ys)

  log-changes : (h : List Check) → map kind_of (log unchecked h) ≡ changes (ups h)
  unfolding log
  log-changes [] = refl
  log-changes ((outcome, at) ∷ h) =
      let t = replay unchecked h in
      map-append kind_of (advance_state t.row outcome at t).1 (log unchecked h)
      ∙ (ap (λ r. r ++ map kind_of (log unchecked h))
            (advance-change outcome at t (ups h) (replay-Tracks h))
          ∙ ap
              (λ r. change (is_decided_open (ups h)) (is_decided_open (outcome.is_up ∷ ups h)) ++ r)
              (log-changes h))

  -- For every sequence of checks of a new target, each seeing the row that the one before left: the
  -- alert is open exactly if the latest three checks in a row that agree were failures, and one
  -- notification of the right kind is sent at each change of that verdict, and no other.
  pub replay_refines :
      (h : List Check)
      → ((replay unchecked h).row.is_alert_open ≡ is_decided_open (ups h))
        × (map kind_of (log unchecked h) ≡ changes (ups h))
  replay_refines h = ((replay-Tracks h).opened, log-changes h)
