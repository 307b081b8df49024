-- ===== src/Evaluation/Finding/Data.antt =====
-- The replies of evaluation/evaluation-finding.service.ts, and the `data` and `where` of its queries.
use newbie_modules.Common.{
  ℕ, String, Bool, not, ◌&&◌, Option, none, some, List, ◌∷◌, ◌==◌, ltb, if◌then◌else◌, str_eq,
}
use newbie_modules.Evaluation.Contracts.{FindingCandidate}
use newbie_modules.Evaluation.Errors.{Text, Outcome, ok, throw}
use newbie_modules.Evaluation.Run.State.{Run}
use newbie_modules.Evaluation.Finding.State.{
  Finding, Change, ChangedEvent, open_status, resolved_status, suppressed_status, eq_status,
  is_open, observed_at,
}

pub record Reply (S A : Type 0) : Type 0 where
  pub outcome : Outcome A
  pub state : S
  pub events : List ChangedEvent

abbrev pub event_of : Change → Finding → ChangedEvent
event_of change f = record {
  finding_id = f.id;
  subject_id = f.subject_id;
  evaluation_key = f.evaluation_key;
  fingerprint = f.fingerprint;
  severity = f.severity;
  change = change;
}

-- `recorded.push(…)` in front of what the later rounds push.
abbrev pub after : Finding → Outcome (List Finding) → Outcome (List Finding)
after f (throw e) = throw e
after f (ok fs) = ok (f ∷ fs)

-- The `data` of each write. An `undefined` column is not written.
abbrev pub or_kept : Option String → Option String → Option String
or_kept none kept = kept
or_kept (some text) kept = some text

abbrev pub as_observed : Run → FindingCandidate → ℕ → Finding → Finding
as_observed run c at f = record f {
  criterion_key = c.criterion_key;
  severity = c.severity;
  title = c.title;
  detail = or_kept c.detail f.detail;
  last_seen_run_id = run.id;
  last_seen_at = at;
}

abbrev pub as_reopened : Finding → Finding
as_reopened f = record f {
  status = open_status;
  resolved_at = none;
  suppression_note = none;
  suppressed_by_ref = none;
}

abbrev pub as_resolved : ℕ → Finding → Finding
as_resolved now f = record f { status = resolved_status; resolved_at = some now }

abbrev pub as_suppressed : Text → Text → Finding → Finding
as_suppressed note by f = record f {
  status = suppressed_status;
  suppression_note = some note;
  suppressed_by_ref = some by;
  resolved_at = none;
}

abbrev pub new_finding : Run → String → FindingCandidate → ℕ → ℕ → Finding
new_finding run evaluation_key c at id = record {
  id = id;
  subject_id = run.subject_id;
  evaluation_key = evaluation_key;
  fingerprint = c.fingerprint;
  criterion_key = c.criterion_key;
  severity = c.severity;
  status = open_status;
  title = c.title;
  detail = c.detail;
  first_seen_run_id = run.id;
  last_seen_run_id = run.id;
  first_seen_at = at;
  last_seen_at = at;
  resolved_at = none;
  suppression_note = none;
  suppressed_by_ref = none;
}

-- `existing.status === RESOLVED`
abbrev pub is_resolved : Finding → Bool
is_resolved f = eq_status f.status resolved_status

-- `status: existing.status`
abbrev pub same_status : Finding → Finding → Bool
same_status existing f = eq_status f.status existing.status

-- The `data` of the conditional write of `updateFinding`.
abbrev pub observation : Run → Finding → FindingCandidate → ℕ → Finding → Finding
observation run existing c at f =
    if is_resolved existing then as_reopened (as_observed run c at f) else as_observed run c at f

-- `status: OPEN, lastSeenAt: finding.lastSeenAt`
abbrev pub is_unseen : Finding → Finding → Bool
is_unseen listed f = is_open f && f.last_seen_at == listed.last_seen_at

-- The `where` of the listing of absent findings.
abbrev pub is_absent : Run → String → Finding → Bool
is_absent run evaluation_key f =
    f.subject_id == run.subject_id
    && (str_eq f.evaluation_key evaluation_key
        && (is_open f
            && (ltb f.last_seen_at (observed_at run) && not (f.last_seen_run_id == run.id))))
