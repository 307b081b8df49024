-- ===== src/Evaluation/Finding/Tests.antt =====
-- Findings of evaluation/evaluation-finding.service.ts on a table of rows, at concrete inputs.
use mathlib.Core.List.{Memᴰ, not-mem-nil}
use newbie_modules.Common.{
  ℕ, String, ◌≡◌, ◌⊎◌, ◌≤◌, refl, sym, Bool, true, false, Option, none, some, List, [], ◌∷◌, ◌==◌,
  if◌then◌else◌, arith, Option-cases, Bool-cases, inl, inr, All, subst,
}
use newbie_modules.Common.Evolution.{Keeps}
use newbie_modules.Common.Rows.{
  find_row, find_rows, rows_table, find_row-id, find_rows_sound, find_rows_complete,
}
use newbie_modules.Evaluation.Contracts.{FindingCandidate}
use newbie_modules.Evaluation.Run.State.{Run, running}
use newbie_modules.Evaluation.Finding.State.{
  Finding, FindingDb, open_status, suppressed_status, has_key, observed_at,
}
use newbie_modules.Evaluation.Finding.Service.{
  observe, write_observation, refresh, resolve_row, resolve_loop, resolve_listed, record_findings,
  resolve_absent_findings, suppress_finding,
}
use newbie_modules.Evaluation.Finding.Writes.{KeepsSuppression, IsCoherent}
use newbie_modules.Evaluation.Finding.Lifecycle.{
  observed, refreshed, closed, by_run, suppressed_by, Runs, none_yet, then_run, Reach, here, next,
  AreCoherent,
}
use newbie_modules.Evaluation.Finding.Handlers.{run-KeepsSuppression}
use newbie_modules.Evaluation.Finding.Observation.{Records, observe-Records}
use newbie_modules.Evaluation.Finding.Resolution.{resolve_listed_complete}

abbrev first : List Finding → Option Finding
first [] = none
first (f ∷ fs) = some f

abbrev is_taken : Finding → Finding → Bool
is_taken f g = if g.id == f.id then true else has_key f.subject_id f.evaluation_key f.fingerprint g

abbrev add_if : Finding → List Finding → Option Finding → Option (List Finding)
add_if f fs none = some (f ∷ fs)
add_if f fs (some g) = none

abbrev create_row : Finding → List Finding → Option (List Finding)
create_row f fs = add_if f fs (first (find_rows (λ g. g.id) (is_taken f) fs))

add_if-some :
    (f : Finding) (fs t : List Finding) (o : Option Finding)
    → add_if f fs o ≡ some t
    → (o ≡ none) × (t ≡ f ∷ fs)
add_if-some f fs t none h = (refl, cc)
add_if-some f fs t (some g) h = cc

add_if-none :
    (f : Finding) (fs : List Finding) (o : Option Finding)
    → add_if f fs o ≡ none
    → (g : Finding) × (o ≡ some g)
add_if-none f fs none h = absurd (cc h)
add_if-none f fs (some g) h = (g, refl)

first-some :
    (P : Finding → Type 0) (fs : List Finding) (f : Finding) → first fs ≡ some f → All P fs → P f
first-some P [] f h k = absurd (cc h)
first-some P (g ∷ fs) f h (k, ks) = subst P (cc h) k

first-none : (f : Finding) (fs : List Finding) → first fs ≡ none → Memᴰ f fs → ⊥
first-none f [] h m = not-mem-nil ∣ m ∣₁
first-none f (g ∷ fs) h m = cc h

absent_row :
    (p : Finding → Bool) (fs : List Finding) (f : Finding)
    → first (find_rows (λ g. g.id) p fs) ≡ none
    → find_row (λ g. g.id) f.id fs ≡ some f
    → p f ≡ false
absent_row p fs f h found = elim (Bool-cases (p f)) [
  | inr free ↦ free
  | inl taken ↦ absurd (first-none f _ h (find_rows_complete (λ g. g.id) p fs f found taken))
]

create_row-fresh :
    (f : Finding) (s t : List Finding)
    → create_row f s ≡ some t
    → find_row (λ g. g.id) f.id s ≡ none
create_row-fresh f s t made = elim (Option-cases (find_row (λ g. g.id) f.id s)) [
  | inl free ↦ free
  | inr (g, found) ↦
      let e : g.id ≡ f.id = find_row-id (λ g. g.id) f.id s g found in
      let no =
        absent_row (is_taken f) s g (add_if-some f s t _ made).0
          (subst (λ k. find_row (λ g. g.id) k s ≡ some g) (sym e) found) in
      absurd (ground (arith, e))
]

abbrev by_key : ℕ → String → String → List Finding → Option Finding
by_key subject_id key fingerprint fs =
    first (find_rows (λ g. g.id) (has_key subject_id key fingerprint) fs)

abbrev table : FindingDb (List Finding)
table = record {
  findings = rows_table (λ f. f.id);
  find_by_key = by_key;
  create = create_row;
  find_evaluation_key = λ id s. some "k";
  list_criteria = λ id s. [];
  find_by_key_sound = λ subject_id key fingerprint s f h.
      let p = has_key subject_id key fingerprint in
      let both =
        first-some (λ g. (find_row (λ g. g.id) g.id s ≡ some g) × (p g ≡ true))
          (find_rows (λ g. g.id) p s) f h (find_rows_sound (λ g. g.id) p s) in
      (both.0, both.1);
  find_by_key_missing = λ subject_id key fingerprint s f h found.
      absent_row (has_key subject_id key fingerprint) s f h found;
  find-create = λ f s t j made. rw (add_if-some f s t _ made).1;
  create_fresh = create_row-fresh;
  create_refused = λ f s refused.
      let (g, h) = add_if-none f s _ refused in
      let both =
        first-some (λ g. (find_row (λ g. g.id) g.id s ≡ some g) × (is_taken f g ≡ true))
          (find_rows (λ g. g.id) (is_taken f) s) g h (find_rows_sound (λ g. g.id) (is_taken f) s) in
      (g, both.0, both.1);
}

abbrev run : Run
run = record {
  id = 5;
  subject_id = 7;
  rule_set_version_id = 3;
  requested_by_ref = none;
  status = running;
  error = none;
  started_at = some 100;
  finished_at = none;
  created_at = 90;
  updated_at = 100;
}

abbrev candidate : FindingCandidate
candidate = record {
  criterion_key = "lapse";
  fingerprint = "f";
  severity = "LOW";
  title = "t";
  detail = none;
  evidence_refs = none;
}

-- Seen by the run 4 at 50.
abbrev lapse : Finding
lapse = record {
  id = 1;
  subject_id = 7;
  evaluation_key = "k";
  fingerprint = "f";
  criterion_key = "lapse";
  severity = "LOW";
  status = open_status;
  title = "t";
  detail = none;
  first_seen_run_id = 4;
  last_seen_run_id = 4;
  first_seen_at = 50;
  last_seen_at = 50;
  resolved_at = none;
  suppression_note = none;
  suppressed_by_ref = none;
}

abbrev silenced : Finding
silenced = record lapse {
  status = suppressed_status;
  suppression_note = some (97 ∷ []);
  suppressed_by_ref = some (98 ∷ []);
}

abbrev suppressed_then_seen :
    Reach table
      (lapse ∷ [])
      (write_observation table run lapse candidate 100
        (suppress_finding table 1 (97 ∷ []) (98 ∷ []) (lapse ∷ [])).state).0
suppressed_then_seen =
    next (next here (suppressed_by 1 (97 ∷ []) (98 ∷ []) (lapse ∷ [])))
      (by_run (observed run lapse candidate 100 _))

abbrev seen_and_swept :
    Runs table
      (silenced ∷ [])
      (resolve_row table 120 run "k" lapse (refresh table run 1 candidate 100 (silenced ∷ []))).1
seen_and_swept =
    then_run (then_run none_yet (refreshed run 1 candidate 100 (silenced ∷ [])))
      (closed 120 run "k" lapse _)

some_of : (f g : Finding) → some f ≡ some g → f ≡ g
some_of f g h = cc h

lapse_coherent : AreCoherent table (lapse ∷ [])
lapse_coherent j f found = elim (Bool-cases (lapse.id == j)) [
  | inl same ↦ subst IsCoherent (some_of lapse f (rw same at found)) (refl, refl, refl)
  | inr other ↦ absurd (cc (rw other at found))
]

run-KeepsSuppression_example :
    Keeps table.findings KeepsSuppression
      (silenced ∷ [])
      (record_findings table (λ s. s) (λ i. 9) run (candidate ∷ []) none (silenced ∷ [])).state
    × Keeps table.findings KeepsSuppression
        (silenced ∷ [])
        (resolve_absent_findings table (λ i. 120) (λ i s. s) run (silenced ∷ [])).state
run-KeepsSuppression_example =
    run-KeepsSuppression table (λ i. 120) (λ i. 9) (λ i s. s) run (candidate ∷ []) none
      (silenced ∷ []) (λ i s. none_yet)

-- Seen again at 100, so the sweep at 120 leaves it.
abbrev seen_lapse : Finding
seen_lapse = record lapse { last_seen_run_id = 5; last_seen_at = 100 }

swept_seen :
    table.findings.find 1 (resolve_listed table (λ i. 120) (λ i s. s) run "k" (seen_lapse ∷ [])).1
    ≡ some seen_lapse
unfolding resolve_listed resolve_loop
swept_seen = refl

resolve_listed_complete_example :
    (table.findings.find 1 (seen_lapse ∷ []) ≡ some seen_lapse)
    × ((observed_at run ≤ seen_lapse.last_seen_at) ⊎ (seen_lapse.last_seen_run_id ≡ 5))
resolve_listed_complete_example =
    resolve_listed_complete table (λ i. 120) run "k" (seen_lapse ∷ []) 1 seen_lapse swept_seen refl
      refl refl

observe-Records_example :
    Records table run "k" candidate 100
      (observe table (λ s. s) 9 run "k" candidate 100 (lapse ∷ []))
observe-Records_example = observe-Records table 9 run "k" candidate 100 (lapse ∷ []) refl

-- The run 4 started at 80 and observes after the run 5.
abbrev early_run : Run
early_run = record run { id = 4; rule_set_version_id = 2; started_at = some 80 }
