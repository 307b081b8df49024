-- ===== src/Evaluation/Finding/Lifecycle.antt =====
-- The life of a finding under every interleaving of the writes of
-- evaluation/evaluation-finding.service.ts.
use newbie_modules.Common.{
  ℕ, ◌≡◌, refl, sym, ◌∙◌, subst, Bool, true, some, String, ◌==◌, Bool-cases, inl, inr, ==_iff,
}
use newbie_modules.Common.Evolution.{Keeps, update_many-Keeps, update_many-before}
use newbie_modules.Evaluation.Contracts.{FindingCandidate}
use newbie_modules.Evaluation.Errors.{Text, Outcome, ok, throw}
use newbie_modules.Evaluation.Run.State.{Run}
use newbie_modules.Evaluation.Finding.State.{Finding, FindingDb, is_blank}
use newbie_modules.Evaluation.Finding.Data.{
  as_observed, as_reopened, as_resolved, as_suppressed, new_finding, is_resolved, same_status,
  observation, is_unseen,
}
use newbie_modules.Evaluation.Finding.Service.{
  write_observation, refresh, resolve_row, suppress_finding, reopen_finding, announce_written,
  announce, require_finding,
}
use newbie_modules.Evaluation.Finding.State.{Change}
use newbie_modules.Evaluation.Finding.Writes.{
  KeepsIdentity, KeepsSuppression, IsCoherent, Lives, Respects, Lives-refl, Respects-refl,
  reopened-Lives, suppressed-Lives, observation-Respects, observed-Respects, resolved-Respects,
}

pub observation-id :
    (run : Run) (existing : Finding) (c : FindingCandidate) (at : ℕ) (f : Finding)
    → (observation run existing c at f).id ≡ f.id
observation-id run existing c at f = elim (Bool-cases (is_resolved existing)) [
  | inl resolved ↦ rw resolved
  | inr other ↦ rw other
]

KeepsIdentity-trans : (f g h : Finding) → KeepsIdentity f g → KeepsIdentity g h → KeepsIdentity f h
KeepsIdentity-trans f g h a b = record {
  id = b.id ∙ a.id;
  subject = b.subject ∙ a.subject;
  key = b.key ∙ a.key;
  fingerprint = b.fingerprint ∙ a.fingerprint;
  first_run = b.first_run ∙ a.first_run;
  first_seen = b.first_seen ∙ a.first_seen;
}

KeepsSuppression-trans :
    (f g h : Finding) → KeepsSuppression f g → KeepsSuppression g h → KeepsSuppression f h
KeepsSuppression-trans f g h a b e =
    let (s, note, by) = a e in let (t, note', by') = b s in (t, note' ∙ note, by' ∙ by)

module _ {S : Type 0} (db : FindingDb S) where
  open db.findings use {find}

  -- One write of a run: of any run, of any process, after any read. The row or the listing that a
  -- conditional write goes by may be stale.
  pub data RunStep : S → S → Type 0 where
    created :
        (run : Run) (evaluation_key : String) (c : FindingCandidate) (at id : ℕ) (s t : S)
        → db.create (new_finding run evaluation_key c at id) s ≡ some t
        → RunStep s t
    observed :
        (run : Run) (existing : Finding) (c : FindingCandidate) (at : ℕ) (s : S)
        → RunStep s (write_observation db run existing c at s).0
    refreshed :
        (run : Run) (id : ℕ) (c : FindingCandidate) (at : ℕ) (s : S)
        → RunStep s (refresh db run id c at s)
    closed :
        (now : ℕ) (run : Run) (evaluation_key : String) (listed : Finding) (s : S)
        → RunStep s (resolve_row db now run evaluation_key listed s).1

  -- A write of a run, or a decision of a human.
  pub data Step : S → S → Type 0 where
    by_run : {s t : S} → RunStep s t → Step s t
    suppressed_by :
        (id : ℕ) (note by : Text) (s : S) → Step s (suppress_finding db id note by s).state
    reopened_by : (id : ℕ) (s : S) → Step s (reopen_finding db id s).state

  pub data Runs (s : S) : S → Type 0 where
    none_yet : Runs s s
    then_run : {t u : S} → Runs s t → RunStep t u → Runs s u

  pub data Reach (s : S) : S → Type 0 where
    here : Reach s s
    next : {t u : S} → Reach s t → Step t u → Reach s u

  -- Every row is coherent.
  abbrev pub AreCoherent : S → Type 0
  AreCoherent s = (j : ℕ) (f : Finding) → find j s ≡ some f → IsCoherent f

  abbrev IsLawful : S → S → Type 0
  IsLawful s t = Keeps db.findings Lives s t × (AreCoherent s → AreCoherent t)

  IsLawful-refl : (s : S) → IsLawful s s
  IsLawful-refl s = ((λ j f found. (f, found, Lives-refl f)), λ h. h)

  update_many-IsLawful :
      (p : Finding → Bool) (f : Finding → Finding)
      → ((g : Finding) → (f g).id ≡ g.id)
      → ((g : Finding) → p g ≡ true → Lives g (f g))
      → (id : ℕ) (s : S) → IsLawful s (db.findings.update_many id p f s).0
  update_many-IsLawful p f same moves id s = (
    update_many-Keeps db.findings Lives Lives-refl p f same moves id s,
    λ h j g found.
        let (r, before, e) =
          update_many-before db.findings Lives Lives-refl p f same moves id s j g found in
        e.coherent (h j r before),
  )

  Respects-IsLawful :
      (p : Finding → Bool) (f : Finding → Finding)
      → ((g : Finding) → (f g).id ≡ g.id)
      → ((g : Finding) → p g ≡ true → Respects g (f g))
      → (id : ℕ) (s : S)
      → IsLawful s (db.findings.update_many id p f s).0
        × Keeps db.findings Respects s (db.findings.update_many id p f s).0
  Respects-IsLawful p f same moves id s = (
    update_many-IsLawful p f same (λ g h. (moves g h).lives) id s,
    update_many-Keeps db.findings Respects Respects-refl p f same moves id s,
  )

  some_inj : {A : Type 0} {a b : A} → some a ≡ some b → a ≡ b
  some_inj h = cc

  create-Respects :
      (f : Finding) (s t : S) → db.create f s ≡ some t → Keeps db.findings Respects s t
  create-Respects f s t made j g found = elim (Bool-cases (f.id == j)) [
    | inl same ↦
        let e : f.id ≡ j = (==_iff f.id j).0 same in
        let free = db.create_fresh f s t made in
        absurd (cc (subst (λ k. find k s ≡ some g) (sym e) found, free))
    | inr other ↦ (g, rw (db.find-create f s t j made, other) found, Respects-refl g)
  ]

  create-coherent :
      (f : Finding) (s t : S)
      → db.create f s ≡ some t
      → IsCoherent f
      → AreCoherent s
      → AreCoherent t
  create-coherent f s t made new h j g found = elim (Bool-cases (f.id == j)) [
    | inl same ↦ subst IsCoherent (some_inj (rw (db.find-create f s t j made, same) at found)) new
    | inr other ↦ h j g (rw (db.find-create f s t j made, other) at found)
  ]

  Keeps-Lives : (s t : S) → Keeps db.findings Respects s t → Keeps db.findings Lives s t
  Keeps-Lives s t h j f found = let (g, there, e) = h j f found in (g, there, e.lives)

  RunStep-IsLawful : {s t : S} → RunStep s t → IsLawful s t × Keeps db.findings Respects s t
  unfolding write_observation refresh resolve_row
  RunStep-IsLawful (created run evaluation_key c at id s t made) =
      let row = new_finding run evaluation_key c at id in
      let kept = create-Respects row s t made in
      ((Keeps-Lives s t kept, create-coherent row s t made (refl, refl, refl)), kept)
  RunStep-IsLawful (observed run existing c at s) =
      Respects-IsLawful (same_status existing) (observation run existing c at)
        (observation-id run existing c at) (observation-Respects run existing c at) existing.id s
  RunStep-IsLawful (refreshed run id c at s) =
      Respects-IsLawful (λ f. true) (as_observed run c at) (λ f. refl)
        (λ f h. observed-Respects run c at f) id s
  RunStep-IsLawful (closed now run evaluation_key listed s) =
      Respects-IsLawful (is_unseen listed) (as_resolved now) (λ f. refl)
        (resolved-Respects now listed) listed.id s

  pub announce-state :
      (change : Change) (o : Outcome Finding) (s : S) → (announce db change o s).state ≡ s
  announce-state change (ok f) s = refl
  announce-state change (throw e) s = refl

  announce_written-state :
      (change : Change) (id : ℕ) (r : S × ℕ) → (announce_written db change id r).state ≡ r.0
  announce_written-state change id (t, count) = elim (Bool-cases (count == 0)) [
    | inl missing ↦ rw missing
    | inr there ↦ rw there (announce-state change (require_finding db id t) t)
  ]

  suppress_finding-IsLawful :
      (id : ℕ) (note by : Text) (s : S) → IsLawful s (suppress_finding db id note by s).state
  unfolding suppress_finding
  suppress_finding-IsLawful id note by s = elim (Bool-cases (is_blank note)) [
    | inl blank ↦ rw (suppress_finding, blank) (IsLawful-refl s)
    | inr noted ↦ elim (Bool-cases (is_blank by)) [
      | inl blank ↦ rw (suppress_finding, noted, blank) (IsLawful-refl s)
      | inr named ↦
          rw (suppress_finding, noted, named, announce_written-state)
            (update_many-IsLawful (λ f. true) (as_suppressed note by) (λ f. refl)
              (λ f h. suppressed-Lives note by f) id s)
    ]
  ]

  Step-IsLawful : {s t : S} → Step s t → IsLawful s t
  unfolding reopen_finding
  Step-IsLawful (by_run step) = (RunStep-IsLawful step).0
  Step-IsLawful (suppressed_by id note by s) = suppress_finding-IsLawful id note by s
  Step-IsLawful (reopened_by id s) =
      rw announce_written-state
        (update_many-IsLawful (λ f. true) as_reopened (λ f. refl) (λ f h. reopened-Lives f) id s)

  -- Whatever runs and humans write, in whatever order, a finding is never lost and keeps its
  -- identity (subject, evaluation key and fingerprint) and when and by which run it was first
  -- seen.
  pub Reach-KeepsIdentity : {s t : S} → Reach s t → Keeps db.findings KeepsIdentity s t
  Reach-KeepsIdentity here j f found = (f, found, (Lives-refl f).same)
  Reach-KeepsIdentity (next r step) j f found =
      let (g, there, fg) = Reach-KeepsIdentity r j f found in
      let (h, later, gh) = (Step-IsLawful step).0 j g there in
      (h, later, KeepsIdentity-trans f g h fg gh.same)

  -- In every state that is reached from a table of coherent rows, all rows are coherent: an open
  -- finding carries neither a resolution time nor a suppression, a resolved one carries its time,
  -- and a suppressed one a note and an actor.
  pub Reach-AreCoherent : {s t : S} → Reach s t → AreCoherent s → AreCoherent t
  Reach-AreCoherent here h = h
  Reach-AreCoherent (next r step) h = (Step-IsLawful step).1 (Reach-AreCoherent r h)

  -- However many runs observe and resolve, in whatever interleaving and by stale reads, a
  -- suppressed finding stays suppressed with the same note and actor: only a human lifts it.
  pub Runs-KeepsSuppression : {s t : S} → Runs s t → Keeps db.findings KeepsSuppression s t
  Runs-KeepsSuppression none_yet j f found = (f, found, (Respects-refl f).silent)
  Runs-KeepsSuppression (then_run r step) j f found =
      let (g, there, fg) = Runs-KeepsSuppression r j f found in
      let (h, later, gh) = (RunStep-IsLawful step).1 j g there in
      (h, later, KeepsSuppression-trans f g h fg gh.silent)
