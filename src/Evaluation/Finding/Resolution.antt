-- ===== src/Evaluation/Finding/Resolution.antt =====
-- Which findings a run resolves in evaluation/evaluation-finding.service.ts.
use mathlib.Core.List.{Memᴰ, not-mem-nil}
use newbie_modules.Common.{
  ℕ, suc, ◌≤◌, ◌≡◌, ◌≢◌, ◌⊎◌, refl, sym, subst, ap, ◌∙◌, Bool, true, false, Option, none, some,
  String, List, [], ◌∷◌, ◌==◌, ◌&&◌, ltb, if◌then◌else◌, arith, Bool-cases, inl, inr, ==_iff,
  eq_iff,
}
use newbie_modules.Common.Table.{written, matched}
use newbie_modules.Evaluation.Run.State.{Run}
use newbie_modules.Evaluation.Finding.State.{
  Finding, FindingDb, FindingStatus, open_status, resolved_status, suppressed_status, eq_status,
  is_open, observed_at,
}
use newbie_modules.Evaluation.Finding.Data.{as_resolved, is_unseen, is_absent}
use newbie_modules.Evaluation.Finding.Service.{resolve_row, resolve_loop, resolve_listed}

closed_row :
    (status : FindingStatus) (b : Bool)
    → status ≢ open_status
    → (eq_status status open_status && b) ≡ false
closed_row open_status b h = absurd (h refl)
closed_row resolved_status b h = refl
closed_row suppressed_status b h = refl

-- An open finding of the run's subject and key that is not absent.
not_absent :
    (run : Run) (key : String) (f : Finding)
    → f.subject_id ≡ run.subject_id
    → f.evaluation_key ≡ key
    → is_open f ≡ true
    → is_absent run key f ≡ false
    → (observed_at run ≤ f.last_seen_at) ⊎ (f.last_seen_run_id ≡ run.id)
not_absent run key f subject same live h =
    elim (Bool-cases (ltb f.last_seen_at (observed_at run))) [
      | inr recent ↦ inl (ground arith)
      | inl old ↦ elim (Bool-cases (f.last_seen_run_id == run.id)) [
        | inl mine ↦ inr ((==_iff f.last_seen_run_id run.id).0 mine)
        | inr other ↦
            let here = (==_iff f.subject_id run.subject_id).1 subject in
            let key_eq = (eq_iff f.evaluation_key key).1 same in
            absurd (cc (rw (here, key_eq, live, old, other) at h))
      ]
    ]

module _ {S : Type 0} (db : FindingDb S) where
  open db.findings use {find, find-id, find-update_many, count-update_many, find_many_complete}

  pub find-resolve_row :
      (now : ℕ) (run : Run) (key : String) (c : Finding) (s : S) (j : ℕ)
      → find j (resolve_row db now run key c s).1
        ≡ (if c.id == j then written (is_unseen c) (as_resolved now) (find j s) else find j s)
  unfolding resolve_row
  find-resolve_row now run key c s j =
      find-update_many c.id j (is_unseen c) (as_resolved now) s (λ f. refl)

  -- An open row after the write is the row before it, and was not closed.
  survives :
      (now : ℕ) (c : Finding) (o : Option Finding) (f : Finding)
      → written (is_unseen c) (as_resolved now) o ≡ some f
      → is_open f ≡ true
      → (o ≡ some f) × (is_unseen c f ≡ false)
  survives now c none f h live = cc
  survives now c (some g) f h live = elim (Bool-cases (is_unseen c g)) [
    | inl closed ↦ absurd (ground arith)
    | inr kept ↦ let e : g ≡ f = ground arith in (ap some e, ap (is_unseen c) (sym e) ∙ kept)
  ]

  resolve_row-survivor :
      (now : ℕ) (run : Run) (key : String) (c : Finding) (s : S) (j : ℕ) (f : Finding)
      → find j (resolve_row db now run key c s).1 ≡ some f
      → is_open f ≡ true
      → (find j s ≡ some f) × (c.id ≡ j → is_unseen c f ≡ false)
  resolve_row-survivor now run key c s j f found live = elim (Bool-cases (c.id == j)) [
    | inl same ↦
        let (before, kept) =
          survives now c (find j s) f (rw (find-resolve_row now run key c s j, same) at found)
            live in
        (before, λ e. kept)
    | inr other ↦
        (rw (find-resolve_row now run key c s j, other) at found, λ e. absurd (ground arith))
  ]

  mem_cons : {A : Type 0} {a x : A} {xs : List A} → Memᴰ a (x ∷ xs) → (a ≡ x) ⊎ Memᴰ a xs
  mem_cons (Memᴰ.head e) = inl e
  mem_cons (Memᴰ.tail m) = inr m

  resolve_loop-survivor :
      (clock : ℕ → ℕ) (i : ℕ) (run : Run) (key : String) (cs : List Finding) (s : S) (j : ℕ)
      (f : Finding)
      → find j (resolve_loop db clock (λ i s. s) i run key cs s).1 ≡ some f
      → is_open f ≡ true
      → (find j s ≡ some f) × ((c : Finding) → Memᴰ c cs → c.id ≡ j → is_unseen c f ≡ false)
  unfolding resolve_loop
  resolve_loop-survivor clock i run key [] s j f found live =
      (found, λ c m e. absurd (not-mem-nil ∣ m ∣₁))
  resolve_loop-survivor clock i run key (c ∷ cs) s j f found live =
      let (mid, others) =
        resolve_loop-survivor clock (suc i) run key cs (resolve_row db (clock i) run key c s).1 j f
          found live in
      let (before, kept) = resolve_row-survivor (clock i) run key c s j f mid live in
      (
        before,
        λ d m e. elim (mem_cons m) [
          | inl first ↦ rw first (kept (rw first at e))
          | inr later ↦ others d later e
        ],
      )

  -- The closing loop, undisturbed, leaves no absent finding open: a finding of the run's subject and
  -- evaluation key that is open after it was there before it, unchanged, and was seen by this run
  -- or since the run's start.
  pub resolve_listed_complete :
      (clock : ℕ → ℕ) (run : Run) (key : String) (s : S) (j : ℕ) (f : Finding)
      → find j (resolve_listed db clock (λ i s. s) run key s).1 ≡ some f
      → f.subject_id ≡ run.subject_id
      → f.evaluation_key ≡ key
      → f.status ≡ open_status
      → (find j s ≡ some f) × ((observed_at run ≤ f.last_seen_at) ⊎ (f.last_seen_run_id ≡ run.id))
  unfolding resolve_listed
  resolve_listed_complete clock run key s j f found subject same live =
      let open_now : is_open f ≡ true = rw live in
      let (before, others) =
        resolve_loop-survivor clock 0 run key (db.findings.find_many (is_absent run key) s) s j f
          found open_now in
      let id : f.id ≡ j = find-id j s f before in
      (
        before,
        elim (Bool-cases (is_absent run key f)) [
          | inr seen ↦ not_absent run key f subject same open_now seen
          | inl absent ↦
              let listed =
                find_many_complete (is_absent run key) s f
                  (subst (λ k. find k s ≡ some f) (sym id) before) absent in
              let kept : is_unseen f f ≡ false = others f listed id in
              absurd (ground (arith, open_now))
        ],
      )

  seen_again :
      (c f : Finding)
      → (f.status ≢ open_status) ⊎ (f.last_seen_at ≢ c.last_seen_at)
      → is_unseen c f ≡ false
  seen_again c f (inl moved) = closed_row f.status (f.last_seen_at == c.last_seen_at) moved
  seen_again c f (inr moved) = ground arith

  unreported :
      (now : ℕ) (run : Run) (key : String) (c : Finding) (s : S)
      → matched (is_unseen c) (find c.id s) ≡ 0
      → (resolve_row db now run key c s).0 ≡ []
  unfolding resolve_row
  unreported now run key c s h = rw (count-update_many c.id (is_unseen c) (as_resolved now) s, h)

  unwritten :
      (now : ℕ) (c : Finding) (o : Option Finding)
      → matched (is_unseen c) o ≡ 0
      → written (is_unseen c) (as_resolved now) o ≡ o
  unwritten now c none h = refl
  unwritten now c (some f) h = ground arith

  -- A finding that was suppressed, resolved or seen again after it was listed is left alone: the
  -- closing write changes no row and reports nothing.
  pub resolve_row-moved :
      (now : ℕ) (run : Run) (key : String) (c f : Finding) (s : S)
      → find c.id s ≡ some f
      → (f.status ≢ open_status) ⊎ (f.last_seen_at ≢ c.last_seen_at)
      → ((resolve_row db now run key c s).0 ≡ [])
        × ((j : ℕ) → find j (resolve_row db now run key c s).1 ≡ find j s)
  resolve_row-moved now run key c f s found moved =
      let no = seen_again c f moved in
      let none_matched = ap (matched (is_unseen c)) found ∙ (rw no) in
      (
        unreported now run key c s none_matched,
        λ j. find-resolve_row now run key c s j ∙ elim (Bool-cases (c.id == j)) [
          | inl same ↦
              let e : c.id ≡ j = (==_iff c.id j).0 same in
              rw same (unwritten now c (find j s) (rw e at none_matched))
          | inr other ↦ rw other
        ],
      )
