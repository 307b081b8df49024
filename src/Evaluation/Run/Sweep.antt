-- ===== src/Evaluation/Run/Sweep.antt =====
-- What a whole sweep of evaluation/evaluation-run.service.ts leaves behind.
use mathlib.Core.List.{Memᴰ, not-mem-nil}
use newbie_modules.Common.{
  ℕ, suc, ◌-◌, ◌≤◌, ◌≡◌, ◌⊎◌, sym, subst, ap, ◌∙◌, Bool, true, false, Option, none, some, List, [],
  ◌∷◌, ◌==◌, ◌&&◌, ltb, arith, Bool-cases, inl, inr,
}
use newbie_modules.Common.Table.{written}
use newbie_modules.Evaluation.Run.State.{Run, RunDb, is_active, is_untouched, stale_run_error}
use newbie_modules.Evaluation.Run.Service.{
  as_failed, reap_row, reap_loop, stale_rows, reap_stale_runs,
}
use newbie_modules.Evaluation.Run.Reaper.{find-reap_row}

-- A row that is active after the write is the row before it, and was not closed.
survives :
    (now : ℕ) (c : Run) (o : Option Run) (q : Run)
    → written (is_untouched c) (as_failed stale_run_error now) o ≡ some q
    → is_active q ≡ true
    → (o ≡ some q) × (is_untouched c q ≡ false)
survives now c none q h live = cc
survives now c (some r) q h live = elim (Bool-cases (is_untouched c r)) [
  | inl closed ↦ absurd (ground arith)
  | inr kept ↦ let e : r ≡ q = ground arith in (ap some e, ap (is_untouched c) (sym e) ∙ kept)
]

mem_cons : {A : Type 0} {a x : A} {xs : List A} → Memᴰ a (x ∷ xs) → (a ≡ x) ⊎ Memᴰ a xs
mem_cons (Memᴰ.head e) = inl e
mem_cons (Memᴰ.tail m) = inr m

module _ {S : Type 0} (db : RunDb S) where
  open db.runs use {find, find-id, find_many_complete}

  -- No other process changes the database during the sweep.
  abbrev pub undisturbed : ℕ → S → S
  undisturbed i s = s

  reap_row-survivor :
      (now : ℕ) (c : Run) (s : S) (j : ℕ) (q : Run)
      → find j (reap_row db now c s).1 ≡ some q
      → is_active q ≡ true
      → (find j s ≡ some q) × (c.id ≡ j → is_untouched c q ≡ false)
  reap_row-survivor now c s j q found live = elim (Bool-cases (c.id == j)) [
    | inl same ↦
        let (before, kept) =
          survives now c (find j s) q (rw (find-reap_row db now c s j, same) at found) live in
        (before, λ e. kept)
    | inr other ↦ (rw (find-reap_row db now c s j, other) at found, λ e. absurd (ground arith))
  ]

  reap_loop-survivor :
      (clock : ℕ → ℕ) (i : ℕ) (cs : List Run) (s : S) (j : ℕ) (q : Run)
      → find j (reap_loop db clock undisturbed i cs s).1 ≡ some q
      → is_active q ≡ true
      → (find j s ≡ some q) × ((c : Run) → Memᴰ c cs → c.id ≡ j → is_untouched c q ≡ false)
  unfolding reap_loop
  reap_loop-survivor clock i [] s j q found live = (found, λ c m e. absurd (not-mem-nil ∣ m ∣₁))
  reap_loop-survivor clock i (c ∷ cs) s j q found live =
      let (mid, others) =
        reap_loop-survivor clock (suc i) cs (reap_row db (clock i) c s).1 j q found live in
      let (before, kept) = reap_row-survivor (clock i) c s j q mid live in
      (
        before,
        λ d m e. elim (mem_cons m) [
          | inl first ↦ rw first (kept (rw first at e))
          | inr later ↦ others d later e
        ],
      )

  -- A sweep that nothing disturbs leaves no abandoned run: a row that is still active after it was
  -- there before it, unchanged, and was touched within the timeout.
  pub reap_stale_runs_complete :
      (now timeout : ℕ) (clock : ℕ → ℕ) (s : S) (j : ℕ) (q : Run)
      → find j (reap_stale_runs db now timeout clock undisturbed s).1 ≡ some q
      → is_active q ≡ true
      → (find j s ≡ some q) × (now - timeout ≤ q.updated_at)
  unfolding reap_stale_runs stale_rows
  reap_stale_runs_complete now timeout clock s j q found live =
      let stale : Run → Bool = λ r. is_active r && ltb r.updated_at (now - timeout) in
      let (before, others) =
        reap_loop-survivor clock 0 (db.runs.find_many stale s) s j q found live in
      (
        before,
        elim (Bool-cases (ltb q.updated_at (now - timeout))) [
          | inr fresh ↦ ground arith
          | inl old ↦
              let id : q.id ≡ j = find-id j s q before in
              let listed =
                find_many_complete stale s q (subst (λ k. find k s ≡ some q) (sym id) before)
                  (rw (live, old)) in
              let kept : is_untouched q q ≡ false = others q listed id in absurd (ground arith)
        ],
      )
