-- ===== src/UrlCheck/Cycle.antt =====
-- A check cycle of url-check/url-check-probe.service.ts: the batches of `runChecks`, and
-- `checkTarget` for each target. `recordResult` only appends to the history and drops its failure,
-- so it is left out. An exception of `checkTarget` is only logged.
use newbie_modules.Common.{
  ℕ, zero, suc, ◌+◌, ◌≤◌, ◌≡◌, refl, sym, ap, ◌∙◌, List, [], ◌∷◌, ◌++◌, length, take, drop,
  length-drop, ltb, if◌then◌else◌, All, Bool-cases, inl, inr, arith,
}
use newbie_modules.UrlCheck.Alert.{Target, State, Event, advance_state}
use newbie_modules.UrlCheck.Guard.{Network}
use newbie_modules.UrlCheck.Probe.{probe}

abbrev pub probe_concurrency : ℕ
probe_concurrency = 10

module _ {A : Type 0} where
  -- `slice(offset, offset + PROBE_CONCURRENCY)` in the loop from `offset`; `[]` is also what fuel that
  -- ran out gives.
  unfoldable pub batches_from : ℕ → ℕ → List A → List (List A)
  batches_from zero offset targets = []
  batches_from (suc fuel) offset targets =
      let rest = batches_from fuel (offset + probe_concurrency) targets in
      if ltb offset (length targets)
      then take probe_concurrency (drop offset targets) ∷ rest
      else []

  -- As many rounds as there are targets are enough.
  unfoldable pub batches : List A → List (List A)
  batches targets = batches_from (length targets) 0 targets

  abbrev pub join : List (List A) → List A
  join [] = []
  join (b ∷ bs) = b ++ join bs

  abbrev pub IsBatch : List A → Type 0
  IsBatch b = (1 ≤ length b) × (length b ≤ probe_concurrency)

  take-drop : (n : ℕ) (xs : List A) → take n xs ++ drop n xs ≡ xs
  take-drop zero xs = refl
  take-drop (suc n) [] = refl
  take-drop (suc n) (x ∷ xs) = ap (λ r. x ∷ r) (take-drop n xs)

  drop_nil : (n : ℕ) → drop {A = A} n [] ≡ []
  drop_nil zero = refl
  drop_nil (suc n) = refl

  length-take-le : (n : ℕ) (xs : List A) → length (take n xs) ≤ n
  length-take-le zero xs = omega arith
  length-take-le (suc n) [] = omega arith
  length-take-le (suc n) (x ∷ xs) = omega (arith, length-take-le n xs)

  drop-add : (m n : ℕ) (xs : List A) → drop (m + n) xs ≡ drop n (drop m xs)
  drop-add zero n xs = rw (zero_add n)
    where
      zero_add : (k : ℕ) → 0 + k ≡ k
      zero_add k = omega arith
  drop-add (suc m) n [] = rw (suc_add m n) (sym (drop_nil n))
    where
      suc_add : (i k : ℕ) → suc i + k ≡ suc (i + k)
      suc_add i k = omega arith
  drop-add (suc m) n (x ∷ xs) = rw (suc_add m n) (drop-add m n xs)
    where
      suc_add : (i k : ℕ) → suc i + k ≡ suc (i + k)
      suc_add i k = omega arith

  take-IsBatch : (xs : List A) → 1 ≤ length xs → IsBatch (take probe_concurrency xs)
  take-IsBatch [] h = absurd (omega arith)
  take-IsBatch (x ∷ xs) h = (omega arith, omega (arith, length-take-le 9 xs))

  drop_short : (n : ℕ) (xs : List A) → length xs ≤ n → drop n xs ≡ []
  drop_short zero [] h = refl
  drop_short zero (x ∷ xs) h = absurd (omega arith)
  drop_short (suc n) [] h = refl
  drop_short (suc n) (x ∷ xs) h = drop_short n xs (omega arith)

  batches_from_lem :
      (fuel offset : ℕ) (targets : List A)
      → length targets ≤ offset + fuel
      → (join (batches_from fuel offset targets) ≡ drop offset targets)
        × All IsBatch (batches_from fuel offset targets)
  unfolding batches_from
  batches_from_lem zero offset targets h = (sym (drop_short offset targets (omega arith)), tt)
  batches_from_lem (suc fuel) offset targets h = elim (Bool-cases (ltb offset (length targets))) [
    | inr past ↦ rw past (sym (drop_short offset targets (ground (arith, past))), tt)
    | inl more ↦
        let (rest, all) =
          batches_from_lem fuel (offset + probe_concurrency) targets (omega arith) in
        let first = drop offset targets in
        rw more (
          ap (λ r. take probe_concurrency first ++ r)
                (rest ∙ drop-add offset probe_concurrency targets)
              ∙ take-drop probe_concurrency first,
          (take-IsBatch first (ground (arith, more, length-drop offset targets)), all),
        )
  ]

  -- The loop ends, and its batches hold each target exactly once, in order, at most ten together and
  -- none empty.
  pub batches_cover :
      (targets : List A) → (join (batches targets) ≡ targets) × All IsBatch (batches targets)
  unfolding batches
  batches_cover targets = batches_from_lem (length targets) 0 targets (omega arith)

module _ {W : Type 0} (net : Network W) where
  -- `target` is the row as the cycle read it; the probe comes before the transaction.
  unfoldable pub check_target : Target → ℕ → ℕ → W → State → (State × List Event) × W
  check_target target checked_at duration_ms w s =
      let (outcome, run) = probe net duration_ms target.url w in
      (advance_state target outcome checked_at s, run.world)
