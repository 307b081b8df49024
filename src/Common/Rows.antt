-- ===== src/Common/Rows.antt =====
-- A table of rows as a list: an instance of what the services rely on.
use Prim.Native.Nat.{ℕ}
use mathlib.Core.Path.{◌≡◌, refl}
use mathlib.Core.Logic.{inl, inr}
use mathlib.Core.Bool.{Bool, true, not, ◌&&◌}
use mathlib.Core.List.{List, [], ◌∷◌, Memᴰ}
use mathlib.Core.Option.{Option, none, some}
use native.Mathlib.Omega.{arith}
use newbie_modules.Common.Tests.{if◌then◌else◌, ◌==◌, ==_refl, Bool-cases}
use newbie_modules.Common.Lists.{All}
use newbie_modules.Common.Table.{Table, written, matched}

module _ {Row : Type 0} (id_of : Row → ℕ) where
  abbrev pub find_row : ℕ → List Row → Option Row
  find_row j [] = none
  find_row j (r ∷ rs) = if id_of r == j then some r else find_row j rs

  -- A row that an earlier row of the same id hides is not in the table.
  abbrev pub find_rows : (Row → Bool) → List Row → List Row
  find_rows p [] = []
  find_rows p (r ∷ rs) =
      let rest = find_rows (λ q. p q && not (id_of r == id_of q)) rs in
      if p r then r ∷ rest else rest

  abbrev pub write_row : ℕ → (Row → Bool) → (Row → Row) → List Row → List Row
  write_row id p f [] = []
  write_row id p f (r ∷ rs) =
      if id_of r == id then (if p r then f r else r) ∷ rs else r ∷ write_row id p f rs

  pub find_row-id : (j : ℕ) (rs : List Row) (r : Row) → find_row j rs ≡ some r → id_of r ≡ j
  find_row-id j [] r h = cc
  find_row-id j (q ∷ rs) r h = ground (arith, find_row-id j rs r)

  written_if :
      (p : Row → Bool) (f : Row → Row) (r : Row)
      → some (if p r then f r else r) ≡ written p f (some r)
  written_if p f r = refl

  written_id :
      (p : Row → Bool) (f : Row → Row) (r : Row)
      → ((q : Row) → id_of (f q) ≡ id_of q)
      → id_of (if p r then f r else r) ≡ id_of r
  written_id p f r keeps = ground (arith, keeps r)

  pub find_row-write_row :
      (id j : ℕ) (p : Row → Bool) (f : Row → Row) (rs : List Row)
      → ((r : Row) → id_of (f r) ≡ id_of r)
      → find_row j (write_row id p f rs)
        ≡ (if id == j then written p f (find_row j rs) else find_row j rs)
  find_row-write_row id j p f [] keeps = ground arith
  find_row-write_row id j p f (r ∷ rs) keeps =
      ground (arith, find_row-write_row id j p f rs keeps, written_id p f r keeps)

  -- Rows of another id than `r`.
  find_row-skip :
      (r q : Row) (rs : List Row)
      → find_row (id_of q) rs ≡ some q
      → not (id_of r == id_of q) ≡ true
      → find_row (id_of q) (r ∷ rs) ≡ some q
  find_row-skip r q rs h other = ground arith

  All-skip :
      (p : Row → Bool) (r : Row) (rs qs : List Row)
      → All (λ q. (find_row (id_of q) rs ≡ some q) × ((p q && not (id_of r == id_of q)) ≡ true)) qs
      → All (λ q. (find_row (id_of q) (r ∷ rs) ≡ some q) × (p q ≡ true)) qs
  All-skip p r rs [] h = tt
  All-skip p r rs (q ∷ qs) ((found, both), h) =
      ((find_row-skip r q rs found (ground arith), ground arith), All-skip p r rs qs h)

  pub find_rows_sound :
      (p : Row → Bool) (rs : List Row)
      → All (λ q. (find_row (id_of q) rs ≡ some q) × (p q ≡ true)) (find_rows p rs)
  find_rows_sound p [] = tt
  find_rows_sound p (r ∷ rs) =
      let rest = find_rows (λ q. p q && not (id_of r == id_of q)) rs in
      let later =
        All-skip p r rs rest (find_rows_sound (λ q. p q && not (id_of r == id_of q)) rs) in
      elim (Bool-cases (p r)) [
        | inl h ↦ rw h ((rw (==_refl (id_of r)) refl, h), later)
        | inr h ↦ rw h later
      ]

  pub find_rows_complete :
      (p : Row → Bool) (rs : List Row) (q : Row)
      → find_row (id_of q) rs ≡ some q
      → p q ≡ true
      → Memᴰ q (find_rows p rs)
  find_rows_complete p [] q h k = cc
  find_rows_complete p (r ∷ rs) q h k = elim (Bool-cases (id_of r == id_of q)) [
    | inl same ↦ let e : r ≡ q = ground arith in rw e (rw k (Memᴰ.head refl))
    | inr other ↦
        let later =
          find_rows_complete (λ q. p q && not (id_of r == id_of q)) rs q (rw other at h)
            (rw (k, other)) in
        elim (Bool-cases (p r)) [ inl h ↦ rw h (Memᴰ.tail later) | inr h ↦ rw h later ]
  ]

  abbrev pub rows_table : Table (List Row) Row id_of
  rows_table = record {
    find = find_row;
    find_many = find_rows;
    update_many = λ id p f rs. (write_row id p f rs, matched p (find_row id rs));
    find-id = find_row-id;
    find-update_many = find_row-write_row;
    count-update_many = λ id p f rs. refl;
    find_many_sound = find_rows_sound;
    find_many_complete = find_rows_complete;
  }
