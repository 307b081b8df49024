-- ===== src/Common/Evolution.antt =====
-- What a conditional write does to the rows of a table, for a relation between a row before and
-- the row after.
use Prim.Native.Nat.{ℕ}
use mathlib.Core.Path.{◌≡◌, refl}
use mathlib.Core.Logic.{inl, inr}
use mathlib.Core.Bool.{Bool, true}
use mathlib.Core.Option.{Option, none, some}
use newbie_modules.Common.Tests.{if◌then◌else◌, ◌==◌, Bool-cases}
use newbie_modules.Common.Table.{Table, written}

module _ {S Row : Type 0} {id_of : Row → ℕ} (table : Table S Row id_of) where
  open table use {find, update_many, find-update_many}

  -- No row is lost, and each is related to what it becomes.
  abbrev pub Keeps : (Row → Row → Type 0) → S → S → Type 0
  Keeps R s t = (j : ℕ) (r : Row) → find j s ≡ some r → (q : Row) × (find j t ≡ some q) × R r q

  module _ (R : Row → Row → Type 0) (R-refl : (r : Row) → R r r) (p : Row → Bool) (f : Row → Row)
      (same_id : (r : Row) → id_of (f r) ≡ id_of r) (moves : (r : Row) → p r ≡ true → R r (f r))
      (id : ℕ) (s : S) where
    written_related : (r : Row) → R r (if p r then f r else r)
    written_related r = elim (Bool-cases (p r)) [
      | inl h ↦ rw h (moves r h)
      | inr h ↦ rw h (R-refl r)
    ]

    written-some :
        (o : Option Row) (q : Row)
        → written p f o ≡ some q
        → (r : Row) × (o ≡ some r) × ((if p r then f r else r) ≡ q)
    written-some none q h = cc
    written-some (some r) q h = (r, refl, cc)

    pub update_many-Keeps : Keeps R s (update_many id p f s).0
    update_many-Keeps j r found = elim (Bool-cases (id == j)) [
      | inl same ↦ (
        if p r then f r else r,
        rw (find-update_many id j p f s same_id, same, found),
        written_related r,
      )
      | inr other ↦ (r, rw (find-update_many id j p f s same_id, other) found, R-refl r)
    ]

    pub update_many-before :
        (j : ℕ) (q : Row)
        → find j (update_many id p f s).0 ≡ some q
        → (r : Row) × (find j s ≡ some r) × R r q
    update_many-before j q found = elim (Bool-cases (id == j)) [
      | inl same ↦
          let (r, before, now) =
            written-some (find j s) q (rw (find-update_many id j p f s same_id, same) at found) in
          let e : R r q = rw now at (written_related r) in (r, before, e)
      | inr other ↦ (q, rw (find-update_many id j p f s same_id, other) at found, R-refl q)
    ]
