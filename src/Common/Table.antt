-- ===== src/Common/Table.antt =====
-- What the services rely on of a database table, as its client documents it: rows are found by
-- id, a conditional update changes the row of that id exactly if it satisfies the condition and
-- reports how many rows it changed, and a listing returns exactly the rows that are there. No write
-- changes an id.
-- A row's id is a UUID, which is a number and is only compared.
use Prim.Native.Nat.{ℕ}
use mathlib.Core.Path.{◌≡◌}
use mathlib.Core.Bool.{Bool, true}
use mathlib.Core.List.{List, Memᴰ}
use mathlib.Core.Option.{Option, none, some}
use newbie_modules.Common.Tests.{if◌then◌else◌, ◌==◌}
use newbie_modules.Common.Lists.{All}

-- The row after a conditional write, and whether it was written.
abbrev pub written {ℓ} : {Row : Type ℓ} → (Row → Bool) → (Row → Row) → Option Row → Option Row
written p f none = none
written p f (some r) = some (if p r then f r else r)

abbrev pub matched {ℓ} : {Row : Type ℓ} → (Row → Bool) → Option Row → ℕ
matched p none = 0
matched p (some r) = if p r then 1 else 0

-- `S` is the state of the database.
pub record Table (S Row : Type 0) (id_of : Row → ℕ) : Type 0 where
  -- `findUnique({ where: { id } })`
  pub find : ℕ → S → Option Row
  -- `findMany({ where })`
  pub find_many : (Row → Bool) → S → List Row
  -- `updateMany({ where: { id, … }, data })`, the state after it and its `count`
  pub update_many : ℕ → (Row → Bool) → (Row → Row) → S → S × ℕ
  pub find-id : (j : ℕ) (s : S) (r : Row) → find j s ≡ some r → id_of r ≡ j
  pub find-update_many :
      (id j : ℕ) (p : Row → Bool) (f : Row → Row) (s : S)
      → ((r : Row) → id_of (f r) ≡ id_of r)
      → find j (update_many id p f s).0 ≡ (if id == j then written p f (find j s) else find j s)
  pub count-update_many :
      (id : ℕ) (p : Row → Bool) (f : Row → Row) (s : S)
      → (update_many id p f s).1 ≡ matched p (find id s)
  pub find_many_sound :
      (p : Row → Bool) (s : S)
      → All (λ r. (find (id_of r) s ≡ some r) × (p r ≡ true)) (find_many p s)
  pub find_many_complete :
      (p : Row → Bool) (s : S) (r : Row)
      → find (id_of r) s ≡ some r
      → p r ≡ true
      → Memᴰ r (find_many p s)
