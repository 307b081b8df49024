-- ===== src/Common/Counts.antt =====
-- A `Record<string, number>` of counts: adding to one entry, and the sum of all. The object is a plain
-- dictionary: a key that is spelled like an inherited member of objects, such as `constructor`, reads
-- as absent here, and is left out.
use Prim.Native.String.{String}
use mathlib.Core.Path.{◌≡◌, refl, sym, ◌∙◌, ap}
use mathlib.Core.List.{[], ◌∷◌}
use mathlib.Core.Option.{Option, none, some}
use mathlib.Core.Logic.{inl, inr}
use text.Mathlib.Text.{◌==◌ as str_eq}
use newbie_modules.Common.Tests.{Bool-cases}
use newbie_modules.Common.Dictionary.{Dict, get, set}
use newbie_modules.Common.Int.{ℤ, pos, ◌+ℤ◌, +ℤ_comm, +ℤ_assoc, +ℤ-zero, zero-+ℤ}

-- `m[k] ?? 0`
abbrev pub or_zero : Option ℤ → ℤ
or_zero none = pos 0
or_zero (some n) = n

-- `m[k] = (m[k] ?? 0) + n`
unfoldable pub add_count : String → ℤ → Dict ℤ → Dict ℤ
add_count k n m = set k (or_zero (get k m) +ℤ n) m

-- `Object.values(m).reduce((total, count) => total + count, 0)`
unfoldable pub sum_counts : Dict ℤ → ℤ
sum_counts [] = pos 0
sum_counts ((k, n) ∷ m) = n +ℤ sum_counts m

swap_last : (a b c : ℤ) → a +ℤ b +ℤ c ≡ a +ℤ c +ℤ b
swap_last a b c = rw (+ℤ_assoc a b c, +ℤ_comm b c, +ℤ_assoc a c b)

-- The sum after a write of `(m[k] ?? 0) + n`, for the value `g` that was read.
sum-set_read :
    (k : String) (n : ℤ) (m : Dict ℤ) (g : Option ℤ)
    → g ≡ get k m
    → sum_counts (set k (or_zero g +ℤ n) m) ≡ sum_counts m +ℤ n
unfolding sum_counts set get
sum-set_read k n [] g e = rw (e, zero-+ℤ n, +ℤ-zero n)
sum-set_read k n ((j, w) ∷ m) g e = elim (Bool-cases (str_eq j k)) [
  | inl same ↦ rw (e, same) (swap_last w n (sum_counts m))
  | inr other ↦
      rw other (
        ap (λ s. w +ℤ s) (sum-set_read k n m g (rw other at e)) ∙ sym (+ℤ_assoc w (sum_counts m) n))
]

pub sum-add_count :
    (k : String) (n : ℤ) (m : Dict ℤ) → sum_counts (add_count k n m) ≡ sum_counts m +ℤ n
unfolding add_count
sum-add_count k n m = sum-set_read k n m (get k m) refl
