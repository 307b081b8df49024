-- ===== src/Common/Bits.antt =====
-- `bit_and` with a mask of high ones, as JavaScript's `&` gives it on 32-bit values.
use Prim.Native.Nat.{
  ℕ, zero, suc, ◌+◌, ◌*◌, ◌/◌, ◌%◌, ◌^◌, ◌≤◌, ◌<◌, min, bit_and, digits, bit_and-bitwise,
}
use mathlib.Core.Path.{◌≡◌}
use native.Mathlib.Omega.{arith}

-- The conjunction by halving that `bit_and` stands for, cut off after `rounds`.
abbrev conjoin : ℕ → ℕ → ℕ → ℕ
conjoin rounds v w = digits (λ _. zero) min rounds v w

-- As many rounds as the first number are enough.
conjoin_enough :
    (bound rounds v w : ℕ) → rounds ≤ bound → v ≤ rounds → conjoin rounds v w ≡ bit_and v w
conjoin_enough bound zero zero w cap le = omega (arith, bit_and-bitwise 0 w)
conjoin_enough bound zero (suc v) w cap le = absurd (omega arith)
conjoin_enough bound (suc rounds) zero w cap le = omega (arith, bit_and-bitwise 0 w)
conjoin_enough zero (suc rounds) (suc v) w cap le = absurd (omega arith)
conjoin_enough (suc bound) (suc rounds) (suc v) w cap le =
    let outer = conjoin_enough bound rounds (suc v / 2) (w / 2) (omega arith) (omega arith) in
    let inner = conjoin_enough bound v (suc v / 2) (w / 2) (omega arith) (omega arith) in
    omega (arith, bit_and-bitwise (suc v) w, outer, inner)

-- One round.
bit_and_halves : (v w : ℕ) → bit_and v w ≡ bit_and (v / 2) (w / 2) * 2 + min (v % 2) (w % 2)
bit_and_halves zero w = omega (arith, bit_and-bitwise 0 w, bit_and-bitwise 0 (w / 2))
bit_and_halves (suc v) w =
    let rest = conjoin_enough v v (suc v / 2) (w / 2) (omega arith) (omega arith) in
    omega (arith, bit_and-bitwise (suc v) w, rest)

-- `j` ones, then `k` zeros.
abbrev ones : ℕ → ℕ
ones zero = 0
ones (suc j) = ones j * 2 + 1

abbrev pub mask : ℕ → ℕ → ℕ
mask zero j = ones j
mask (suc k) j = mask k j * 2

abbrev halve : ℕ → ℕ → ℕ
halve zero a = a
halve (suc k) a = halve k (a / 2)

abbrev double : ℕ → ℕ → ℕ
double zero a = a
double (suc k) a = double k a * 2

bit_and-ones : (j a : ℕ) → a ≤ ones j → bit_and a (ones j) ≡ a
bit_and-ones zero zero h = bit_and-bitwise 0 0
bit_and-ones zero (suc a) h = absurd (omega arith)
bit_and-ones (suc j) a h =
    let rest = bit_and-ones j (a / 2) (omega arith) in
    let step = bit_and_halves a (ones j * 2 + 1) in
    let half : (ones j * 2 + 1) / 2 ≡ ones j = omega arith in omega (arith, rw half at step, rest)

bit_and-mask_halves : (k j a : ℕ) → halve k a ≤ ones j → bit_and a (mask k j) ≡ double k (halve k a)
bit_and-mask_halves zero j a h = bit_and-ones j a h
bit_and-mask_halves (suc k) j a h =
    let rest = bit_and-mask_halves k j (a / 2) h in
    let step = bit_and_halves a (mask k j * 2) in
    let half : mask k j * 2 / 2 ≡ mask k j = omega arith in omega (arith, rw half at step, rest)

pub bit_and-mask4 : (a : ℕ) → a < 2 ^ 32 → bit_and a (mask 28 4) ≡ a / 2 ^ 28 * 2 ^ 28
bit_and-mask4 a h = omega (arith, bit_and-mask_halves 28 4 a (omega arith))

pub bit_and-mask8 : (a : ℕ) → a < 2 ^ 32 → bit_and a (mask 24 8) ≡ a / 2 ^ 24 * 2 ^ 24
bit_and-mask8 a h = omega (arith, bit_and-mask_halves 24 8 a (omega arith))

pub bit_and-mask10 : (a : ℕ) → a < 2 ^ 32 → bit_and a (mask 22 10) ≡ a / 2 ^ 22 * 2 ^ 22
bit_and-mask10 a h = omega (arith, bit_and-mask_halves 22 10 a (omega arith))

pub bit_and-mask12 : (a : ℕ) → a < 2 ^ 32 → bit_and a (mask 20 12) ≡ a / 2 ^ 20 * 2 ^ 20
bit_and-mask12 a h = omega (arith, bit_and-mask_halves 20 12 a (omega arith))

pub bit_and-mask16 : (a : ℕ) → a < 2 ^ 32 → bit_and a (mask 16 16) ≡ a / 2 ^ 16 * 2 ^ 16
bit_and-mask16 a h = omega (arith, bit_and-mask_halves 16 16 a (omega arith))

pub bit_and-hextet10 : (a : ℕ) → a < 2 ^ 16 → bit_and a (mask 6 10) ≡ a / 2 ^ 6 * 2 ^ 6
bit_and-hextet10 a h = omega (arith, bit_and-mask_halves 6 10 a (omega arith))

pub bit_and-hextet7 : (a : ℕ) → a < 2 ^ 16 → bit_and a (mask 9 7) ≡ a / 2 ^ 9 * 2 ^ 9
bit_and-hextet7 a h = omega (arith, bit_and-mask_halves 9 7 a (omega arith))
