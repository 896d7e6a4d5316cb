-- ===== src/Prelude/BitAt.antt =====
-- Single bits of a number.
use Prim.Native.Nat.{ℕ, zero, suc, ◌+◌, ◌*◌, ◌/◌, ◌%◌, ◌^◌, ◌≤◌, min, max, bit_and, bit_or}
use mathlib.Core.Path.{◌≡◌, refl, ap, ◌∙◌}
use mathlib.Core.Logic.{◌≢◌}
use native.Mathlib.Omega.{arith}
use native.Mathlib.Nat.{two-pow-succ}
use black_diamond_os.Prelude.Bits.{bit_and_step, bit_or_step, bit_and-1}

-- bit `k` of a number
abbrev pub bit : ℕ → ℕ → ℕ
bit zero n = n % 2
bit (suc k) n = bit k (n / 2)

-- `bit_and` and `bit_or` go bit by bit.
pub bit-bit_and : (k a b : ℕ) → bit k (bit_and a b) ≡ min (bit k a) (bit k b)
bit-bit_and zero a b = omega (arith, bit_and_step a b)
bit-bit_and (suc k) a b = ap (λ (c : ℕ). bit k c) (half a b) ∙ bit-bit_and k (a / 2) (b / 2)
  where
    half : (a b : ℕ) → bit_and a b / 2 ≡ bit_and (a / 2) (b / 2)
    half a b = omega (arith, bit_and_step a b)

pub bit-bit_or : (k a b : ℕ) → bit k (bit_or a b) ≡ max (bit k a) (bit k b)
bit-bit_or zero a b = omega (arith, bit_or_step a b)
bit-bit_or (suc k) a b = ap (λ (c : ℕ). bit k c) (half a b) ∙ bit-bit_or k (a / 2) (b / 2)
  where
    half : (a b : ℕ) → bit_or a b / 2 ≡ bit_or (a / 2) (b / 2)
    half a b = omega (arith, bit_or_step a b)

pub bit-le : (k n : ℕ) → bit k n ≤ 1
bit-le zero n = omega arith
bit-le (suc k) n = bit-le k (n / 2)

half_power : (j : ℕ) → 2 ^ suc j / 2 ≡ 2 ^ j
half_power j = omega (arith, two-pow-succ j)

bit-zero : (k : ℕ) → bit k 0 ≡ 0
bit-zero zero = refl
bit-zero (suc k) = bit-zero k

-- A power of two has one bit.
pub bit-power_same : (k : ℕ) → bit k (2 ^ k) ≡ 1
bit-power_same zero = refl
bit-power_same (suc k) = ap (λ (c : ℕ). bit k c) (half_power k) ∙ bit-power_same k

pub bit-power_other : (k j : ℕ) → k ≢ j → bit k (2 ^ j) ≡ 0
bit-power_other zero zero n = absurd (n refl)
bit-power_other zero (suc j) n = omega (arith, two-pow-succ j)
bit-power_other (suc k) zero n = bit-zero k
bit-power_other (suc k) (suc j) n =
    ap (λ (c : ℕ). bit k c) (half_power j) ∙ bit-power_other k j (λ e. n (ap (λ (c : ℕ). suc c) e))

double : (b c : ℕ) → b * (c + c) ≡ b * c * 2
double b c = grind arith

-- A test against a power of two tells the bit.
pub bit_and-power : (k a : ℕ) → bit_and a (2 ^ k) ≡ bit k a * 2 ^ k
bit_and-power zero a = omega (arith, bit_and-1 a)
bit_and-power (suc k) a = omega (
  arith,
  bit_and_step a (2 ^ suc k),
  ap (λ (c : ℕ). bit_and (a / 2) c) (half_power k),
  bit_and-power k (a / 2),
  two-pow-succ k,
  double (bit k (a / 2)) (2 ^ k),
  ap (λ (c : ℕ). bit k (a / 2) * c) (two-pow-succ k),
)
