-- ===== src/Prelude/Bits.antt =====
-- The bit operations of C on unsigned numbers as arithmetic.
use Prim.Native.Nat.{
  ℕ, zero, suc, ◌+◌, ◌-◌, ◌*◌, ◌/◌, ◌%◌, ◌^◌, ◌≤◌, ◌<◌, min, max, digits, bit_and, bit_or,
  bit_and-bitwise, bit_or-bitwise,
}
use mathlib.Core.Path.{◌≡◌, refl, ap, ◌∙◌}
use native.Mathlib.Omega.{arith}
use native.Mathlib.Nat.{one-le-pow, two-pow-succ}

-- Binary digits of `a` and `b` joined by `op`, where `rest` answers once `a` is used up; more
-- rounds than needed change nothing.
module _ (rest : ℕ → ℕ) (op : ℕ → ℕ → ℕ) where
  pub enough_rounds : (n m a b : ℕ) → a ≤ n → a ≤ m → digits rest op n a b ≡ digits rest op m a b
  enough_rounds zero zero a b p q = refl
  enough_rounds zero (suc m) zero b p q = refl
  enough_rounds zero (suc m) (suc a) b p q = absurd (omega (arith, p))
  enough_rounds (suc n) zero zero b p q = refl
  enough_rounds (suc n) zero (suc a) b p q = absurd (omega (arith, q))
  enough_rounds (suc n) (suc m) zero b p q = refl
  enough_rounds (suc n) (suc m) (suc a) b p q =
      omega (arith, enough_rounds n m (suc a / 2) (b / 2) (omega (arith, p)) (omega (arith, q)))

pub bit_or_step : (a b : ℕ) → bit_or a b ≡ bit_or (a / 2) (b / 2) * 2 + max (a % 2) (b % 2)
bit_or_step zero b = omega (arith, bit_or-bitwise 0 b, bit_or-bitwise 0 (b / 2))
bit_or_step (suc a) b = omega (
  arith,
  bit_or-bitwise (suc a) b,
  bit_or-bitwise (suc a / 2) (b / 2),
  enough_rounds (λ c. c) max a (suc a / 2) (suc a / 2) (b / 2) (omega arith) (omega arith),
)

pub bit_and_step : (a b : ℕ) → bit_and a b ≡ bit_and (a / 2) (b / 2) * 2 + min (a % 2) (b % 2)
bit_and_step zero b = omega (arith, bit_and-bitwise 0 b, bit_and-bitwise 0 (b / 2))
bit_and_step (suc a) b = omega (
  arith,
  bit_and-bitwise (suc a) b,
  bit_and-bitwise (suc a / 2) (b / 2),
  enough_rounds (λ c. 0) min a (suc a / 2) (suc a / 2) (b / 2) (omega arith) (omega arith),
)

or_zero_within : (n a : ℕ) → a ≤ n → bit_or a 0 ≡ a
or_zero_within n zero h = refl
or_zero_within zero (suc a) h = absurd (omega (arith, h))
or_zero_within (suc n) (suc a) h =
    omega (arith, bit_or_step (suc a) 0, or_zero_within n (suc a / 2) (omega (arith, h)))

and_zero_within : (n a : ℕ) → a ≤ n → bit_and a 0 ≡ 0
and_zero_within n zero h = refl
and_zero_within zero (suc a) h = absurd (omega (arith, h))
and_zero_within (suc n) (suc a) h =
    omega (arith, bit_and_step (suc a) 0, and_zero_within n (suc a / 2) (omega (arith, h)))

twice : (a c : ℕ) → a * (c + c) ≡ 2 * (a * c)
twice a c = grind arith

-- A number below `2 ^ k` joins a multiple of `2 ^ k`.
pub bit_or-shifted : (k a b : ℕ) → b < 2 ^ k → bit_or (a * 2 ^ k) b ≡ a * 2 ^ k + b
bit_or-shifted zero a zero h =
    ap (λ (c : ℕ). bit_or c 0) (omega arith) ∙ or_zero_within a a (omega arith) ∙ omega arith
bit_or-shifted zero a (suc b) h = absurd (omega (arith, h))
bit_or-shifted (suc k) a b h =
    let x = a * 2 ^ k in
    let double : a * 2 ^ suc k ≡ 2 * x = ap (λ (c : ℕ). a * c) (two-pow-succ k) ∙ twice a (2 ^ k) in
    let half : 2 * x / 2 ≡ x = omega arith in
    let low : b / 2 < 2 ^ k = omega (arith, h, two-pow-succ k) in
    rw double (
      omega (
        arith,
        bit_or_step (2 * x) b,
        ap (λ (c : ℕ). bit_or c (b / 2)) half,
        bit_or-shifted k a (b / 2) low,
      ))

-- A mask of `k` ones keeps a number below `2 ^ k`.
pub bit_and-within : (k a : ℕ) → a < 2 ^ k → bit_and a (2 ^ k - 1) ≡ a
bit_and-within zero zero h = refl
bit_and-within zero (suc a) h = absurd (omega (arith, h))
bit_and-within (suc k) a h =
    let some_power = one-le-pow k 2 (omega arith) in
    let double = two-pow-succ k in
    let half : (2 ^ suc k - 1) / 2 ≡ 2 ^ k - 1 = omega (arith, double, some_power) in
    let odd : (2 ^ suc k - 1) % 2 ≡ 1 = omega (arith, double, some_power) in
    let low : a / 2 < 2 ^ k = omega (arith, h, double) in
    omega (
      arith,
      bit_and_step a (2 ^ suc k - 1),
      ap (λ (c : ℕ). bit_and (a / 2) c) half,
      odd,
      bit_and-within k (a / 2) low,
    )

-- The masks of up to five ones keep a remainder.
pub bit_and-1 : (a : ℕ) → bit_and a 1 ≡ a % 2
bit_and-1 a = omega (arith, bit_and_step a 1, and_zero_within (a / 2) (a / 2) (omega arith))

pub bit_and-7 : (a : ℕ) → bit_and a 7 ≡ a % 8
bit_and-7 a = omega (arith, bit_and_step a 7, bit_and_step (a / 2) 3, bit_and-1 (a / 2 / 2))

pub bit_and-31 : (a : ℕ) → bit_and a 31 ≡ a % 32
bit_and-31 a = omega (arith, bit_and_step a 31, bit_and_step (a / 2) 15, bit_and-7 (a / 2 / 2))

-- The masks that clear the two, or the four, low bits of a 32-bit number.
pub bit_and-fffffffc : (a : ℕ) → a < 2 ^ 32 → bit_and a 0xFFFFFFFC ≡ a / 4 * 4
bit_and-fffffffc a h = omega (
  arith,
  bit_and_step a 0xFFFFFFFC,
  bit_and_step (a / 2) 0x7FFFFFFE,
  bit_and-within 30 (a / 2 / 2) (omega (arith, h)),
)

pub bit_and-fffffff0 : (a : ℕ) → a < 2 ^ 32 → bit_and a 0xFFFFFFF0 ≡ a / 16 * 16
bit_and-fffffff0 a h = omega (
  arith,
  bit_and_step a 0xFFFFFFF0,
  bit_and_step (a / 2) 0x7FFFFFF8,
  bit_and_step (a / 2 / 2) 0x3FFFFFFC,
  bit_and_step (a / 2 / 2 / 2) 0x1FFFFFFE,
  bit_and-within 28 (a / 2 / 2 / 2 / 2) (omega (arith, h)),
)
