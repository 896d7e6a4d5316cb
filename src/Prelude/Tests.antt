-- ===== src/Prelude/Tests.antt =====
-- The comparisons of C on unsigned numbers, and its conditional.
use Prim.Native.Nat.{ℕ, zero, suc, ◌+◌, ◌≤◌, ◌<◌, compare, Ordering}
use mathlib.Core.Path.{◌≡◌, refl}
use mathlib.Core.Logic.{◌≢◌, ◌⊎◌, inl, inr}
use mathlib.Core.Bool.{Bool, true, false, false≢true}
use native.Mathlib.Omega.{arith}

abbrev pub ltb : ℕ → ℕ → Bool
ltb a b = elim (compare a b) [ Ordering.lt ↦ true | _ ↦ false ]

abbrev pub leb : ℕ → ℕ → Bool
leb a b = elim (compare a b) [ Ordering.gt ↦ false | _ ↦ true ]

infix 50 ◌==◌
abbrev pub ◌==◌ : ℕ → ℕ → Bool
a == b = elim (compare a b) [ Ordering.eq ↦ true | _ ↦ false ]

infix 1 if◌then◌else◌
abbrev pub if◌then◌else◌ {ℓ} : {A : Type ℓ} → Bool → A → A → A
if true then x else y = x
if false then x else y = y

pub ltb→lt : (a b : ℕ) → ltb a b ≡ true → a < b
ltb→lt a b h = ground arith

pub lt→ltb : (a b : ℕ) → a < b → ltb a b ≡ true
lt→ltb a b h = ground arith

pub not_ltb→le : (a b : ℕ) → ltb a b ≡ false → b ≤ a
not_ltb→le a b h = ground arith

pub le→not_ltb : (a b : ℕ) → b ≤ a → ltb a b ≡ false
le→not_ltb a b h = ground arith

pub eqb→eq : (a b : ℕ) → (a == b) ≡ true → a ≡ b
eqb→eq a b h = ground arith

pub eq→eqb : (a b : ℕ) → a ≡ b → (a == b) ≡ true
eq→eqb a b h = ground arith

pub not_eqb→ne : (a b : ℕ) → (a == b) ≡ false → a ≢ b
not_eqb→ne a b h = ground arith

pub ne→not_eqb : (a b : ℕ) → a ≢ b → (a == b) ≡ false
ne→not_eqb a b h = ground arith

pub le→leb : (a b : ℕ) → a ≤ b → leb a b ≡ true
le→leb a b h = ground arith

pub lt→not_leb : (a b : ℕ) → b < a → leb a b ≡ false
lt→not_leb a b h = ground arith

-- To split on a computed test and keep the equation.
pub Bool-cases : (b : Bool) → (b ≡ true) ⊎ (b ≡ false)
Bool-cases true = inl refl
Bool-cases false = inr refl

pub ruleset tests =
    (arith, ltb→lt, lt→ltb, not_ltb→le, le→not_ltb, eqb→eq, eq→eqb, not_eqb→ne, ne→not_eqb)

-- an index below a successor is the first, or one more than an index
pub split_first : (k n : ℕ) → k < suc n → (k ≡ 0) ⊎ ((k' : ℕ) × (k ≡ k' + 1) × (k' < n))
split_first zero n l = inl refl
split_first (suc k) n l = inr (k, omega arith, omega (arith, l))

-- a test of all numbers below a bound
abbrev pub every : ℕ → (ℕ → Bool) → Bool
every zero t = true
every (suc n) t = if t n then every n t else false

pub every-holds : (n : ℕ) (t : ℕ → Bool) (k : ℕ) → every n t ≡ true → k < n → t k ≡ true
every-holds zero t k h l = absurd (omega (arith, l))
every-holds (suc n) t k h l = elim (Bool-cases (t n)) [
  | inl e ↦ elim (Bool-cases (k == n)) [
    | inl same ↦ rw (eqb→eq k n same) e
    | inr other ↦ every-holds n t k (rw e at h) (omega (arith, l, not_eqb→ne k n other))
  ]
  | inr e ↦ absurd (false≢true (rw e at h))
]
