-- ===== src/Prelude/BitTest.antt =====
-- Tests of single bits, as the code writes them.
use native.Mathlib.Nat.{one-le-pow}
use black_diamond_os.Prelude.{
  ℕ, ◌*◌, ◌^◌, ◌≤◌, ◌≡◌, Bool, true, false, not, refl, sym, ap, ◌∙◌, inl, inr, Bool-cases, ◌==◌,
  eqb→eq, not_eqb→ne, eq→eqb, ne→not_eqb, bit_and, arith,
}
use black_diamond_os.Prelude.BitAt.{bit, bit_and-power}

product_test : (b p : ℕ) → 1 ≤ p → (b * p == 0) ≡ (b == 0)
product_test b p pos = elim (Bool-cases (b == 0)) [
  | inl z ↦ eq→eqb (b * p) 0 (ap (λ (c : ℕ). c * p) (eqb→eq b 0 z) ∙ omega arith) ∙ sym z
  | inr n ↦ ne→not_eqb (b * p) 0 (some_product b p (omega (arith, not_eqb→ne b 0 n)) pos) ∙ sym n
]
  where
    some_product : (b p : ℕ) → 1 ≤ b → 1 ≤ p → b * p ≡ 0 → ⊥
    some_product b p l l' z = grind arith

-- the test of bit `k`
pub test-bit : (k a : ℕ) → (bit_and a (2 ^ k) == 0) ≡ (bit k a == 0)
test-bit k a =
    ap (λ (v : ℕ). v == 0) (bit_and-power k a)
    ∙ product_test (bit k a) (2 ^ k) (one-le-pow k 2 (omega arith))

not-false : (b : Bool) → not b ≡ false → b ≡ true
not-false true e = refl
not-false false e = sym e

-- `if (a & mask)` for a mask of one bit
pub bit-clear : (k a : ℕ) → not (bit_and a (2 ^ k) == 0) ≡ false → bit k a ≡ 0
bit-clear k a e = eqb→eq (bit k a) 0 (sym (test-bit k a) ∙ not-false _ e)

pub clear-bit : (k a : ℕ) → bit k a ≡ 0 → not (bit_and a (2 ^ k) == 0) ≡ false
clear-bit k a e = ap not (test-bit k a ∙ eq→eqb (bit k a) 0 e)
