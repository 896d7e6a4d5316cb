-- ===== src/Prelude/Lists.antt =====
-- Lists measured by native numbers, under the library's names.
use Prim.Native.Nat.{ℕ, suc, ◌+◌}
use mathlib.Core.Path.{◌≡◌}
use mathlib.Core.List.{List, [], ◌∷◌, ◌++◌}
use native.Mathlib.Omega.{arith}

module _ {ℓ} {A : Type ℓ} where
  abbrev pub length : List A → ℕ
  length [] = 0
  length (_ ∷ xs) = suc (length xs)

  pub length-append : (xs ys : List A) → length (xs ++ ys) ≡ length xs + length ys
  length-append [] ys = omega arith
  length-append (_ ∷ xs) ys = omega (arith, length-append xs ys)
