-- ===== src/Prelude/Rows.antt =====
-- Numbers laid out in rows of a width.
use Prim.Native.Nat.{ℕ, ◌+◌, ◌*◌, ◌/◌, ◌%◌, ◌≤◌, ◌<◌}
use mathlib.Core.Path.{◌≡◌}
use native.Mathlib.Omega.{arith}

pub column : (n row col : ℕ) → col < n → (row * n + col) % n ≡ col
column n row col l = grind arith

pub row_of : (n row col : ℕ) → col < n → (row * n + col) / n ≡ row
row_of n row col l = grind arith

pub next_rows : (row n : ℕ) → (row + 1) * n ≡ row * n + n
next_rows row n = grind arith

pub columns_le : (a b n : ℕ) → a ≤ b → a * n ≤ b * n
columns_le a b n h = grind arith
