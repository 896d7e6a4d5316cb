-- ===== src/Text/Cursor.antt =====
-- The cursor of `put_str`, kernel/video/text.c: columns and rows.
use black_diamond_os.Prelude.{
  next_rows, columns_le, ℕ, ◌+◌, ◌*◌, ◌/◌, ◌^◌, ◌<◌, ◌≤◌, ◌≡◌, inl, inr, true, false, Bool-cases,
  ltb, le→leb, lt→not_leb, ltb→lt, not_ltb→le, u16, arith,
}
use black_diamond_os.Text.{line_is_full}

-- The first column whose character would leave no room for another in `width` pixels.
pub record FillsRow (x font_width width per_row : ℕ) : Type 0 where
  pub some_column : 0 < per_row
  pub room : (j : ℕ) → 0 < j → j < per_row → x + j * (font_width + 1) + font_width < width
  pub full : width ≤ x + per_row * (font_width + 1) + font_width
  pub small : x + per_row * (font_width + 1) + font_width < 2 ^ 16

pub next_column : (x col step : ℕ) → x + col * step + step ≡ x + (col + 1) * step
next_column x col step = grind arith

pub row_bound : (row rows n t : ℕ) → row * n + t < (rows + 1) * n → row ≤ rows
row_bound row rows n t h = elim (Bool-cases (ltb rows row)) [
  | inl e ↦
      (let past = columns_le (rows + 1) row n (omega (arith, ltb→lt rows row e)) in
        absurd (omega (arith, past, h)))
  | inr e ↦ not_ltb→le rows row e
]

-- where the cursor goes behind column `col`, and whether the row ends there
pub cursor_at :
    (x font_width width per_row col : ℕ)
    → FillsRow x font_width width per_row
    → col < per_row
    → u16 (x + col * (font_width + 1) + font_width + 1) ≡ x + (col + 1) * (font_width + 1)
cursor_at x font_width width per_row col f l =
    let step = font_width + 1 in
    let here = next_column x col step in
    let most = columns_le (col + 1) per_row step (omega (arith, l)) in
    omega (arith, here, most, f.small)

pub not_full :
    (x font_width width per_row col : ℕ)
    → FillsRow x font_width width per_row
    → col + 1 < per_row
    → line_is_full (x + (col + 1) * (font_width + 1)) font_width width ≡ false
not_full x font_width width per_row col f l =
    let most = columns_le (col + 1) per_row (font_width + 1) (omega (arith, l)) in
    let free = f.room (col + 1) (omega arith) l in
    lt→not_leb width _ (omega (arith, free, most, f.small))

pub is_full :
    (x font_width width per_row : ℕ)
    → FillsRow x font_width width per_row
    → line_is_full (x + per_row * (font_width + 1)) font_width width ≡ true
is_full x font_width width per_row f = le→leb width _ (omega (arith, f.small, f.full))

pub next_row :
    (row rows per_row tall y n : ℕ)
    → (row + 1) * per_row + n < (rows + 1) * per_row
    → y + rows * tall < 2 ^ 16
    → u16 (y + row * tall + tall) ≡ y + (row + 1) * tall
next_row row rows per_row tall y n below high =
    let most = columns_le (row + 1) rows tall (row_bound (row + 1) rows per_row n below) in
    let here = next_rows row tall in omega (arith, most, here, high)

pub row_end :
    (k row col per_row : ℕ)
    → k ≡ row * per_row + col
    → col + 1 ≡ per_row
    → k + 1 ≡ (row + 1) * per_row + 0
row_end k row col per_row at e = omega (arith, at, e, next_rows row per_row)

pub in_last_row : (n per_row : ℕ) → 0 < per_row → n < (n / per_row + 1) * per_row
in_last_row n per_row some_column = grind arith
