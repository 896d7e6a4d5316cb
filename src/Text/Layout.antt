-- ===== src/Text/Layout.antt =====
-- `put_str` of kernel/video/text.c: where it draws the characters of a string.
use black_diamond_os.Prelude.{
  column, row_of, ℕ, zero, suc, ◌+◌, ◌*◌, ◌/◌, ◌%◌, ◌^◌, ◌<◌, ◌≤◌, ◌≡◌, ◌≢◌, refl, sym, ap, ◌∙◌,
  subst, inl, inr, true, false, Bool-cases, ◌==◌, eq→eqb, ne→not_eqb, eqb→eq, not_eqb→ne, u16,
  arith,
}
use black_diamond_os.Machine.{done, Proc, Memory, pure, get, ◌>>=◌, ◌>>◌}
use black_diamond_os.Text.{Text, put_char, put_chars, put_str, line_is_full}
use black_diamond_os.Text.Row.{with_pixels, font_of, load_font-done}
use black_diamond_os.Text.Glyph.{put_char-ink}
use black_diamond_os.Text.Cursor.{
  FillsRow, cursor_at, not_full, is_full, next_row, row_end, in_last_row,
}

-- the `n` characters from number `k` on, in rows of `per_row`, on a grid of `step` by `leading`
-- pixels
abbrev pub draw_grid : ℕ → ℕ → ℕ → ℕ → ℕ → ℕ → ℕ → ℕ → Proc Text (Unit {0})
draw_grid zero k str x y per_row step leading = pure tt
draw_grid (suc n) k str x y per_row step leading = do
  s ← get
  put_char (s.bytes (str + k)) (x + k % per_row * step) (y + k / per_row * leading)
  draw_grid n (k + 1) str x y per_row step leading

-- There is a font that the active buffer is wide enough for.
pub record IsLegible (s : Text) : Type 0 where
  pub some_font : 0 < s.active_font
  pub some_buffer : 0 < s.video.active_buffer.address
  pub narrow : (font_of s).width ≤ s.video.active_buffer.pixel_width
  pub small : s.video.active_buffer.pixel_width < 2 ^ 16

put_chars_end :
    (fuel p x cursor y width : ℕ) (s : Text)
    → s.bytes p ≡ 0
    → put_chars (suc fuel) p x cursor y width s ≡ done tt s
unfolding put_chars
put_chars_end fuel p x cursor y width s ends = rw (eq→eqb (s.bytes p) 0 ends)

module _ (fuel p p' x cursor next y width : ℕ) (s : Text) (m : Memory ℕ) where
  -- the character at `p` leaves room in its row
  put_chars_on :
      s.bytes p ≢ 0
      → 0 < s.active_font
      → put_char (s.bytes p) cursor y s ≡ done tt (with_pixels s m)
      → p + 1 ≡ p'
      → u16 (cursor + (font_of s).width + 1) ≡ next
      → line_is_full next (font_of s).width width ≡ false
      → put_chars (suc fuel) p x cursor y width s
        ≡ put_chars fuel p' x next y width (with_pixels s m)
  unfolding put_chars
  put_chars_on some_char some_font runs after step room =
      rw (ne→not_eqb (s.bytes p) 0 some_char, runs)
        (rw (load_font-done (with_pixels s m) some_font, step, room, after))

  -- the character at `p` ends its row
  put_chars_wrap :
      (x' y' : ℕ)
      → s.bytes p ≢ 0
      → 0 < s.active_font
      → put_char (s.bytes p) cursor y s ≡ done tt (with_pixels s m)
      → p + 1 ≡ p'
      → u16 (cursor + (font_of s).width + 1) ≡ next
      → line_is_full next (font_of s).width width ≡ true
      → x ≡ x'
      → u16 (y + (font_of s).height) ≡ y'
      → put_chars (suc fuel) p x cursor y width s
        ≡ put_chars fuel p' x x' y' width (with_pixels s m)
  unfolding put_chars
  put_chars_wrap x' y' some_char some_font runs after step full left below =
      rw (ne→not_eqb (s.bytes p) 0 some_char, runs)
        (rw (load_font-done (with_pixels s m) some_font, step, full, after)
          (rw below (ap (λ (a : ℕ). put_chars fuel p' x a y' width (with_pixels s m)) left)))

draw_grid_one :
    (n k str x y row col per_row step leading : ℕ) (s t : Text)
    → col < per_row
    → k ≡ row * per_row + col
    → put_char (s.bytes (str + k)) (x + col * step) (y + row * leading) s ≡ done tt t
    → draw_grid (suc n) k str x y per_row step leading s
      ≡ draw_grid n (k + 1) str x y per_row step leading t
draw_grid_one n k str x y row col per_row step leading s t l at runs =
    let there : k % per_row ≡ col = ap (λ (a : ℕ). a % per_row) at ∙ column per_row row col l in
    let line : k / per_row ≡ row = ap (λ (a : ℕ). a / per_row) at ∙ row_of per_row row col l in
    rw (there, line, runs)

-- A string from its character `k` on, with `n` characters left.
record Rest (s : Text) (str k n rows per_row : ℕ) : Type 0 where
  inside : (j : ℕ) → j < n → s.bytes (str + k + j) ≢ 0
  ends : s.bytes (str + k + n) ≡ 0
  below : k + n < (rows + 1) * per_row

Rest-next :
    (s : Text) (m : Memory ℕ) (str k n rows per_row : ℕ)
    → Rest s str k (suc n) rows per_row
    → Rest (with_pixels s m) str (k + 1) n rows per_row
Rest-next s m str k n rows per_row v = record {
  inside =
      λ j l. subst (λ (a : ℕ). s.bytes a ≢ 0) (omega arith) (v.inside (j + 1) (omega (arith, l)));
  ends = subst (λ (a : ℕ). s.bytes a ≡ 0) (omega arith) v.ends;
  below = omega (arith, v.below);
}

put_chars-Grid :
    (fuel n row rows col k str x y per_row width : ℕ) (s : Text)
    → IsLegible s
    → FillsRow x (font_of s).width width per_row
    → y + rows * (font_of s).height < 2 ^ 16
    → k ≡ row * per_row + col
    → col < per_row
    → Rest s str k n rows per_row
    → n < fuel
    → (m : Memory ℕ) × (put_chars fuel
          (str + k)
          x
          (x + col * ((font_of s).width + 1))
          (y + row * (font_of s).height)
          width
          s
        ≡ done tt (with_pixels s m))
      × (draw_grid n k str x y per_row ((font_of s).width + 1) (font_of s).height s
          ≡ done tt (with_pixels s m))
put_chars-Grid zero n row rows col k str x y per_row width s f fills high at l rest enough =
    absurd (omega (arith, enough))
put_chars-Grid (suc fuel) zero row rows col k str x y per_row width s f fills high at l rest
      enough =
    (
      s.video.pixels,
      put_chars_end fuel (str + k) x _ _ width s
          (subst (λ (a : ℕ). s.bytes a ≡ 0) (omega arith) rest.ends),
      refl,
    )
put_chars-Grid (suc fuel) (suc n) row rows col k str x y per_row width s f fills high at l rest
      enough =
    let w = (font_of s).width in
    let tall = (font_of s).height in
    let cursor = x + col * (w + 1) in
    let line = y + row * tall in
    let (m₁, runs₁, _) =
      put_char-ink (s.bytes (str + k)) cursor line s f.some_font f.some_buffer f.narrow f.small in
    let s₁ = with_pixels s m₁ in
    let f₁ : IsLegible s₁ = record {
      some_font = f.some_font;
      some_buffer = f.some_buffer;
      narrow = f.narrow;
      small = f.small;
    } in
    let char : s.bytes (str + k) ≢ 0 =
      subst (λ (a : ℕ). s.bytes a ≢ 0) (omega arith) (rest.inside 0 (omega arith)) in
    let after : str + k + 1 ≡ str + (k + 1) = omega arith in
    let rest₁ = Rest-next s m₁ str k n rows per_row rest in
    let grid₁ = draw_grid_one n k str x y row col per_row (w + 1) tall s s₁ l at runs₁ in
    let step = cursor_at x w width per_row col fills l in
    elim (Bool-cases (col + 1 == per_row)) [
      | inl last ↦
          let e = eqb→eq (col + 1) per_row last in
          let full =
            subst (λ (a : ℕ). line_is_full (x + a * (w + 1)) w width ≡ true) (sym e)
              (is_full x w width per_row fills) in
          let at' = row_end k row col per_row at e in
          let below = subst (λ (a : ℕ). a + n < (rows + 1) * per_row) at' rest₁.below in
          let (m, runs, grid) =
            put_chars-Grid fuel n (row + 1) rows 0 (k + 1) str x y per_row width s₁ f₁ fills high
              at' fills.some_column rest₁ (omega (arith, enough)) in
          (
            m,
            put_chars_wrap fuel (str + k) (str + (k + 1)) x cursor (x + (col + 1) * (w + 1)) line
                  width s m₁ (x + 0 * (w + 1)) (y + (row + 1) * tall) char f.some_font runs₁ after
                  step full (omega arith)
                  (next_row row rows per_row tall y n (omega (arith, below)) high)
                ∙ runs,
            grid₁ ∙ grid,
          )
      | inr more ↦
          let l' : col + 1 < per_row = omega (arith, l, not_eqb→ne (col + 1) per_row more) in
          let (m, runs, grid) =
            put_chars-Grid fuel n row rows (col + 1) (k + 1) str x y per_row width s₁ f₁ fills high
              (omega (arith, at)) l' rest₁ (omega (arith, enough)) in
          (
            m,
            put_chars_on fuel (str + k) (str + (k + 1)) x cursor (x + (col + 1) * (w + 1)) line
                  width s m₁ char f.some_font runs₁ after step
                  (not_full x w width per_row col fills l')
                ∙ runs,
            grid₁ ∙ grid,
          )
    ]

put_chars_from :
    (fuel p p' x cursor cursor' y y' width : ℕ) (s : Text)
    → p ≡ p'
    → cursor ≡ cursor'
    → y ≡ y'
    → put_chars fuel p x cursor y width s ≡ put_chars fuel p' x cursor' y' width s
put_chars_from fuel p p' x cursor cursor' y y' width s e f g = rw e (
    ap (λ (c : ℕ). put_chars fuel p' x c y width s) f
    ∙ ap (λ (b : ℕ). put_chars fuel p' x cursor' b width s) g)

-- `put_str` of a string of `n` characters, with a font and an active buffer that are not at null, the
-- font no wider than the buffer and the buffer's width of 16 bits, at a cursor whose row takes
-- `per_row` characters (`FillsRow`), with fuel above `n`, where neither coordinate passes 16 bits,
-- ends, and does exactly what drawing its characters one after another in a grid does: character `k`
-- in column `k % per_row` and row `k / per_row`, one pixel apart in a row. Only pixels change.
pub put_str-draw_grid :
    (fuel n str x y per_row width : ℕ) (s : Text)
    → IsLegible s
    → FillsRow x (font_of s).width width per_row
    → y + n / per_row * (font_of s).height < 2 ^ 16
    → ((j : ℕ) → j < n → s.bytes (str + j) ≢ 0)
    → s.bytes (str + n) ≡ 0
    → n < fuel
    → (m : Memory ℕ) × (put_str fuel str x y width s ≡ done tt (with_pixels s m))
      × (draw_grid n 0 str x y per_row ((font_of s).width + 1) (font_of s).height s
          ≡ done tt (with_pixels s m))
unfolding put_str
put_str-draw_grid fuel n str x y per_row width s f fills high inside ends enough =
    let (m, runs, grid) =
      put_chars-Grid fuel n 0 (n / per_row) 0 0 str x y per_row width s f fills high (omega arith)
        fills.some_column
        (record {
          inside = λ j l. subst (λ (a : ℕ). s.bytes a ≢ 0) (omega arith) (inside j l);
          ends = subst (λ (a : ℕ). s.bytes a ≡ 0) (omega arith) ends;
          below = omega (arith, in_last_row n per_row fills.some_column);
        })
        enough in
    (
      m,
      put_chars_from fuel str (str + 0) x x (x + 0 * ((font_of s).width + 1)) y
            (y + 0 * (font_of s).height) width s (omega arith) (omega arith) (omega arith)
          ∙ runs,
      grid,
    )
