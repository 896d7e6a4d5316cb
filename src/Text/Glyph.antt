-- ===== src/Text/Glyph.antt =====
-- `put_char` of kernel/video/text.c: it draws the bits of the glyph and nothing else.
use black_diamond_os.Prelude.{
  ℕ, zero, suc, ◌+◌, ◌*◌, ◌^◌, ◌<◌, ◌≤◌, ◌≡◌, ◌≢◌, refl, ap, ◌∙◌, subst, inl, inr, split_first,
  arith,
}
use black_diamond_os.Machine.{done, Memory}
use black_diamond_os.Video.{pixel_at}
use black_diamond_os.Video.Rectangle.{InRectangle}
use black_diamond_os.Text.{Text, line_gap, put_glyph_rows, glyph_at, put_char}
use black_diamond_os.Text.Row.{
  with_pixels, font_of, shade, ink, Row, shade_at, put_glyph_row-Row, load_font-done,
}

-- Between two memories: `n` lines of `width` pixels are shaded, by the colours from line `i` on, and
-- all others are the same.
pub record Lines (colour : ℕ → ℕ → ℕ) (p line width i n : ℕ) (m m' : Memory ℕ) : Type 0 where
  pub inked :
      (r k : ℕ)
      → r < n
      → k < width
      → m' (p + 4 * (r * line + k)) ≡ shade (colour (i + r) k) (m (p + 4 * (r * line + k)))
  pub kept : (q : ℕ) → ¬ InRectangle p line width n q → m' q ≡ m q

next_line :
    (p line r r' k : ℕ) → r ≡ r' + 1 → p + 4 * line + 4 * (r' * line + k) ≡ p + 4 * (r * line + k)
next_line p line r r' k z = rw z (grind arith)

first_line : (p line r k : ℕ) → r ≡ 0 → p + 4 * k ≡ p + 4 * (r * line + k)
first_line p line r k z = rw z (omega arith)

below_row : (a line k k' : ℕ) → k' < line → a * line + line + k ≢ k'
below_row a line k k' l e = grind arith

Lines-step :
    (colour : ℕ → ℕ → ℕ) (p line width i n : ℕ) (m m₁ m' : Memory ℕ)
    → width ≤ line
    → Row (colour i) p 0 width m m₁
    → Lines colour (p + 4 * line) line width (i + 1) n m₁ m'
    → Lines colour p line width i (suc n) m m'
Lines-step colour p line width i n m m₁ m' narrow row v = record {
  inked = λ r k l l'. elim (split_first r n l) [
    | inl z ↦
        shade_at (λ a. colour a k) m m' i (i + r) (p + 4 * k) (p + 4 * (r * line + k))
          (omega (arith, z)) (first_line p line r k z)
          (v.kept (p + 4 * k) (λ (a, k', b, l'', e).
              below_row a line k' k (omega (arith, l', narrow)) (omega (arith, e)))
            ∙ subst (λ (a : ℕ). m₁ (p + 4 * k) ≡ shade (colour i a) (m (p + 4 * k))) (omega arith)
                (row.inked k l'))
    | inr (r', z, b) ↦
        shade_at (λ a. colour a k) m m' (i + 1 + r') (i + r) (p + 4 * line + 4 * (r' * line + k))
          (p + 4 * (r * line + k)) (omega (arith, z)) (next_line p line r r' k z)
          (v.inked r' k b l'
            ∙ ap (λ (a : ℕ). shade (colour (i + 1 + r') k) a)
                (row.kept (p + 4 * line + 4 * (r' * line + k)) (λ k' l'' e.
                  below_row r' line k k' (omega (arith, l'', narrow)) (omega (arith, e)))))
  ];
  kept = λ q out.
      v.kept q (λ (r, k, b, l, e).
        out (r + 1, k, omega (arith, b), l, e ∙ next_line p line (r + 1) r k refl))
      ∙ row.kept q (λ k l e. out (0, k, omega arith, l, e ∙ first_line p line 0 k refl));
}

-- With a font no wider than the buffer, the target moves by a line of the buffer.
line_gap-exact :
    (line width p : ℕ)
    → width ≤ line
    → line < 2 ^ 32
    → p + 4 * width + 4 * line_gap line width ≡ p + 4 * line
line_gap-exact line width p narrow small = omega (arith, narrow, small)

put_glyph_rows-Lines :
    (n i glyph p : ℕ) (s : Text)
    → 0 < s.active_font
    → 0 < p
    → (font_of s).width ≤ s.video.active_buffer.pixel_width
    → s.video.active_buffer.pixel_width < 2 ^ 32
    → (m : Memory ℕ) × (put_glyph_rows n i glyph p s ≡ done tt (with_pixels s m))
      × Lines
          (ink s glyph)
          p
          s.video.active_buffer.pixel_width
          (font_of s).width
          i
          n
          s.video.pixels
          m
unfolding put_glyph_rows
put_glyph_rows-Lines zero i glyph p s some_font pos narrow small = (
  s.video.pixels,
  refl,
  record { inked = λ r k l l'. absurd (omega (arith, l)); kept = λ q n. refl },
)
put_glyph_rows-Lines (suc n) i glyph p s some_font pos narrow small =
    let line = s.video.active_buffer.pixel_width in
    let width = (font_of s).width in
    let (m₁, runs₁, row) = put_glyph_row-Row width i 0 glyph p s some_font pos in
    let (m, runs, v) =
      put_glyph_rows-Lines n (i + 1) glyph (p + 4 * line) (with_pixels s m₁) some_font
        (omega (arith, pos)) narrow small in
    (
      m,
      rw (load_font-done s some_font, runs₁, line_gap-exact line width p narrow small) runs,
      Lines-step (ink s glyph) p line width i n s.video.pixels m₁ m narrow row v,
    )

-- `put_char` draws the bits that the code reads.
pub put_char-ink :
    (c x y : ℕ) (s : Text)
    → 0 < s.active_font
    → 0 < s.video.active_buffer.address
    → (font_of s).width ≤ s.video.active_buffer.pixel_width
    → s.video.active_buffer.pixel_width < 2 ^ 16
    → (m : Memory ℕ) × (put_char c x y s ≡ done tt (with_pixels s m))
      × Lines
          (ink s (glyph_at s.active_font (font_of s) c))
          (pixel_at s.video.active_buffer x y)
          s.video.active_buffer.pixel_width
          (font_of s).width
          0
          (font_of s).height
          s.video.pixels
          m
unfolding put_char
put_char-ink c x y s some_font pos narrow small = rw (load_font-done s some_font) (
    put_glyph_rows-Lines (font_of s).height 0 (glyph_at s.active_font (font_of s) c)
      (pixel_at s.video.active_buffer x y) s some_font (omega (arith, pos)) narrow
      (omega (arith, small)))
