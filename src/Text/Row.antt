-- ===== src/Text/Row.antt =====
-- A row of a glyph, kernel/video/text.c.
use black_diamond_os.Prelude.{
  ℕ, zero, suc, ◌+◌, ◌*◌, ◌/◌, ◌%◌, ◌^◌, ◌<◌, ◌≡◌, ◌≢◌, refl, sym, ap, ◌∙◌, inl, inr, Bool, true,
  false, Bool-cases, bit_and, ◌==◌, eq→eqb, ne→not_eqb, if◌then◌else◌, split_first, arith,
}
use black_diamond_os.Machine.{done, Memory, update}
use black_diamond_os.Video.Pixels.{store_pixel-done}
use black_diamond_os.Text.{
  Text, transparent, PsfHeader, header_at, load_font, resume, on_video, byte_offset, put_dot,
  put_glyph_row,
}

-- the text with other pixels
abbrev pub with_pixels : Text → Memory ℕ → Text
with_pixels s m = record s { video = record s.video { pixels = m } }

-- the active font
abbrev pub font_of : Text → PsfHeader
font_of s = header_at s.bytes s.active_font

-- what a pixel becomes that was `old`
abbrev pub shade : ℕ → ℕ → ℕ
shade colour old = if colour == transparent then old else colour

-- the colour for a bit of the glyph at `glyph`
abbrev pub ink : Text → ℕ → ℕ → ℕ → ℕ
ink s glyph i j =
    if bit_and (s.bytes (glyph + byte_offset (font_of s).width i j)) (0x80 / 2 ^ (j % 8)) == 0
    then s.background_colour
    else s.foreground_colour

pub load_font-done : (s : Text) → 0 < s.active_font → load_font s.active_font s ≡ done (font_of s) s
unfolding load_font
load_font-done s some_font = rw (ne→not_eqb s.active_font 0 (omega (arith, some_font)))

-- Between two memories: the pixel at `p` is shaded, and all others are the same.
abbrev Dotted : ℕ → ℕ → Memory ℕ → Memory ℕ → Type 0
Dotted colour p m m' = (m' p ≡ shade colour (m p)) × ((q : ℕ) → q ≢ p → m' q ≡ m q)

put_dot-Dotted :
    (p colour : ℕ) (s : Text)
    → 0 < p
    → (m : Memory ℕ) × (put_dot p colour s ≡ done tt (with_pixels s m))
      × Dotted colour p s.video.pixels m
unfolding put_dot on_video
put_dot-Dotted p colour s pos = elim (Bool-cases (colour == transparent)) [
  | inl clear ↦ (s.video.pixels, rw clear, (rw clear, λ q n. refl))
  | inr opaque ↦ (
    update s.video.pixels p colour,
    rw opaque (ap (resume s) (store_pixel-done p colour s.video pos)),
    (rw (opaque, eq→eqb p p refl), λ q n. rw (ne→not_eqb q p n)),
  )
]

-- Between two memories: `n` pixels from `p` on are shaded, by the colours from number `j` on, and
-- all others are the same.
pub record Row (colour : ℕ → ℕ) (p j n : ℕ) (m m' : Memory ℕ) : Type 0 where
  pub inked : (k : ℕ) → k < n → m' (p + 4 * k) ≡ shade (colour (j + k)) (m (p + 4 * k))
  pub kept : (q : ℕ) → ((k : ℕ) → k < n → q ≢ p + 4 * k) → m' q ≡ m q

-- a pixel at an equal address, with the colour of an equal number
pub shade_at :
    (colour : ℕ → ℕ) (m m' : Memory ℕ) (a b q r : ℕ)
    → a ≡ b
    → q ≡ r
    → m' q ≡ shade (colour a) (m q)
    → m' r ≡ shade (colour b) (m r)
shade_at colour m m' a b q r e f h = rw (sym e, sym f) h

Row-step :
    (colour : ℕ → ℕ) (p j n : ℕ) (m m₁ m' : Memory ℕ)
    → Dotted (colour j) p m m₁
    → Row colour (p + 4) (j + 1) n m₁ m'
    → Row colour p j (suc n) m m'
Row-step colour p j n m m₁ m' (dot, same) v = record {
  inked = λ k l. elim (split_first k n l) [
    | inl z ↦
        shade_at colour m m' j (j + k) p (p + 4 * k) (omega (arith, z)) (omega (arith, z))
          (v.kept p (λ k' l' e. omega (arith, e)) ∙ dot)
    | inr (k', z, l') ↦
        shade_at colour m m' (j + 1 + k') (j + k) (p + 4 + 4 * k') (p + 4 * k) (omega (arith, z))
          (omega (arith, z))
          (v.inked k' l'
            ∙ ap (λ (a : ℕ). shade (colour (j + 1 + k')) a)
                (same (p + 4 + 4 * k') (λ e. omega (arith, e))))
  ];
  kept = λ q n'.
      v.kept q (λ k l e. n' (k + 1) (omega (arith, l)) (omega (arith, e)))
      ∙ same q (λ e. n' 0 (omega arith) (omega (arith, e)));
}

put_either :
    (b : Bool) (p x y : ℕ) (s : Text)
    → (if b then put_dot p x else put_dot p y) s ≡ put_dot p (if b then x else y) s
put_either true p x y s = refl
put_either false p x y s = refl

pub put_glyph_row-Row :
    (n i j glyph p : ℕ) (s : Text)
    → 0 < s.active_font
    → 0 < p
    → (m : Memory ℕ) × (put_glyph_row n i j glyph p s ≡ done tt (with_pixels s m))
      × Row (ink s glyph i) p j n s.video.pixels m
unfolding put_glyph_row
put_glyph_row-Row zero i j glyph p s some_font pos =
    (s.video.pixels, refl, record { inked = λ k l. absurd (omega (arith, l)); kept = λ q n. refl })
put_glyph_row-Row (suc n) i j glyph p s some_font pos =
    let (m₁, runs₁, dot) = put_dot-Dotted p (ink s glyph i j) s pos in
    let (m, runs, v) =
      put_glyph_row-Row n i (j + 1) glyph (p + 4) (with_pixels s m₁) some_font (omega arith) in
    (
      m,
      rw (load_font-done s some_font, put_either, runs₁) runs,
      Row-step (ink s glyph i) p j n s.video.pixels m₁ m dot v,
    )
