-- ===== src/Video/Sampled.antt =====
-- What `scale_buffer` of kernel/video/processing.c draws, whatever its floating-point numbers are.
use black_diamond_os.Prelude.{
  ℕ, zero, suc, ◌+◌, ◌^◌, ◌<◌, ◌≤◌, ◌≡◌, refl, sym, ◌∙◌, ◌⊎◌, subst, inl, inr, Bool-cases, ◌==◌,
  eqb→eq, not_eqb→ne, eq→eqb, ne→not_eqb, arith,
}
use black_diamond_os.Machine.{done, Memory, update}
use black_diamond_os.Video.{Video, Framebuffer, pixel_at}
use black_diamond_os.Video.Pixels.{load_pixel-done, store_pixel-done}
use black_diamond_os.Video.Clip.{IsPixel}
use black_diamond_os.Video.Scale.{sampled_x, sampled_y, scale_row, scale_rows, scale_buffer}
use black_diamond_os.Targa.Plots.{Plots, AtPlace, AtPlace-unique, nothing-Plots, Plots-then}

first_or_after : (a x : ℕ) → a ≤ x → (x ≡ a) ⊎ (a + 1 ≤ x)
first_or_after a x l = elim (Bool-cases (x == a)) [
  | inl e ↦ inl (eqb→eq x a e)
  | inr n ↦ inr (omega (arith, l, not_eqb→ne x a n))
]

module _ (sample : ℕ → ℕ → ℕ → ℕ) (dest src : Framebuffer) where
  -- the pixel of the source for a pixel of the destination
  abbrev pub sampled_at : ℕ → ℕ → ℕ
  sampled_at x y = pixel_at src (sampled_x sample dest src x) (sampled_y sample dest src y)

  -- the places of the line `y` from the column `x` on, with the colours that the source has in `m`
  abbrev InRow : Memory ℕ → ℕ → ℕ → ℕ → ℕ → Type 0
  InRow m x₀ y q c = (x : ℕ) × (x₀ ≤ x) × AtPlace dest x y (m (sampled_at x y)) q c

  -- the places from the line `y` on
  abbrev InRows : Memory ℕ → ℕ → ℕ → ℕ → Type 0
  InRows m y₀ q c = (y : ℕ) × (y₀ ≤ y) × InRow m 0 y q c

  -- all places of the destination, with the colours that the source has in `m`
  abbrev pub Scaled : Memory ℕ → ℕ → ℕ → Type 0
  Scaled m q c = (x : ℕ) × (y : ℕ) × AtPlace dest x y (m (sampled_at x y)) q c

  -- `m'` has the source as it is in `m`
  abbrev SameSource : Memory ℕ → Memory ℕ → Type 0
  SameSource m m' = (q : ℕ) → IsPixel src q → m' q ≡ m q

  module _ (wide : 0 < src.pixel_width) (tall : src.pixel_width ≤ src.pixel_height)
      (small : src.pixel_width < 2 ^ 16) (pos : 0 < dest.address) (pos' : 0 < src.address)
      (apart : (q : ℕ) → IsPixel src q → ¬ IsPixel dest q) where
    sampled_x-lt : (x : ℕ) → sampled_x sample dest src x < src.pixel_width
    sampled_x-lt x = ground arith

    sampled_y-lt : (y : ℕ) → sampled_y sample dest src y < src.pixel_height
    sampled_y-lt y = ground arith

    sampled_at-IsPixel : (x y : ℕ) → IsPixel src (sampled_at x y)
    sampled_at-IsPixel x y = (
      sampled_x sample dest src x,
      sampled_y sample dest src y,
      sampled_x-lt x,
      sampled_y-lt y,
      refl,
    )

    -- a drawing within the destination keeps the source
    SameSource-Plots :
        (m₀ m m' : Memory ℕ) (Hit : ℕ → ℕ → Type 0)
        → SameSource m₀ m
        → Plots Hit m m'
        → ((q c : ℕ) → Hit q c → IsPixel dest q)
        → SameSource m₀ m'
    SameSource-Plots m₀ m m' Hit same v inside q is =
        v.kept q (λ c h. apart q is (inside q c h)) ∙ same q is

    scale_row-Plots :
        (m₀ : Memory ℕ) (n j i : ℕ) (s : Video)
        → SameSource m₀ s.pixels
        → j + n ≡ dest.pixel_width
        → i < dest.pixel_height
        → (m : Memory ℕ) × (scale_row sample n j i dest src s ≡ done tt (record s { pixels = m }))
          × Plots (InRow m₀ j i) s.pixels m
    unfolding scale_row
    scale_row-Plots m₀ zero j i s same end low = (
      s.pixels,
      refl,
      nothing-Plots (InRow m₀ j i) s.pixels (λ q c (x, after, h). omega (arith, after, h.0, end)),
    )
    scale_row-Plots m₀ (suc n) j i s same end low =
        let p = pixel_at dest j i in
        let colour = s.pixels (sampled_at j i) in
        let m₁ = update s.pixels p colour in
        let known : colour ≡ m₀ (sampled_at j i) = same _ (sampled_at-IsPixel j i) in
        let v₁ : Plots (AtPlace dest j i (m₀ (sampled_at j i))) s.pixels m₁ = record {
          inked = λ q c (_, _, e, f). rw (eq→eqb q p e) (known ∙ sym f);
          kept = λ q n.
              rw (ne→not_eqb q p (λ e. n (m₀ (sampled_at j i)) (omega (arith, end), low, e, refl)));
        } in
        let (m, runs, v) =
          scale_row-Plots m₀ n (j + 1) i (record s { pixels = m₁ })
            (SameSource-Plots m₀ s.pixels m₁ _ same v₁ (λ q c (l, l', e, _). (j, i, l, l', e)))
            (omega (arith, end)) low in
        (
          m,
          rw (load_pixel-done (sampled_at j i) s (omega (arith, pos')))
              (rw (store_pixel-done p colour s (omega (arith, pos))) runs),
          Plots-then v₁ v
              (λ q c (x, after, h). elim (first_or_after j x after) [
                | inl e ↦ inl (subst (λ (a : ℕ). AtPlace dest a i (m₀ (sampled_at a i)) q c) e h)
                | inr l ↦ inr (x, l, h)
              ])
              (λ q c h. (j, omega arith, h)) (λ q c (x, after, h). (x, omega (arith, after), h))
              (λ q c c' here (x, after, there).
                let same = AtPlace-unique dest j i x i _ _ q c c' here there in
                omega (arith, after, same.0)),
        )

    scale_rows-Plots :
        (m₀ : Memory ℕ) (n i : ℕ) (s : Video)
        → SameSource m₀ s.pixels
        → i + n ≡ dest.pixel_height
        → (m : Memory ℕ) × (scale_rows sample n i dest src s ≡ done tt (record s { pixels = m }))
          × Plots (InRows m₀ i) s.pixels m
    unfolding scale_rows
    scale_rows-Plots m₀ zero i s same end = (
      s.pixels,
      refl,
      nothing-Plots (InRows m₀ i) s.pixels
          (λ q c (y, after, (x, _, h)). omega (arith, after, h.1, end)),
    )
    scale_rows-Plots m₀ (suc n) i s same end =
        let (m₁, runs₁, v₁) =
          scale_row-Plots m₀ dest.pixel_width 0 i s same (omega arith) (omega (arith, end)) in
        let (m, runs, v) =
          scale_rows-Plots m₀ n (i + 1) (record s { pixels = m₁ })
            (SameSource-Plots m₀ s.pixels m₁ _ same v₁
              (λ q c (x, _, (l, l', e, _)). (x, i, l, l', e)))
            (omega (arith, end)) in
        (
          m,
          rw runs₁ runs,
          Plots-then v₁ v
              (λ q c (y, after, h). elim (first_or_after i y after) [
                | inl e ↦ inl (subst (λ (a : ℕ). InRow m₀ 0 a q c) e h)
                | inr l ↦ inr (y, l, h)
              ])
              (λ q c h. (i, omega arith, h)) (λ q c (y, after, h). (y, omega (arith, after), h))
              (λ q c c' (x, _, here) (y, after, (x', _, there)).
                let same = AtPlace-unique dest x i x' y _ _ q c c' here there in
                omega (arith, after, same.1)),
        )

    -- When the source is not empty, not wider than high, has a width of 16 bits and no pixel in
    -- the destination, and neither address is null, `scale_buffer` ends, every pixel of the destination has the colour that the
    -- source had at the sampled place, whatever the floating-point numbers are, each sampled place is
    -- a pixel of the source, and no pixel outside the destination changes.
    pub scale_buffer-Scaled :
        (s : Video)
        → ((x y : ℕ) → IsPixel src (sampled_at x y))
          × ((m : Memory ℕ) × (scale_buffer sample dest src s ≡ done tt (record s { pixels = m }))
              × Plots (Scaled s.pixels) s.pixels m)
    unfolding scale_buffer
    scale_buffer-Scaled s =
        let (m, runs, v) =
          scale_rows-Plots s.pixels dest.pixel_height 0 s (λ q is. refl) (omega arith) in
        (
          sampled_at-IsPixel,
          (
            m,
            runs,
            record {
              inked = λ q c (x, y, h). v.inked q c (y, omega arith, (x, omega arith, h));
              kept = λ q n. v.kept q (λ c (y, _, (x, _, h)). n c (x, y, h));
            },
          ),
        )
