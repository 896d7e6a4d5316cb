-- ===== src/Targa/Image.antt =====
-- `put_targa` of kernel/video/processing.c on an uncompressed image: where its pixels go.
use black_diamond_os.Prelude.{
  ℕ, zero, suc, ◌+◌, ◌^◌, ◌<◌, ◌≤◌, ◌≡◌, refl, ap, ◌⊎◌, inl, inr, split_first, arith,
}
use black_diamond_os.Machine.{done, Memory}
use black_diamond_os.Video.{Video, Framebuffer}
use black_diamond_os.Targa.{TargaHeader, next_line_of, put_lines, first_pixel, put_uncompressed}
use black_diamond_os.Targa.Plots.{
  Plots, AtPlace, nothing-Plots, Plots-then, AtPlace-at, AtPlace-unique,
}
use black_diamond_os.Targa.Lines.{
  InLine, line_start, put_line-Plots, line_fits, next_line_start, first_pixel_start,
}

-- the places of the lines of an image from line `i` on
abbrev pub InImage : (ℕ → ℕ) → TargaHeader → Framebuffer → ℕ → ℕ → ℕ → ℕ → ℕ → ℕ → Type 0
InImage colour h b x y i n q c =
    (r : ℕ) × (k : ℕ) × (r < n)
    × (k < h.width)
    × AtPlace b (x + k) (y + (i + r)) (colour (line_start h (i + r) + k)) q c

InImage-line :
    (colour : ℕ → ℕ) (h : TargaHeader) (b : Framebuffer) (x y i n q c : ℕ)
    → InImage colour h b x y i (suc n) q c
    → InLine colour b (x + 0) (y + i) (line_start h i) h.width q c
      ⊎ InImage colour h b x y (i + 1) n q c
InImage-line colour h b x y i n q c (r, k, l, l', here) = elim (split_first r n l) [
  | inl z ↦
      let e : i + r ≡ i = omega (arith, z) in
      inl (
        k,
        l',
        AtPlace-at b (x + k) (x + 0 + k) (y + (i + r)) (y + i) (colour (line_start h (i + r) + k))
            (colour (line_start h i + k)) q c (omega arith) (omega (arith, z))
            (ap (λ (a : ℕ). colour (line_start h a + k)) e) here,
      )
  | inr (r', z, l'') ↦
      let e : i + r ≡ i + 1 + r' = omega (arith, z) in
      inr (
        r',
        k,
        l'',
        l',
        AtPlace-at b (x + k) (x + k) (y + (i + r)) (y + (i + 1 + r'))
            (colour (line_start h (i + r) + k)) (colour (line_start h (i + 1 + r') + k)) q c refl
            (omega (arith, z)) (ap (λ (a : ℕ). colour (line_start h a + k)) e) here,
      )
]

InLine-image :
    (colour : ℕ → ℕ) (h : TargaHeader) (b : Framebuffer) (x y i n q c : ℕ)
    → InLine colour b (x + 0) (y + i) (line_start h i) h.width q c
    → InImage colour h b x y i (suc n) q c
InLine-image colour h b x y i n q c (k, l, here) = (
  0,
  k,
  omega arith,
  l,
  AtPlace-at b (x + 0 + k) (x + k) (y + i) (y + (i + 0)) (colour (line_start h i + k))
      (colour (line_start h (i + 0) + k)) q c (omega arith) (omega arith)
      (ap (λ (a : ℕ). colour (line_start h a + k)) (omega arith)) here,
)

InImage-next :
    (colour : ℕ → ℕ) (h : TargaHeader) (b : Framebuffer) (x y i n q c : ℕ)
    → InImage colour h b x y (i + 1) n q c
    → InImage colour h b x y i (suc n) q c
InImage-next colour h b x y i n q c (r, k, l, l', here) = (
  r + 1,
  k,
  omega (arith, l),
  l',
  AtPlace-at b (x + k) (x + k) (y + (i + 1 + r)) (y + (i + (r + 1)))
      (colour (line_start h (i + 1 + r) + k)) (colour (line_start h (i + (r + 1)) + k)) q c refl
      (omega arith) (ap (λ (a : ℕ). colour (line_start h a + k)) (omega arith)) here,
)

put_lines-Plots :
    (colour : ℕ → ℕ) (h : TargaHeader) (n i x y first : ℕ) (s : Video)
    → 0 < s.active_buffer.address
    → h.width < 2 ^ 16
    → h.height < 2 ^ 16
    → x + h.width ≤ 2 ^ 16
    → y + h.height ≤ 2 ^ 16
    → i + n ≡ h.height
    → (0 < n → first ≡ line_start h i)
    → (m : Memory ℕ) × (put_lines colour h n i x y first s ≡ done tt (record s { pixels = m }))
      × Plots (InImage colour h s.active_buffer x y i n) s.pixels m
unfolding put_lines
put_lines-Plots colour h zero i x y first s pos wide tall right bottom whole starts = (
  s.pixels,
  refl,
  nothing-Plots (InImage colour h s.active_buffer x y i 0) s.pixels (λ q c w. omega (arith, w.2)),
)
put_lines-Plots colour h (suc n) i x y first s pos wide tall right bottom whole starts =
    let b = s.active_buffer in
    let start = starts (omega arith) in
    let (m₁, runs₁, v₁) =
      put_line-Plots colour h.width 0 i x y (line_start h i) s pos (omega (arith, right))
        (omega (arith, bottom, whole)) (line_fits h i (omega (arith, whole)) wide tall) in
    let (m, runs, v) =
      put_lines-Plots colour h n (i + 1) x y (next_line_of h (line_start h i + h.width))
        (record s { pixels = m₁ }) pos wide tall right bottom (omega (arith, whole))
        (λ more. next_line_start h i (omega (arith, more, whole)) wide tall) in
    (
      m,
      rw (start, runs₁) runs,
      Plots-then v₁ v (InImage-line colour h b x y i n) (InLine-image colour h b x y i n)
          (InImage-next colour h b x y i n)
          (λ q c c' (k, _, here) (r, k', _, _, there).
            let same =
              AtPlace-unique b (x + 0 + k) (y + i) (x + k') (y + (i + 1 + r)) _ _ q c c' here
                there in
            omega (arith, same.1)),
    )

-- The drawing loops of `put_targa` for an uncompressed image, at a place where no coordinate
-- passes 16 bits, draw each pixel of it that lies inside the active buffer at its column and line,
-- a bottom-up image with its last line first, and change no other pixel.
pub put_uncompressed-Plots :
    (colour : ℕ → ℕ) (h : TargaHeader) (x y : ℕ) (s : Video)
    → 0 < s.active_buffer.address
    → h.width < 2 ^ 16
    → h.height < 2 ^ 16
    → x + h.width ≤ 2 ^ 16
    → y + h.height ≤ 2 ^ 16
    → (m : Memory ℕ) × (put_uncompressed colour h x y s ≡ done 1 (record s { pixels = m }))
      × Plots (InImage colour h s.active_buffer x y 0 h.height) s.pixels m
unfolding put_uncompressed
put_uncompressed-Plots colour h x y s pos wide tall right bottom =
    let (m, runs, v) =
      put_lines-Plots colour h h.height 0 x y (first_pixel h) s pos wide tall right bottom
        (omega arith) (λ some_line. first_pixel_start h some_line wide tall) in
    (m, rw runs, v)
