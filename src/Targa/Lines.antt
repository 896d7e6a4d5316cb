-- ===== src/Targa/Lines.antt =====
-- A line of an uncompressed image in `put_targa` of kernel/video/processing.c, and the numbers of
-- its pixels in the file.
use black_diamond_os.Prelude.{
  ℕ, zero, suc, ◌+◌, ◌-◌, ◌*◌, ◌^◌, ◌<◌, ◌≤◌, ◌≡◌, refl, sym, ap, ◌∙◌, inl, inr, Bool-cases,
  next_rows, columns_le, split_first, u16, u32, if◌then◌else◌, arith,
}
use black_diamond_os.Machine.{done, Memory}
use black_diamond_os.Video.{Video, Framebuffer}
use black_diamond_os.Targa.{TargaHeader, is_bottom_up, put_line, next_line_of, first_pixel}
use black_diamond_os.Targa.Plots.{
  Plots, AtPlace, nothing-Plots, Plots-then, put_pixel-Plots, AtPlace-at, AtPlace-unique,
}

-- the places of a line of `n` pixels from column `x` on, with the colours from number `first` on
abbrev pub InLine : (ℕ → ℕ) → Framebuffer → ℕ → ℕ → ℕ → ℕ → ℕ → ℕ → Type 0
InLine colour b x y first n q c = (k : ℕ) × (k < n) × AtPlace b (x + k) y (colour (first + k)) q c

pub put_line-Plots :
    (colour : ℕ → ℕ) (n j i x y first : ℕ) (s : Video)
    → 0 < s.active_buffer.address
    → x + j + n ≤ 2 ^ 16
    → y + i < 2 ^ 16
    → first + n < 2 ^ 32
    → (m : Memory ℕ) × (put_line colour n j i x y first s
        ≡ done (first + n) (record s { pixels = m }))
      × Plots (InLine colour s.active_buffer (x + j) (y + i) first n) s.pixels m
unfolding put_line
put_line-Plots colour zero j i x y first s pos wide tall few = (
  s.pixels,
  ap (λ (a : ℕ). done a s) (omega arith),
  nothing-Plots (InLine colour s.active_buffer (x + j) (y + i) first 0) s.pixels
      (λ q c h. omega (arith, h.1)),
)
put_line-Plots colour (suc n) j i x y first s pos wide tall few =
    let b = s.active_buffer in
    let (ok, m₁, runs₁, v₁) = put_pixel-Plots (x + j) (y + i) (colour first) s pos in
    let (m, runs, v) =
      put_line-Plots colour n (j + 1) i x y (first + 1) (record s { pixels = m₁ }) pos
        (omega (arith, wide)) tall (omega (arith, few)) in
    let here : u16 (j + x) ≡ x + j = omega (arith, wide) in
    let line : u16 (i + y) ≡ y + i = omega (arith, tall) in
    let next : u32 (first + 1) ≡ first + 1 = omega (arith, few) in
    (
      m,
      rw (here, line, runs₁, next)
          (runs ∙ ap (λ (a : ℕ). done a (record s { pixels = m })) (omega arith)),
      Plots-then v₁ v
          (λ q c (k, l, h). elim (split_first k n l) [
            | inl z ↦ inl (
                AtPlace-at b (x + j + k) (x + j) (y + i) (y + i) (colour (first + k)) (colour first)
                  q c (omega (arith, z)) refl (ap colour (omega (arith, z))) h)
            | inr (k', z, l') ↦ inr (
              k',
              l',
              AtPlace-at b (x + j + k) (x + (j + 1) + k') (y + i) (y + i) (colour (first + k))
                  (colour (first + 1 + k')) q c (omega (arith, z)) refl
                  (ap colour (omega (arith, z))) h,
            )
          ])
          (λ q c h. (
            0,
            omega arith,
            AtPlace-at b (x + j) (x + j + 0) (y + i) (y + i) (colour first) (colour (first + 0)) q c
                (omega arith) refl (ap colour (omega arith)) h,
          ))
          (λ q c (k, l, h). (
            k + 1,
            omega (arith, l),
            AtPlace-at b (x + (j + 1) + k) (x + j + (k + 1)) (y + i) (y + i)
                (colour (first + 1 + k)) (colour (first + (k + 1))) q c (omega arith) refl
                (ap colour (omega arith)) h,
          ))
          (λ q c c' here (k, _, there).
            let same =
              AtPlace-unique b (x + j) (y + i) (x + (j + 1) + k) (y + i) _ _ q c c' here there in
            omega (arith, same.0)),
    )

-- the number of the first pixel of line `r` in the file
abbrev pub line_start : TargaHeader → ℕ → ℕ
line_start h r = if is_bottom_up h then (h.height - (r + 1)) * h.width else r * h.width

-- a line that starts at a multiple of the width
rows_fit : (a w : ℕ) → a < 2 ^ 16 → w < 2 ^ 16 → a * w + w < 2 ^ 32
rows_fit a w l wide =
    omega (arith, next_rows a w, columns_le (a + 1) (2 ^ 16) w (omega (arith, l)), wide)

pub line_fits :
    (h : TargaHeader) (r : ℕ)
    → r < h.height
    → h.width < 2 ^ 16
    → h.height < 2 ^ 16
    → line_start h r + h.width < 2 ^ 32
line_fits h r l wide tall = elim (Bool-cases (is_bottom_up h)) [
  | inl up ↦ rw up (rows_fit (h.height - (r + 1)) h.width (omega (arith, tall)) wide)
  | inr down ↦ rw down (rows_fit r h.width (omega (arith, tall, l)) wide)
]

-- two lines back from behind the line above line `d`
back_two :
    (d a w : ℕ) → a ≡ d + 1 → d < 2 ^ 16 → w < 2 ^ 16 → u32 (a * w + w + (2 ^ 32 - w * 2)) ≡ d * w
back_two d a w e l wide =
    let above : a * w ≡ d * w + w = ap (λ (b : ℕ). b * w) e ∙ next_rows d w in
    omega (arith, above, rows_fit d w l wide, wide)

pub next_line_start :
    (h : TargaHeader) (r : ℕ)
    → r + 1 < h.height
    → h.width < 2 ^ 16
    → h.height < 2 ^ 16
    → next_line_of h (line_start h r + h.width) ≡ line_start h (r + 1)
next_line_start h r l wide tall = elim (Bool-cases (is_bottom_up h)) [
  | inl up ↦ rw up (
      back_two (h.height - (r + 1 + 1)) (h.height - (r + 1)) h.width (omega (arith, l))
        (omega (arith, tall)) wide)
  | inr down ↦ rw down (sym (next_rows r h.width))
]

spread : (w a c : ℕ) → w * (a + c) ≡ a * w + c * w
spread w a c = grind arith

pub first_pixel_start :
    (h : TargaHeader)
    → 0 < h.height
    → h.width < 2 ^ 16
    → h.height < 2 ^ 16
    → first_pixel h ≡ line_start h 0
first_pixel_start h l wide tall = elim (Bool-cases (is_bottom_up h)) [
  | inl up ↦
      let a = h.height - 1 in
      let around : h.height + (2 ^ 32 - 1) ≡ a + 2 ^ 32 = omega (arith, l) in
      let e : h.width * (h.height + (2 ^ 32 - 1)) ≡ a * h.width + 2 ^ 32 * h.width =
        ap (λ (b : ℕ). h.width * b) around ∙ spread h.width a (2 ^ 32) in
      let fits = rows_fit a h.width (omega (arith, tall)) wide in rw up (omega (arith, e, fits))
  | inr down ↦ rw down (omega arith)
]
