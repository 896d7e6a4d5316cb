-- ===== src/Video/Clip.antt =====
-- `put_pixel` of kernel/video/drawing.c and `composite_buffer` of kernel/video/processing.c: what
-- lies outside the active buffer is left out.
use black_diamond_os.Prelude.{
  ℕ, zero, suc, ◌+◌, ◌<◌, ◌≤◌, ◌≡◌, refl, ◌∙◌, ◌⊎◌, inl, inr, Bool, true, false, Bool-cases, ltb,
  ltb→lt, not_ltb→le, eq→eqb, ne→not_eqb, u16, arith,
}
use black_diamond_os.Machine.{done, fault, Memory, update}
use black_diamond_os.Video.{
  Video, Framebuffer, pixel_at, load_pixel, put_pixel, get_pixel, composite_row, composite_rows,
  composite_buffer,
}
use black_diamond_os.Video.Pixels.{
  painted, load_pixel-done, store_pixel-done, get_linear_address-inside, get_linear_address-outside,
}

pub put_pixel-inside :
    (x y c : ℕ) (s : Video)
    → 0 < s.active_buffer.address
    → x < s.active_buffer.pixel_width
    → y < s.active_buffer.pixel_height
    → put_pixel x y c s ≡ done true (painted s (pixel_at s.active_buffer x y) c)
unfolding put_pixel
put_pixel-inside x y c s pos left low =
    let p = pixel_at s.active_buffer x y in
    rw (
      get_linear_address-inside x y s left low,
      ne→not_eqb p 0 (omega (arith, pos)),
      store_pixel-done p c s (omega (arith, pos)),
    )

pub put_pixel-outside :
    (x y c : ℕ) (s : Video)
    → (s.active_buffer.pixel_width ≤ x) ⊎ (s.active_buffer.pixel_height ≤ y)
    → put_pixel x y c s ≡ done false s
unfolding put_pixel
put_pixel-outside x y c s out = rw (get_linear_address-outside x y s out)

-- A pixel is inside the active buffer or not.
pub inside_or_not : (x y w h : ℕ) → ((x < w) × (y < h)) ⊎ ((w ≤ x) ⊎ (h ≤ y))
inside_or_not x y w h = elim (Bool-cases (ltb x w)) [
  | inl a ↦ elim (Bool-cases (ltb y h)) [
    | inl b ↦ inl (ltb→lt x w a, ltb→lt y h b)
    | inr b ↦ inr (inr (not_ltb→le y h b))
  ]
  | inr a ↦ inr (inl (not_ltb→le x w a))
]

-- With an active buffer that is not at null, either `put_pixel` answers 1 and `get_pixel` then
-- reads the colour back, or it answers 0, changes nothing, and `get_pixel` of that place reads
-- through null.
pub get_pixel-put_pixel :
    (x y c : ℕ) (s : Video)
    → 0 < s.active_buffer.address
    → ((s' : Video) × (put_pixel x y c s ≡ done true s') × (get_pixel x y s' ≡ done c s'))
      ⊎ ((put_pixel x y c s ≡ done false s) × (get_pixel x y s ≡ fault))
unfolding get_pixel load_pixel
get_pixel-put_pixel x y c s pos =
    let b = s.active_buffer in
    let p = pixel_at b x y in
    elim (inside_or_not x y b.pixel_width b.pixel_height) [
      | inl (left, low) ↦ inl (
        painted s p c,
        put_pixel-inside x y c s pos left low,
        rw (
          get_linear_address-inside x y (painted s p c) left low,
          ne→not_eqb p 0 (omega (arith, pos)),
          eq→eqb p p refl,
        ),
      )
      | inr out ↦ inr (put_pixel-outside x y c s out, rw (get_linear_address-outside x y s out))
    ]

-- the address of a pixel of the buffer
abbrev pub IsPixel : Framebuffer → ℕ → Type 0
IsPixel b q = (x : ℕ) × (y : ℕ) × (x < b.pixel_width) × (y < b.pixel_height) × (q ≡ pixel_at b x y)

-- the two memories agree outside the buffer
abbrev pub SameOutside : Framebuffer → Memory ℕ → Memory ℕ → Type 0
SameOutside b m m' = (q : ℕ) → ¬ IsPixel b q → m' q ≡ m q

pub put_pixel-SameOutside :
    (x y c : ℕ) (s : Video)
    → 0 < s.active_buffer.address
    → (ok : Bool) × (m : Memory ℕ) × (put_pixel x y c s ≡ done ok (record s { pixels = m }))
      × SameOutside s.active_buffer s.pixels m
put_pixel-SameOutside x y c s pos =
    let b = s.active_buffer in
    let p = pixel_at b x y in
    elim (inside_or_not x y b.pixel_width b.pixel_height) [
      | inl (left, low) ↦ (
        true,
        update s.pixels p c,
        put_pixel-inside x y c s pos left low,
        λ q n. rw (ne→not_eqb q p (λ e. n (x, y, left, low, e))),
      )
      | inr out ↦ (false, s.pixels, put_pixel-outside x y c s out, λ q n. refl)
    ]

composite_row-SameOutside :
    (n j i : ℕ) (src : Framebuffer) (x y : ℕ) (s : Video)
    → 0 < src.address
    → 0 < s.active_buffer.address
    → (m : Memory ℕ) × (composite_row n j i src x y s ≡ done tt (record s { pixels = m }))
      × SameOutside s.active_buffer s.pixels m
unfolding composite_row
composite_row-SameOutside zero j i src x y s pos pos' = (s.pixels, refl, λ q n. refl)
composite_row-SameOutside (suc n) j i src x y s pos pos' =
    let c = s.pixels (pixel_at src j i) in
    let (ok, m₁, runs₁, same₁) = put_pixel-SameOutside (u16 (j + x)) (u16 (i + y)) c s pos' in
    let (m, runs, same) =
      composite_row-SameOutside n (j + 1) i src x y (record s { pixels = m₁ }) pos pos' in
    (
      m,
      rw (load_pixel-done (pixel_at src j i) s (omega (arith, pos)), runs₁) runs,
      λ q out. same q out ∙ same₁ q out,
    )

composite_rows-SameOutside :
    (n i : ℕ) (src : Framebuffer) (x y : ℕ) (s : Video)
    → 0 < src.address
    → 0 < s.active_buffer.address
    → (m : Memory ℕ) × (composite_rows n i src x y s ≡ done tt (record s { pixels = m }))
      × SameOutside s.active_buffer s.pixels m
unfolding composite_rows
composite_rows-SameOutside zero i src x y s pos pos' = (s.pixels, refl, λ q n. refl)
composite_rows-SameOutside (suc n) i src x y s pos pos' =
    let (m₁, runs₁, same₁) = composite_row-SameOutside src.pixel_width 0 i src x y s pos pos' in
    let (m, runs, same) =
      composite_rows-SameOutside n (i + 1) src x y (record s { pixels = m₁ }) pos pos' in
    (m, rw runs₁ runs, λ q out. same q out ∙ same₁ q out)

-- `composite_buffer` of any source at any place, where neither buffer is at null, ends, and
-- changes no memory outside the pixels of the active buffer.
pub composite_buffer-SameOutside :
    (src : Framebuffer) (x y : ℕ) (s : Video)
    → 0 < src.address
    → 0 < s.active_buffer.address
    → (m : Memory ℕ) × (composite_buffer src x y s ≡ done tt (record s { pixels = m }))
      × SameOutside s.active_buffer s.pixels m
unfolding composite_buffer
composite_buffer-SameOutside src x y s pos pos' =
    composite_rows-SameOutside src.pixel_height 0 src x y s pos pos'
