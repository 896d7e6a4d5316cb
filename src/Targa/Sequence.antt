-- ===== src/Targa/Sequence.antt =====
-- Pixels drawn one after another at the cursor, in `put_targa` of kernel/video/processing.c on a
-- run-length-encoded image.
use black_diamond_os.Prelude.{
  ℕ, zero, suc, ◌+◌, ◌*◌, ◌/◌, ◌%◌, ◌^◌, ◌<◌, ◌≤◌, ◌≡◌, refl, subst, ◌⊎◌, inl, inr, true,
  Bool-cases, List, [], ◌∷◌, length, u16, arith,
}
use black_diamond_os.Machine.{done, Proc, Memory, pure, and_then-cong, ◌>>=◌}
use black_diamond_os.Video.{Video, Framebuffer}
use black_diamond_os.Targa.{
  TargaHeader, is_bottom_up, Cursor, advance, put_at, put_run, Encoding, put_raw,
}
use black_diamond_os.Targa.Plots.{
  Plots, AtPlace, AtPlace-unique, nothing-Plots, Plots-then, put_pixel-Plots,
}
use black_diamond_os.Targa.Steps.{
  HasPixels, line_of, IsAt, advance-IsAt, place_number, mod_below, line_below,
}

-- The pixels of an image from number `t` on have the colours of a list.
abbrev pub InSequence : TargaHeader → Framebuffer → ℕ → ℕ → ℕ → List ℕ → ℕ → ℕ → Type 0
InSequence h b x y t [] q c = ⊥
InSequence h b x y t (v ∷ vs) q c =
    AtPlace b (x + t % h.width) (y + line_of h (t / h.width)) v q c
    ⊎ InSequence h b x y (t + 1) vs q c

InSequence-number :
    (h : TargaHeader) (b : Framebuffer) (x y t : ℕ) (vs : List ℕ) (q c : ℕ)
    → InSequence h b x y t vs q c
    → (k : ℕ) × (v : ℕ) × (t ≤ k)
      × (k < t + length vs)
      × AtPlace b (x + k % h.width) (y + line_of h (k / h.width)) v q c
InSequence-number h b x y t [] q c none = absurd none
InSequence-number h b x y t (v ∷ vs) q c (inl here) = (t, v, omega arith, omega arith, here)
InSequence-number h b x y t (v ∷ vs) q c (inr later) =
    let (k, v', l, l', there) = InSequence-number h b x y (t + 1) vs q c later in
    (k, v', omega (arith, l), omega (arith, l'), there)

-- the colours drawn from the cursor on
abbrev pub put_list : TargaHeader → ℕ → ℕ → List ℕ → Cursor → Proc Video Cursor
put_list h x y [] c = pure c
put_list h x y (v ∷ vs) c = do c' ← put_at h x y c v; put_list h x y vs c'

-- `n` pixels of one colour, and the pixels stored from `p` on
abbrev pub copies : ℕ → ℕ → List ℕ
copies zero v = []
copies (suc n) v = v ∷ copies n v

abbrev pub stored : Encoding → ℕ → ℕ → List ℕ
stored e zero p = []
stored e (suc n) p = e.colour p ∷ stored e n (p + e.stride)

pub put_run-list :
    (h : TargaHeader) (x y v n : ℕ) (c : Cursor) (s : Video)
    → put_run h x y v n c s ≡ put_list h x y (copies n v) c s
unfolding put_run
put_run-list h x y v zero c s = refl
put_run-list h x y v (suc n) c s =
    and_then-cong (put_at h x y c v s) (put_run h x y v n) (put_list h x y (copies n v))
      (λ c' s'. put_run-list h x y v n c' s')

pub put_raw-list :
    (e : Encoding) (h : TargaHeader) (x y n p : ℕ) (c : Cursor) (s : Video)
    → put_raw e h x y n p c s ≡ put_list h x y (stored e n p) c s
unfolding put_raw
put_raw-list e h x y zero p c s = refl
put_raw-list e h x y (suc n) p c s =
    and_then-cong (put_at h x y c (e.colour p) s) (put_raw e h x y n (p + e.stride))
      (put_list h x y (stored e n (p + e.stride)))
      (λ c' s'. put_raw-list e h x y n (p + e.stride) c' s')

-- `t` pixels are drawn: the cursor stands at the next, or the end is noted.
abbrev pub Reached : TargaHeader → Cursor → ℕ → Type 0
Reached h c t = (t < h.height * h.width → IsAt h c t) × (t ≡ h.height * h.width → c.end ≡ true)

-- The image lies where no coordinate passes 16 bits.
pub record Fits (h : TargaHeader) (x y : ℕ) : Type 0 where
  pub some_pixels : HasPixels h
  pub right : x + h.width ≤ 2 ^ 16
  pub bottom : y + h.height < 2 ^ 16

line_of-below : (h : TargaHeader) (r : ℕ) → r < h.height → line_of h r ≤ h.height
line_of-below h r l = elim (Bool-cases (is_bottom_up h)) [
  | inl up ↦ rw up (omega arith)
  | inr down ↦ rw down (omega (arith, l))
]

pub put_at-Plots :
    (h : TargaHeader) (x y t v : ℕ) (c : Cursor) (s : Video)
    → 0 < s.active_buffer.address
    → Fits h x y
    → IsAt h c t
    → (m : Memory ℕ) × (put_at h x y c v s ≡ done (advance h c) (record s { pixels = m }))
      × Plots (AtPlace s.active_buffer (x + t % h.width) (y + line_of h (t / h.width)) v) s.pixels m
unfolding put_at
put_at-Plots h x y t v c s pos fits at =
    let wide = fits.some_pixels.some_column in
    let col = mod_below t h.width wide in
    let row = line_of-below h (t / h.width) (line_below t h.width h.height wide at.inside) in
    let X = x + t % h.width in
    let Y = y + line_of h (t / h.width) in
    let (ok, m, runs, v') = put_pixel-Plots X Y v s pos in
    let across : u16 (c.pixel_x + x) ≡ X = omega (arith, at.column, col, fits.right) in
    let down : u16 (c.pixel_y + y) ≡ Y = omega (arith, at.line, row, fits.bottom) in
    (m, rw (across, down, runs), v')

pub put_list-Plots :
    (h : TargaHeader) (x y t : ℕ) (vs : List ℕ) (c : Cursor) (s : Video)
    → 0 < s.active_buffer.address
    → Fits h x y
    → Reached h c t
    → t + length vs ≤ h.height * h.width
    → (c' : Cursor) × (m : Memory ℕ) × (put_list h x y vs c s ≡ done c' (record s { pixels = m }))
      × Reached h c' (t + length vs)
      × Plots (InSequence h s.active_buffer x y t vs) s.pixels m
put_list-Plots h x y t [] c s pos fits at most = (
  c,
  s.pixels,
  refl,
  subst (Reached h c) (omega arith) at,
  nothing-Plots (InSequence h s.active_buffer x y t []) s.pixels (λ q c' none. none),
)
put_list-Plots h x y t (v ∷ vs) c s pos fits at most =
    let here = at.0 (omega (arith, most)) in
    let b = s.active_buffer in
    let (m₁, runs₁, v₁) = put_at-Plots h x y t v c s pos fits here in
    let (c', m, runs, at', v₂) =
      put_list-Plots h x y (t + 1) vs (advance h c) (record s { pixels = m₁ }) pos fits
        (advance-IsAt h c t fits.some_pixels here) (omega (arith, most)) in
    (
      c',
      m,
      rw runs₁ runs,
      subst (Reached h c') (omega arith) at',
      Plots-then v₁ v₂ (λ q c'' o. o) (λ q c'' o. inl o) (λ q c'' o. inr o)
          (λ q a a' first later.
            let (k, v', l, l', there) = InSequence-number h b x y (t + 1) vs q a' later in
            let same =
              AtPlace-unique b (x + t % h.width) (y + line_of h (t / h.width)) (x + k % h.width)
                (y + line_of h (k / h.width)) v v' q a a' first there in
            omega (
              arith,
              l,
              place_number h t k fits.some_pixels here.inside (omega (arith, l', most))
                  (omega (arith, same.0)) (omega (arith, same.1)),
            )),
    )
