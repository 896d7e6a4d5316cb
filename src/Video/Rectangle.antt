-- ===== src/Video/Rectangle.antt =====
-- `put_rect` of kernel/video/drawing.c: it paints the pixels of the rectangle and no others.
use black_diamond_os.Prelude.{
  split_first, ℕ, zero, suc, ◌+◌, ◌*◌, ◌<◌, ◌≤◌, ◌≡◌, refl, sym, ap, ◌∙◌, ◌⊎◌, inl, inr, Bool-cases,
  ◌==◌, eq→eqb, ne→not_eqb, arith,
}
use black_diamond_os.Machine.{done, fault, Memory, update}
use black_diamond_os.Video.{Video, pixel_at, store_pixel, put_row, put_rows, put_rect}
use black_diamond_os.Video.Pixels.{
  painted, store_pixel-done, get_linear_address-inside, get_linear_address-outside,
}

-- From the pixels `m` to `m'`: the pixels at `Hit` have the colour `c`, and no others changed.
pub record Paints (c : ℕ) (m m' : Memory ℕ) (Hit : ℕ → Type 0) : Type 0 where
  pub inked : (q : ℕ) → Hit q → m' q ≡ c
  pub stays : (q : ℕ) → m q ≡ c → m' q ≡ c
  pub kept : (q : ℕ) → ¬ Hit q → m' q ≡ m q

update-Paints : (c p : ℕ) (m : Memory ℕ) → Paints c m (update m p c) (λ (q : ℕ). q ≡ p)
update-Paints c p m = record {
  inked = λ q e. rw (eq→eqb q p e);
  stays = λ q e. elim (Bool-cases (q == p)) [ inl h ↦ rw h | inr h ↦ rw h e ];
  kept = λ q n. rw (ne→not_eqb q p n);
}

-- one painting after another
Paints_then :
    {c : ℕ} {m₁ m₂ m₃ : Memory ℕ} {H₁ H₂ H : ℕ → Type 0}
    → Paints c m₁ m₂ H₁
    → Paints c m₂ m₃ H₂
    → ((q : ℕ) → H q → H₁ q ⊎ H₂ q)
    → ((q : ℕ) → H₁ q → H q)
    → ((q : ℕ) → H₂ q → H q)
    → Paints c m₁ m₃ H
Paints_then v w split first second = record {
  inked = λ q h. elim (split q h) [ inl a ↦ w.stays q (v.inked q a) | inr b ↦ w.inked q b ];
  stays = λ q e. w.stays q (v.stays q e);
  kept = λ q n. w.kept q (λ b. n (second q b)) ∙ v.kept q (λ a. n (first q a));
}

-- the pixels of a row
abbrev pub InRow : ℕ → ℕ → ℕ → ℕ → Type 0
InRow base j n q = (k : ℕ) × (k < n) × (q ≡ base + 4 * (j + k))

-- the pixels of a rectangle in a buffer whose lines have `line` pixels
abbrev pub InRectangle : ℕ → ℕ → ℕ → ℕ → ℕ → Type 0
InRectangle base line width height q =
    (i : ℕ) × (k : ℕ) × (i < height) × (k < width) × (q ≡ base + 4 * (i * line + k))

put_row-Paints :
    (n j base c : ℕ) (s : Video)
    → 0 < base
    → (m : Memory ℕ) × (put_row n j base c s ≡ done tt (record s { pixels = m }))
      × Paints c s.pixels m (InRow base j n)
unfolding put_row
put_row-Paints zero j base c s pos = (
  s.pixels,
  refl,
  record { inked = λ q h. absurd (omega (arith, h.1)); stays = λ q e. e; kept = λ q n. refl },
)
put_row-Paints (suc n) j base c s pos =
    let p = base + 4 * j in
    let (m, runs, v) = put_row-Paints n (j + 1) base c (painted s p c) pos in
    (
      m,
      rw (store_pixel-done p c s (omega arith)) runs,
      Paints_then (update-Paints c p s.pixels) v
          (λ q (k, below, e). elim (split_first k n below) [
            | inl z ↦ inl (omega (arith, e))
            | inr (k', z, l) ↦ inr (k', l, omega (arith, e))
          ])
          (λ q e. (0, omega arith, omega (arith, e)))
          (λ q (k, below, e). (k + 1, omega arith, omega (arith, e))),
    )

next_line :
    (base line i k : ℕ) → base + 4 * ((i + 1) * line + k) ≡ base + 4 * line + 4 * (i * line + k)
next_line base line i k = grind arith

put_rows-Paints :
    (n width base c : ℕ) (s : Video)
    → 0 < base
    → (m : Memory ℕ) × (put_rows n width base c s ≡ done tt (record s { pixels = m }))
      × Paints c s.pixels m (InRectangle base s.active_buffer.pixel_width width n)
unfolding put_rows
put_rows-Paints zero width base c s pos = (
  s.pixels,
  refl,
  record { inked = λ q h. absurd (omega (arith, h.2)); stays = λ q e. e; kept = λ q n. refl },
)
put_rows-Paints (suc n) width base c s pos =
    let line = s.active_buffer.pixel_width in
    let (m₁, runs₁, v₁) = put_row-Paints width 0 base c s pos in
    let (m, runs, v) =
      put_rows-Paints n width (base + 4 * line) c (record s { pixels = m₁ }) (omega (arith, pos)) in
    (
      m,
      rw runs₁ runs,
      Paints_then v₁ v
          (λ q (i, k, below, left, e). elim (split_first i n below) [
            | inl z ↦ inl (k, left, e ∙ ap (λ (a : ℕ). base + 4 * (a * line + k)) z ∙ omega arith)
            | inr (i', z, l) ↦ inr (
              i',
              k,
              l,
              left,
              e ∙ ap (λ (a : ℕ). base + 4 * (a * line + k)) z ∙ next_line base line i' k,
            )
          ])
          (λ q (k, left, e). (0, k, omega arith, left, omega (arith, e)))
          (λ q (i, k, below, left, e).
            (i + 1, k, omega arith, left, e ∙ sym (next_line base line i k))),
    )

-- `put_rect` from a pixel inside the active buffer, which is not at null, ends, gives the colour
-- to each pixel of the rectangle, counted in lines of the buffer, and changes no other pixel of
-- memory.
pub put_rect-Paints :
    (x y width height c : ℕ) (s : Video)
    → 0 < s.active_buffer.address
    → x < s.active_buffer.pixel_width
    → y < s.active_buffer.pixel_height
    → (m : Memory ℕ) × (put_rect x y width height c s ≡ done tt (record s { pixels = m }))
      × Paints c s.pixels m
          (InRectangle (pixel_at s.active_buffer x y) s.active_buffer.pixel_width width height)
unfolding put_rect
put_rect-Paints x y width height c s pos left low =
    rw (get_linear_address-inside x y s left low)
      (put_rows-Paints height width (pixel_at s.active_buffer x y) c s (omega (arith, pos)))

-- `put_rect` of at least one pixel from outside the active buffer writes through null.
pub put_rect-fault :
    (x y width height c : ℕ) (s : Video)
    → (s.active_buffer.pixel_width ≤ x) ⊎ (s.active_buffer.pixel_height ≤ y)
    → put_rect x y (suc width) (suc height) c s ≡ fault
unfolding put_rect put_rows put_row store_pixel
put_rect-fault x y width height c s out = rw (get_linear_address-outside x y s out)
