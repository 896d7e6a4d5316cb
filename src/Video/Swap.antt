-- ===== src/Video/Swap.antt =====
-- `swap_bufs` of kernel/video/framebuffer.c: the lines of the back buffer on the screen.
use black_diamond_os.Prelude.{
  split_first, ℕ, zero, suc, ◌+◌, ◌*◌, ◌<◌, ◌≤◌, ◌≡◌, ◌≢◌, refl, sym, ap, ◌∙◌, eq→eqb, ne→not_eqb,
  ◌⊎◌, inl, inr, arith,
}
use black_diamond_os.Machine.{done, Memory, update}
use black_diamond_os.Video.{Video, copy_pixels, swap_lines, swap_bufs}
use black_diamond_os.Video.Pixels.{painted, load_pixel-done, store_pixel-done}

-- From the memory `m` to `m'`: what `Hit` relates is copied, and nothing else changed.
pub record Copies (m m' : Memory ℕ) (Hit : ℕ → ℕ → Type 0) : Type 0 where
  pub copied : (q p : ℕ) → Hit q p → m' q ≡ m p
  pub kept : (q : ℕ) → ((p : ℕ) → ¬ Hit q p) → m' q ≡ m q

-- one copy after another, where the second does not write what the first wrote, nor read it
Copies_then :
    {m₁ m₂ m₃ : Memory ℕ} {H₁ H₂ H : ℕ → ℕ → Type 0}
    → Copies m₁ m₂ H₁
    → Copies m₂ m₃ H₂
    → ((q p : ℕ) → H q p → H₁ q p ⊎ H₂ q p)
    → ((q p : ℕ) → H₁ q p → H q p)
    → ((q p : ℕ) → H₂ q p → H q p)
    → ((q p p' : ℕ) → H₁ q p → ¬ H₂ q p')
    → ((q p p' : ℕ) → H₂ q p → ¬ H₁ p p')
    → Copies m₁ m₃ H
Copies_then v w split first second once apart = record {
  copied = λ q p h. elim (split q p h) [
    | inl a ↦ w.kept q (λ p'. once q p p' a) ∙ v.copied q p a
    | inr b ↦ w.copied q p b ∙ v.kept p (λ p'. apart q p p' b)
  ];
  kept = λ q n. w.kept q (λ p b. n p (second q p b)) ∙ v.kept q (λ p a. n p (first q p a));
}

-- the copy of a line of `n` pixels, from the pixel `j` on
abbrev pub OnLine : ℕ → ℕ → ℕ → ℕ → ℕ → ℕ → Type 0
OnLine dest src j n q p = (k : ℕ) × (k < n) × (q ≡ dest + 4 * (j + k)) × (p ≡ src + 4 * (j + k))

copy_pixels-Copies :
    (n j dest src : ℕ) (s : Video)
    → 0 < dest
    → 0 < src
    → ((a b : ℕ) → a < j + n → b < j + n → dest + 4 * a ≢ src + 4 * b)
    → (m : Memory ℕ) × (copy_pixels n j dest src s ≡ done tt (record s { pixels = m }))
      × Copies s.pixels m (OnLine dest src j n)
unfolding copy_pixels
copy_pixels-Copies zero j dest src s to from apart =
    (s.pixels, refl, record { copied = λ q p h. absurd (omega (arith, h.1)); kept = λ q n. refl })
copy_pixels-Copies (suc n) j dest src s to from apart =
    let q₀ = dest + 4 * j in
    let c = s.pixels (src + 4 * j) in
    let (m, runs, v) =
      copy_pixels-Copies n (j + 1) dest src (painted s q₀ c) to from
        (λ a b l h. apart a b (omega (arith, l)) (omega (arith, h))) in
    let one : Copies s.pixels (update s.pixels q₀ c) (λ q p. (q ≡ q₀) × (p ≡ src + 4 * j)) =
      record {
        copied = λ q p (e, f). rw (eq→eqb q q₀ e) (ap s.pixels (sym f));
        kept = λ q out. rw (ne→not_eqb q q₀ (λ e. out (src + 4 * j) (e, refl)));
      } in
    (
      m,
      rw
          (
            load_pixel-done (src + 4 * j) s (omega (arith, from)),
            store_pixel-done q₀ c s (omega (arith, to)),
          )
          runs,
      Copies_then one v
          (λ q p (k, below, e, f). elim (split_first k n below) [
            | inl z ↦ inl (omega (arith, e), omega (arith, f))
            | inr (k', z, l) ↦ inr (k', l, omega (arith, e), omega (arith, f))
          ])
          (λ q p (e, f). (0, omega arith, omega (arith, e), omega (arith, f)))
          (λ q p (k, below, e, f). (k + 1, omega arith, omega (arith, e), omega (arith, f)))
          (λ q p p' (e, f) (k, below, e', f'). omega (arith, e, e'))
          (λ q p p' (k, below, e, f) (e', f').
            apart j (j + 1 + k) (omega arith) (omega (arith, below)) (sym e' ∙ f)),
    )

-- a place on a line below line `n` is below the start of line `n`
line_lt : (i n a line : ℕ) → i < n → a < line → i * line + a < n * line
line_lt i n a line below left = grind (arith, below, left)

-- the copy of `n` lines from the line `i` on, of `width` pixels each
abbrev pub OnScreen : ℕ → ℕ → ℕ → ℕ → ℕ → ℕ → ℕ → ℕ → Type 0
OnScreen front pitch back width i n q p =
    (l : ℕ) × (k : ℕ) × (l < n)
    × (k < width)
    × (q ≡ front + (i + l) * pitch + 4 * k)
    × (p ≡ back + (i + l) * width * 4 + 4 * k)

swap_lines-Copies :
    (n i : ℕ) (s : Video)
    → 0 < s.front_buffer.address
    → 0 < s.back_buffer.address
    → 4 * s.back_buffer.pixel_width ≤ s.front_buffer_width_bytes
    → s.back_buffer.address + 4 * ((i + n) * s.back_buffer.pixel_width) ≤ s.front_buffer.address
    → (m : Memory ℕ) × (swap_lines n i s ≡ done tt (record s { pixels = m }))
      × Copies s.pixels m (
          OnScreen s.front_buffer.address s.front_buffer_width_bytes s.back_buffer.address
            s.back_buffer.pixel_width i n)
unfolding swap_lines
swap_lines-Copies zero i s to from fits apart =
    (s.pixels, refl, record { copied = λ q p h. absurd (omega (arith, h.2)); kept = λ q n. refl })
swap_lines-Copies (suc n) i s to from fits apart =
    let F = s.front_buffer.address in
    let P = s.front_buffer_width_bytes in
    let B = s.back_buffer.address in
    let W = s.back_buffer.pixel_width in
    let (m₁, runs₁, v₁) =
      copy_pixels-Copies W 0 (F + i * P) (B + i * W * 4) s (omega (arith, to)) (omega (arith, from))
        (λ a b left right e.
          grind
            (arith, line_lt i (i + suc n) b W (omega arith) (omega (arith, right)), apart, e)) in
    let (m, runs, v) =
      swap_lines-Copies n (i + 1) (record s { pixels = m₁ }) to from fits (grind (arith, apart)) in
    (
      m,
      rw runs₁ runs,
      Copies_then v₁ v
          (λ q p (l, k, below, left, e, f). elim (split_first l n below) [
            | inl z ↦ inl (k, left, grind (arith, e, z), grind (arith, f, z))
            | inr (l', z, h) ↦ inr (l', k, h, left, grind (arith, e, z), grind (arith, f, z))
          ])
          (λ q p (k, left, e, f). (0, k, omega arith, left, grind (arith, e), grind (arith, f)))
          (λ q p (l, k, below, left, e, f).
            (l + 1, k, omega arith, left, grind (arith, e), grind (arith, f)))
          (λ q p p' (k, left, e, f) (l, k', below, left', e', f'). grind (
            arith,
            line_lt i (i + 1 + l) (4 * k) P (omega arith) (omega (arith, fits, left)),
            e,
            e',
          ))
          (λ q p p' (l, k, below, left, e, f) (k', left', e', f').
            grind (arith, line_lt (i + 1 + l) (i + suc n) k W (omega arith) left, apart, f, e')),
    )

-- `swap_bufs`, where neither buffer is null, a line of the screen has room for a line of the back
-- buffer and the back buffer ends below the screen, puts pixel `k` of each line of the back buffer
-- on the same line of the screen, for as many lines as the screen has, and changes no other pixel
-- of memory.
pub swap_bufs-Copies :
    (s : Video)
    → 0 < s.front_buffer.address
    → 0 < s.back_buffer.address
    → 4 * s.back_buffer.pixel_width ≤ s.front_buffer_width_bytes
    → s.back_buffer.address + 4 * (s.front_buffer.pixel_height * s.back_buffer.pixel_width)
      ≤ s.front_buffer.address
    → (m : Memory ℕ) × (swap_bufs s ≡ done tt (record s { pixels = m }))
      × Copies s.pixels m (
          OnScreen s.front_buffer.address s.front_buffer_width_bytes s.back_buffer.address
            s.back_buffer.pixel_width 0 s.front_buffer.pixel_height)
unfolding swap_bufs
swap_bufs-Copies s to from fits apart =
    swap_lines-Copies s.front_buffer.pixel_height 0 s to from fits (grind (arith, apart))
