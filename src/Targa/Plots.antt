-- ===== src/Targa/Plots.antt =====
-- Pixels that are given colours, each at its place in the active buffer: what `put_targa` of
-- kernel/video/processing.c draws.
use black_diamond_os.Prelude.{
  ℕ, ◌+◌, ◌*◌, ◌/◌, ◌%◌, column, row_of, ◌<◌, ◌≤◌, ◌≡◌, refl, sym, ap, ◌∙◌, ◌⊎◌, inl, inr, Bool,
  true, false, eq→eqb, ne→not_eqb, arith,
}
use black_diamond_os.Machine.{done, Memory, update}
use black_diamond_os.Video.{Video, Framebuffer, pixel_at, put_pixel}
use black_diamond_os.Video.Clip.{put_pixel-inside, put_pixel-outside, inside_or_not}

-- From the pixels `m` to `m'`: each place has its new colour, and no other pixel changed. `Hit`
-- relates the addresses of the places to their colours.
pub record Plots (Hit : ℕ → ℕ → Type 0) (m m' : Memory ℕ) : Type 0 where
  pub inked : (q c : ℕ) → Hit q c → m' q ≡ c
  pub kept : (q : ℕ) → ((c : ℕ) → ¬ Hit q c) → m' q ≡ m q

-- a pixel at a place of the buffer that is inside of it
abbrev pub AtPlace : Framebuffer → ℕ → ℕ → ℕ → ℕ → ℕ → Type 0
AtPlace b x y colour q c =
    (x < b.pixel_width) × (y < b.pixel_height) × (q ≡ pixel_at b x y) × (c ≡ colour)

-- Different places have different addresses.
pixel_at-injective :
    (b : Framebuffer) (x y x' y' : ℕ)
    → x < b.pixel_width
    → x' < b.pixel_width
    → pixel_at b x y ≡ pixel_at b x' y'
    → (x ≡ x') × (y ≡ y')
pixel_at-injective b x y x' y' l l' e =
    let same : y * b.pixel_width + x ≡ y' * b.pixel_width + x' = omega (arith, e) in
    let w = b.pixel_width in
    (
      sym (column w y x l) ∙ ap (λ (a : ℕ). a % w) same ∙ column w y' x' l',
      sym (row_of w y x l) ∙ ap (λ (a : ℕ). a / w) same ∙ row_of w y' x' l',
    )

-- Pixels at one address are at one place.
pub AtPlace-unique :
    (b : Framebuffer) (x y x' y' colour colour' q c c' : ℕ)
    → AtPlace b x y colour q c
    → AtPlace b x' y' colour' q c'
    → (x ≡ x') × (y ≡ y')
AtPlace-unique b x y x' y' colour colour' q c c' (l, _, e, _) (l', _, e', _) =
    pixel_at-injective b x y x' y' l l' (sym e ∙ e')

-- The place of a pixel may be computed in another way.
pub AtPlace-at :
    (b : Framebuffer) (x x' y y' colour colour' q c : ℕ)
    → x ≡ x'
    → y ≡ y'
    → colour ≡ colour'
    → AtPlace b x y colour q c
    → AtPlace b x' y' colour' q c
AtPlace-at b x x' y y' colour colour' q c e f g h = rw (sym e, sym f, sym g) h

pub nothing-Plots : (Hit : ℕ → ℕ → Type 0) (m : Memory ℕ) → ((q c : ℕ) → ¬ Hit q c) → Plots Hit m m
nothing-Plots Hit m none = record { inked = λ q c h. absurd (none q c h); kept = λ q n. refl }

-- one drawing after another that does not draw over it
pub Plots-then :
    {H₁ H₂ H : ℕ → ℕ → Type 0} {m₁ m₂ m₃ : Memory ℕ}
    → Plots H₁ m₁ m₂
    → Plots H₂ m₂ m₃
    → ((q c : ℕ) → H q c → H₁ q c ⊎ H₂ q c)
    → ((q c : ℕ) → H₁ q c → H q c)
    → ((q c : ℕ) → H₂ q c → H q c)
    → ((q c c' : ℕ) → H₁ q c → ¬ H₂ q c')
    → Plots H m₁ m₃
Plots-then v w split first second apart = record {
  inked = λ q c h. elim (split q c h) [
    | inl a ↦ w.kept q (λ c' b. apart q c c' a b) ∙ v.inked q c a
    | inr b ↦ w.inked q c b
  ];
  kept = λ q n. w.kept q (λ c b. n c (second q c b)) ∙ v.kept q (λ c a. n c (first q c a));
}

not_both : (x y w h : ℕ) → x < w → y < h → ¬ ((w ≤ x) ⊎ (h ≤ y))
not_both x y w h left low (inl e) = omega (arith, left, e)
not_both x y w h left low (inr e) = omega (arith, low, e)

pub put_pixel-Plots :
    (x y colour : ℕ) (s : Video)
    → 0 < s.active_buffer.address
    → (ok : Bool) × (m : Memory ℕ) × (put_pixel x y colour s ≡ done ok (record s { pixels = m }))
      × Plots (AtPlace s.active_buffer x y colour) s.pixels m
put_pixel-Plots x y colour s pos =
    let b = s.active_buffer in
    let p = pixel_at b x y in
    elim (inside_or_not x y b.pixel_width b.pixel_height) [
      | inl (left, low) ↦ (
        true,
        update s.pixels p colour,
        put_pixel-inside x y colour s pos left low,
        record {
          inked = λ q c (_, _, e, f). rw (eq→eqb q p e) (sym f);
          kept = λ q n. rw (ne→not_eqb q p (λ e. n colour (left, low, e, refl)));
        },
      )
      | inr out ↦ (
        false,
        s.pixels,
        put_pixel-outside x y colour s out,
        nothing-Plots (AtPlace b x y colour) s.pixels
            (λ q c (left, low, _, _). not_both x y b.pixel_width b.pixel_height left low out),
      )
    ]
