-- ===== src/Targa/Steps.antt =====
-- The cursor of a run-length-encoded image in `put_targa` of kernel/video/processing.c: where
-- it stands when a number of pixels is drawn.
use black_diamond_os.Prelude.{
  ℕ, ◌+◌, ◌-◌, ◌*◌, ◌/◌, ◌%◌, ◌^◌, ◌<◌, ◌≡◌, ◌≢◌, refl, sym, ap, ◌∙◌, subst, inl, inr, true, false,
  Bool-cases, ltb, ◌==◌, eqb→eq, not_eqb→ne, eq→eqb, ne→not_eqb, ltb→lt, not_ltb→le, column, row_of,
  next_rows, columns_le, u32, if◌then◌else◌, arith,
}
use black_diamond_os.Targa.{TargaHeader, is_bottom_up, Cursor, line_end, advance, first_cursor}

-- An image has some pixels, and its sides are 16-bit numbers.
pub record HasPixels (h : TargaHeader) : Type 0 where
  pub some_column : 0 < h.width
  pub some_line : 0 < h.height
  pub narrow : h.width < 2 ^ 16
  pub low : h.height < 2 ^ 16

-- where the code draws the line that comes as number `r`
abbrev pub line_of : TargaHeader → ℕ → ℕ
line_of h r = if is_bottom_up h then h.height - r else r

-- The cursor stands at pixel number `t` of the image.
pub record IsAt (h : TargaHeader) (c : Cursor) (t : ℕ) : Type 0 where
  pub column : c.pixel_x ≡ t % h.width
  pub line : c.pixel_y ≡ line_of h (t / h.width)
  pub not_end : c.end ≡ false
  pub inside : t < h.height * h.width

split_number : (t w : ℕ) → 0 < w → t ≡ t / w * w + t % w
split_number t w pos = grind arith

pub mod_below : (t w : ℕ) → 0 < w → t % w < w
mod_below t w pos = omega arith

pub line_below : (t w n : ℕ) → 0 < w → t < n * w → t / w < n
line_below t w n pos l = elim (Bool-cases (ltb (t / w) n)) [
  | inl e ↦ ltb→lt (t / w) n e
  | inr e ↦ absurd (
      let past = columns_le n (t / w) w (not_ltb→le (t / w) n e) in
      omega (arith, past, split_number t w pos, l))
]

-- the next pixel in the same line, or in the next
next_in_line : (t w : ℕ) → 0 < w → t % w + 1 < w → ((t + 1) % w ≡ t % w + 1) × ((t + 1) / w ≡ t / w)
next_in_line t w pos l =
    let e : t + 1 ≡ t / w * w + (t % w + 1) = omega (arith, split_number t w pos) in
    (
      ap (λ (a : ℕ). a % w) e ∙ column w (t / w) (t % w + 1) l,
      ap (λ (a : ℕ). a / w) e ∙ row_of w (t / w) (t % w + 1) l,
    )

next_line : (t w : ℕ) → 0 < w → t % w + 1 ≡ w → ((t + 1) % w ≡ 0) × ((t + 1) / w ≡ t / w + 1)
next_line t w pos l =
    let e : t + 1 ≡ (t / w + 1) * w + 0 =
      omega (arith, split_number t w pos, next_rows (t / w) w, l) in
    (
      ap (λ (a : ℕ). a % w) e ∙ column w (t / w + 1) 0 pos,
      ap (λ (a : ℕ). a / w) e ∙ row_of w (t / w + 1) 0 pos,
    )

-- Once the end is noted it stays so.
pub advance-end : (h : TargaHeader) (c : Cursor) → c.end ≡ true → (advance h c).end ≡ true
advance-end h c ends = elim (Bool-cases (u32 (c.pixel_x + 1) == h.width)) [
  | inl full ↦ elim (Bool-cases (is_bottom_up h)) [
    | inl up ↦ rw (full, up, ends)
    | inr down ↦ rw (full, down, ends)
  ]
  | inr room ↦ rw (room, ends)
]

advance-within :
    (h : TargaHeader) (c : Cursor)
    → u32 (c.pixel_x + 1) ≢ h.width
    → advance h c ≡ record c { pixel_x = u32 (c.pixel_x + 1) }
advance-within h c room = rw (ne→not_eqb (u32 (c.pixel_x + 1)) h.width room)

advance-full :
    (h : TargaHeader) (c : Cursor)
    → u32 (c.pixel_x + 1) ≡ h.width
    → advance h c ≡ line_end h (record c { pixel_x = u32 (c.pixel_x + 1) })
advance-full h c full = rw (eq→eqb (u32 (c.pixel_x + 1)) h.width full)

last_test : (r n : ℕ) → r < n → (n - (r + 1) == 0) ≡ (r + 1 == n)
last_test r n l = elim (Bool-cases (r + 1 == n)) [
  | inl e ↦ eq→eqb (n - (r + 1)) 0 (omega (arith, eqb→eq (r + 1) n e)) ∙ sym e
  | inr e ↦ ne→not_eqb (n - (r + 1)) 0 (λ z. not_eqb→ne (r + 1) n e (omega (arith, l, z))) ∙ sym e
]

-- the cursor at the end of line `r`
line_end-next :
    (h : TargaHeader) (c : Cursor) (r : ℕ)
    → HasPixels h
    → c.pixel_y ≡ line_of h r
    → r < h.height
    → c.end ≡ false
    → line_end h c ≡ record { pixel_x = 0; pixel_y = line_of h (r + 1); end = r + 1 == h.height }
line_end-next h c r some_pixels line l not_end = elim (Bool-cases (is_bottom_up h)) [
  | inl up ↦
      let here : c.pixel_y ≡ h.height - r = rw up at line in
      let y : u32 (c.pixel_y + (2 ^ 32 - 1)) ≡ h.height - (r + 1) =
        omega (arith, here, l, some_pixels.low) in
      rw (up, y, not_end, last_test r h.height l)
  | inr down ↦
      let here : c.pixel_y ≡ r = rw down at line in
      let y : u32 (c.pixel_y + 1) ≡ r + 1 = omega (arith, here, l, some_pixels.low) in
      rw (down, y, not_end)
]

multiple_mod : (a w : ℕ) → 0 < w → a * w % w ≡ 0
multiple_mod a w pos = grind arith

multiple_div : (a w : ℕ) → 0 < w → a * w / w ≡ a
multiple_div a w pos = grind arith

-- A pixel further, the cursor stands at the next pixel of the image, or the end is noted when
-- there is none.
pub advance-IsAt :
    (h : TargaHeader) (c : Cursor) (t : ℕ)
    → HasPixels h
    → IsAt h c t
    → (t + 1 < h.height * h.width → IsAt h (advance h c) (t + 1))
      × (t + 1 ≡ h.height * h.width → (advance h c).end ≡ true)
advance-IsAt h c t some_pixels at =
    let w = h.width in
    let r = t / w in
    let pos = some_pixels.some_column in
    let below = mod_below t w pos in
    let l = line_below t w h.height pos at.inside in
    let x : u32 (c.pixel_x + 1) ≡ t % w + 1 = omega (arith, at.column, below, some_pixels.narrow) in
    elim (Bool-cases (t % w + 1 == w)) [
      | inl full ↦
          let e = eqb→eq (t % w + 1) w full in
          let (column', row') = next_line t w pos e in
          let behind : advance h c
              ≡ record { pixel_x = 0; pixel_y = line_of h (r + 1); end = r + 1 == h.height } =
            advance-full h c (x ∙ e)
            ∙ line_end-next h (record c { pixel_x = u32 (c.pixel_x + 1) }) r some_pixels at.line l
                at.not_end in
          let whole : t + 1 ≡ (r + 1) * w = omega (arith, split_number t w pos, next_rows r w, e) in
          (
            λ more.
                subst (λ (c' : Cursor). IsAt h c' (t + 1)) (sym behind)
                  (record {
                    column = sym column';
                    line = ap (line_of h) (sym row');
                    not_end =
                        ne→not_eqb (r + 1) h.height
                          (λ z. omega (arith, more, whole, ap (λ (a : ℕ). a * w) z));
                    inside = more;
                  }),
            λ z.
                ap (λ (c' : Cursor). c'.end) behind
                ∙ eq→eqb (r + 1) h.height
                    (sym row' ∙ ap (λ (a : ℕ). a / w) z ∙ multiple_div h.height w pos),
          )
      | inr room ↦
          let n = not_eqb→ne (t % w + 1) w room in
          let (column', row') = next_in_line t w pos (omega (arith, below, n)) in
          let behind = advance-within h c (λ z. n (sym x ∙ z)) in
          (
            λ more.
                subst (λ (c' : Cursor). IsAt h c' (t + 1)) (sym behind)
                  (record {
                    column = x ∙ sym column';
                    line = at.line ∙ ap (line_of h) (sym row');
                    not_end = at.not_end;
                    inside = more;
                  }),
            λ z.
                absurd
                  (omega (arith, column', ap (λ (a : ℕ). a % w) z, multiple_mod h.height w pos)),
          )
    ]

zero_mod : (w : ℕ) → 0 < w → 0 % w ≡ 0
zero_mod w pos = omega arith

zero_div : (w : ℕ) → 0 < w → 0 / w ≡ 0
zero_div w pos = grind arith

line_of-injective :
    (h : TargaHeader) (r r' : ℕ)
    → r < h.height
    → r' < h.height
    → line_of h r ≡ line_of h r'
    → r ≡ r'
line_of-injective h r r' l l' e = elim (Bool-cases (is_bottom_up h)) [
  | inl up ↦ let same : h.height - r ≡ h.height - r' = rw up at e in omega (arith, same, l, l')
  | inr down ↦ rw down at e
]

first_line : (h : TargaHeader) → (if is_bottom_up h then h.height else 0) ≡ line_of h 0
first_line h = elim (Bool-cases (is_bottom_up h)) [
  | inl up ↦ rw up (omega arith)
  | inr down ↦ rw down refl
]

-- The cursor starts at the first pixel.
pub first_cursor-IsAt : (h : TargaHeader) → HasPixels h → IsAt h (first_cursor h) 0
first_cursor-IsAt h some_pixels = record {
  column = sym (zero_mod h.width some_pixels.some_column);
  line = first_line h ∙ ap (line_of h) (sym (zero_div h.width some_pixels.some_column));
  not_end = refl;
  inside =
      omega (arith, columns_le 1 h.height h.width some_pixels.some_line, some_pixels.some_column);
}

-- Pixels at one place have one number.
pub place_number :
    (h : TargaHeader) (t t' : ℕ)
    → HasPixels h
    → t < h.height * h.width
    → t' < h.height * h.width
    → t % h.width ≡ t' % h.width
    → line_of h (t / h.width) ≡ line_of h (t' / h.width)
    → t ≡ t'
place_number h t t' some_pixels l l' e f =
    let pos = some_pixels.some_column in
    let same =
      line_of-injective h (t / h.width) (t' / h.width) (line_below t h.width h.height pos l)
        (line_below t' h.width h.height pos l') f in
    split_number t h.width pos
    ∙ ap (λ (a : ℕ). a * h.width + t % h.width) same
    ∙ ap (λ (a : ℕ). t' / h.width * h.width + a) e
    ∙ sym (split_number t' h.width pos)
