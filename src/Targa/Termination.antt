-- ===== src/Targa/Termination.antt =====
-- `put_targa` of kernel/video/processing.c ends on any run-length-encoded data.
use black_diamond_os.Prelude.{
  ℕ, zero, suc, ◌+◌, ◌*◌, ◌<◌, ◌≡◌, refl, ◌∙◌, subst, ◌⊎◌, inl, inr, true, Bool-cases, ◌==◌, eqb→eq,
  not_eqb→ne, List, [], ◌∷◌, length, bit_and, u16, arith,
}
use black_diamond_os.Machine.{done, Memory}
use black_diamond_os.Video.{Video}
use black_diamond_os.Video.Clip.{SameOutside, put_pixel-SameOutside}
use black_diamond_os.Targa.{
  TargaHeader, Cursor, advance, put_at, Encoding, put_packets, first_cursor, put_compressed,
}
use black_diamond_os.Targa.Steps.{HasPixels, IsAt, advance-end, advance-IsAt, first_cursor-IsAt}
use black_diamond_os.Targa.Sequence.{put_list, copies, stored, put_run-list, put_raw-list}
use black_diamond_os.Targa.Packets.{length-copies, length-stored, put_packets-run, put_packets-raw}

-- The end is noted, or the cursor stands at pixel number `t`.
abbrev Progress : TargaHeader → Cursor → ℕ → Type 0
Progress h c t = (c.end ≡ true) ⊎ IsAt h c t

advance-Progress :
    (h : TargaHeader) (c : Cursor) (t : ℕ)
    → HasPixels h
    → Progress h c t
    → Progress h (advance h c) (t + 1)
advance-Progress h c t some_pixels (inl ends) = inl (advance-end h c ends)
advance-Progress h c t some_pixels (inr at) =
    let (on, off) = advance-IsAt h c t some_pixels at in
    elim (Bool-cases (t + 1 == h.height * h.width)) [
      | inl last ↦ inl (off (eqb→eq (t + 1) (h.height * h.width) last))
      | inr more ↦ inr (on (omega (arith, at.inside, not_eqb→ne (t + 1) (h.height * h.width) more)))
    ]

put_list-SameOutside :
    (h : TargaHeader) (x y t : ℕ) (vs : List ℕ) (c : Cursor) (s : Video)
    → 0 < s.active_buffer.address
    → HasPixels h
    → Progress h c t
    → (c' : Cursor) × (m : Memory ℕ) × (put_list h x y vs c s ≡ done c' (record s { pixels = m }))
      × Progress h c' (t + length vs)
      × SameOutside s.active_buffer s.pixels m
unfolding put_at
put_list-SameOutside h x y t [] c s pos some_pixels at =
    (c, s.pixels, refl, subst (Progress h c) (omega arith) at, λ q n. refl)
put_list-SameOutside h x y t (v ∷ vs) c s pos some_pixels at =
    let (ok, m₁, runs₁, same₁) =
      put_pixel-SameOutside (u16 (c.pixel_x + x)) (u16 (c.pixel_y + y)) v s pos in
    let (c', m, runs, at', same) =
      put_list-SameOutside h x y (t + 1) vs (advance h c) (record s { pixels = m₁ }) pos some_pixels
        (advance-Progress h c t some_pixels at) in
    (c', m, rw runs₁ runs, subst (Progress h c') (omega arith) at', λ q n. same q n ∙ same₁ q n)

put_packets-SameOutside :
    (fuel : ℕ) (b : Memory ℕ) (e : Encoding) (h : TargaHeader) (x y p t : ℕ) (c : Cursor)
    (s : Video)
    → 0 < s.active_buffer.address
    → HasPixels h
    → Progress h c t
    → 0 < fuel
    → h.height * h.width < fuel + t
    → (m : Memory ℕ) × (put_packets fuel b e h x y p c s ≡ done tt (record s { pixels = m }))
      × SameOutside s.active_buffer s.pixels m
unfolding put_packets
put_packets-SameOutside zero b e h x y p t c s pos some_pixels at some_fuel enough =
    absurd (omega (arith, some_fuel))
put_packets-SameOutside (suc fuel) b e h x y p t c s pos some_pixels (inl ends) some_fuel enough =
    (s.pixels, rw ends, λ q n. refl)
put_packets-SameOutside (suc fuel) b e h x y p t c s pos some_pixels (inr at) some_fuel enough =
    elim (Bool-cases (bit_and (b p) 0x80 == 0)) [
      | inl raw ↦
          let vs = stored e (b p + 1) (p + 1) in
          let count = length-stored e (b p + 1) (p + 1) in
          let (c₁, m₁, runs₁, at₁, same₁) =
            put_list-SameOutside h x y t vs c s pos some_pixels (inr at) in
          let (m, runs, same) =
            put_packets-SameOutside fuel b e h x y (p + 1 + (b p + 1) * e.stride) (t + length vs) c₁
              (record s { pixels = m₁ }) pos some_pixels at₁ (omega (arith, enough, at.inside))
              (omega (arith, enough, count)) in
          (
            m,
            put_packets-raw fuel b e h x y p c c₁ s (record s { pixels = m₁ }) at.not_end
                  (eqb→eq (bit_and (b p) 0x80) 0 raw)
                  (put_raw-list e h x y (b p + 1) (p + 1) c s ∙ runs₁)
                ∙ runs,
            λ q n. same q n ∙ same₁ q n,
          )
      | inr run ↦
          let n = bit_and (b p) 0x7F + 1 in
          let vs = copies n (e.colour (p + 1)) in
          let count = length-copies n (e.colour (p + 1)) in
          let (c₁, m₁, runs₁, at₁, same₁) =
            put_list-SameOutside h x y t vs c s pos some_pixels (inr at) in
          let (m, runs, same) =
            put_packets-SameOutside fuel b e h x y (p + 1 + e.stride) (t + length vs) c₁
              (record s { pixels = m₁ }) pos some_pixels at₁ (omega (arith, enough, at.inside))
              (omega (arith, enough, count)) in
          (
            m,
            put_packets-run fuel b e h x y p c c₁ s (record s { pixels = m₁ }) at.not_end
                  (not_eqb→ne (bit_and (b p) 0x80) 0 run)
                  (put_run-list h x y (e.colour (p + 1)) n c s ∙ runs₁)
                ∙ runs,
            λ q n. same q n ∙ same₁ q n,
          )
    ]

-- The packet loop of `put_targa`, for an image with pixels, with fuel above their number, on any
-- bytes and at any place, ends, and changes no memory outside the pixels of the active buffer,
-- which is not at null.
pub put_compressed-SameOutside :
    (fuel : ℕ) (b : Memory ℕ) (e : Encoding) (h : TargaHeader) (x y p : ℕ) (s : Video)
    → 0 < s.active_buffer.address
    → HasPixels h
    → h.height * h.width < fuel
    → (m : Memory ℕ) × (put_compressed fuel b e h x y p s ≡ done 1 (record s { pixels = m }))
      × SameOutside s.active_buffer s.pixels m
unfolding put_compressed
put_compressed-SameOutside fuel b e h x y p s pos some_pixels enough =
    let (m, runs, same) =
      put_packets-SameOutside fuel b e h x y p 0 (first_cursor h) s pos some_pixels
        (inr (first_cursor-IsAt h some_pixels)) (omega (arith, enough)) (omega (arith, enough)) in
    (m, rw runs, same)
