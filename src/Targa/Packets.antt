-- ===== src/Targa/Packets.antt =====
-- `put_targa` of kernel/video/processing.c on a run-length-encoded image.
use black_diamond_os.Prelude.{
  ℕ, zero, suc, ◌+◌, ◌*◌, ◌<◌, ◌≤◌, ◌≡◌, ◌≢◌, refl, sym, ap, ◌∙◌, false, eq→eqb, ne→not_eqb, List,
  [], ◌∷◌, ◌++◌, length, length-append, bit_and, arith,
}
use black_diamond_os.Machine.{
  Outcome, done, panic, fault, stuck, Proc, Memory, pure, and_then, and_then-cong,
}
use black_diamond_os.Video.{Video}
use black_diamond_os.Targa.{
  TargaHeader, Cursor, put_at, put_run, Encoding, put_raw, put_packets, first_cursor,
  put_compressed,
}
use black_diamond_os.Targa.Plots.{Plots}
use black_diamond_os.Targa.Steps.{first_cursor-IsAt}
use black_diamond_os.Targa.Sequence.{
  InSequence, put_list, copies, stored, put_run-list, put_raw-list, Reached, Fits, put_list-Plots,
}

-- Packets that hold the colours of a list stand at an address.
pub data Packets (m : Memory ℕ) (e : Encoding) : ℕ → List ℕ → Type 0 where
  no_packets : (p : ℕ) → Packets m e p []
  run_packet :
      (p : ℕ) (vs : List ℕ)
      → bit_and (m p) 0x80 ≢ 0
      → Packets m e (p + 1 + e.stride) vs
      → Packets m e p (copies (bit_and (m p) 0x7F + 1) (e.colour (p + 1)) ++ vs)
  raw_packet :
      (p : ℕ) (vs : List ℕ)
      → bit_and (m p) 0x80 ≡ 0
      → Packets m e (p + 1 + (m p + 1) * e.stride) vs
      → Packets m e p (stored e (m p + 1) (p + 1) ++ vs)

pub length-copies : (n v : ℕ) → length (copies n v) ≡ n
length-copies zero v = refl
length-copies (suc n) v = ap (λ (a : ℕ). suc a) (length-copies n v)

pub length-stored : (e : Encoding) (n p : ℕ) → length (stored e n p) ≡ n
length-stored e zero p = refl
length-stored e (suc n) p = ap (λ (a : ℕ). suc a) (length-stored e n (p + e.stride))

then_again :
    {S A B C : Type 0} (o : Outcome S A) (f : A → Proc S B) (g : B → Proc S C)
    → and_then o (λ a s. and_then (f a s) g) ≡ and_then (and_then o f) g
then_again (done a s) f g = refl
then_again (panic msg) f g = refl
then_again fault f g = refl
then_again stuck f g = refl

put_list-append :
    (h : TargaHeader) (x y : ℕ) (vs ws : List ℕ) (c : Cursor) (s : Video)
    → put_list h x y (vs ++ ws) c s ≡ and_then (put_list h x y vs c s) (put_list h x y ws)
put_list-append h x y [] ws c s = refl
put_list-append h x y (v ∷ vs) ws c s =
    and_then-cong (put_at h x y c v s) (put_list h x y (vs ++ ws))
      (λ c' s'. and_then (put_list h x y vs c' s') (put_list h x y ws))
      (λ c' s'. put_list-append h x y vs ws c' s')
    ∙ then_again (put_at h x y c v s) (put_list h x y vs) (put_list h x y ws)

-- what a packet leaves to the others
record After (h : TargaHeader) (x y t : ℕ) (vs ws : List ℕ) (c : Cursor) (s s' : Video)
    : Type 0 where
  cursor : Cursor
  middle : Memory ℕ
  first : put_list h x y vs c s ≡ done cursor (record s { pixels = middle })
  reached : Reached h cursor (t + length vs)
  rest : (c' : Cursor) × (put_list h x y ws cursor (record s { pixels = middle }) ≡ done c' s')

split_list :
    (h : TargaHeader) (x y t : ℕ) (vs ws : List ℕ) (c c' : Cursor) (s s' : Video)
    → 0 < s.active_buffer.address
    → Fits h x y
    → Reached h c t
    → t + length vs ≤ h.height * h.width
    → put_list h x y (vs ++ ws) c s ≡ done c' s'
    → After h x y t vs ws c s s'
split_list h x y t vs ws c c' s s' pos fits at most runs =
    let (c₁, m, first, reached, _) = put_list-Plots h x y t vs c s pos fits at most in
    record {
      cursor = c₁;
      middle = m;
      first = first;
      reached = reached;
      rest = (
        c',
        sym (ap (λ (o : Outcome Video Cursor). and_then o (put_list h x y ws)) first)
            ∙ sym (put_list-append h x y vs ws c s)
            ∙ runs,
      );
    }

module _ (fuel : ℕ) (m : Memory ℕ) (e : Encoding) (h : TargaHeader) (x y p : ℕ) (c c₁ : Cursor)
    (s s₁ : Video) where
  pub put_packets-run :
      c.end ≡ false
      → bit_and (m p) 0x80 ≢ 0
      → put_run h x y (e.colour (p + 1)) (bit_and (m p) 0x7F + 1) c s ≡ done c₁ s₁
      → put_packets (suc fuel) m e h x y p c s ≡ put_packets fuel m e h x y (p + 1 + e.stride) c₁ s₁
  unfolding put_packets
  put_packets-run not_end is_run runs =
      simp not_end (rw (ne→not_eqb (bit_and (m p) 0x80) 0 is_run, runs))

  pub put_packets-raw :
      c.end ≡ false
      → bit_and (m p) 0x80 ≡ 0
      → put_raw e h x y (m p + 1) (p + 1) c s ≡ done c₁ s₁
      → put_packets (suc fuel) m e h x y p c s
        ≡ put_packets fuel m e h x y (p + 1 + (m p + 1) * e.stride) c₁ s₁
  unfolding put_packets
  put_packets-raw not_end is_raw runs =
      simp not_end (rw (eq→eqb (bit_and (m p) 0x80) 0 is_raw, runs))

put_packets-list :
    (fuel : ℕ) (m : Memory ℕ) (e : Encoding) (h : TargaHeader) (x y p t : ℕ) (vs : List ℕ)
    (c c' : Cursor) (s s' : Video)
    → Packets m e p vs
    → 0 < s.active_buffer.address
    → Fits h x y
    → Reached h c t
    → t + length vs ≡ h.height * h.width
    → length vs < fuel
    → put_list h x y vs c s ≡ done c' s'
    → put_packets fuel m e h x y p c s ≡ done tt s'
unfolding put_packets
put_packets-list zero m e h x y p t vs c c' s s' ps pos fits at whole enough runs =
    absurd (omega (arith, enough))
put_packets-list (suc fuel) m e h x y p t vs c c' s s' (no_packets _) pos fits at whole enough
      runs =
    rw (at.1 (omega (arith, whole)))
      (ap (λ (o : Outcome Video Cursor). and_then o (λ _. pure tt)) runs)
put_packets-list (suc fuel) m e h x y p t vs c c' s s' (run_packet _ ws is_run ps) pos fits at whole
      enough runs =
    let vs = copies (bit_and (m p) 0x7F + 1) (e.colour (p + 1)) in
    let count = length-copies (bit_and (m p) 0x7F + 1) (e.colour (p + 1)) in
    let all = length-append vs ws in
    let here = at.0 (omega (arith, whole, all, count)) in
    let a = split_list h x y t vs ws c c' s s' pos fits at (omega (arith, whole, all)) runs in
    put_packets-run fuel m e h x y p c a.cursor s (record s { pixels = a.middle }) here.not_end
      is_run (put_run-list h x y (e.colour (p + 1)) (bit_and (m p) 0x7F + 1) c s ∙ a.first)
    ∙ put_packets-list fuel m e h x y (p + 1 + e.stride) (t + length vs) ws a.cursor a.rest.0
        (record s { pixels = a.middle }) s' ps pos fits a.reached (omega (arith, whole, all))
        (omega (arith, enough, all, count)) a.rest.1
put_packets-list (suc fuel) m e h x y p t vs c c' s s' (raw_packet _ ws is_raw ps) pos fits at whole
      enough runs =
    let vs = stored e (m p + 1) (p + 1) in
    let count = length-stored e (m p + 1) (p + 1) in
    let all = length-append vs ws in
    let here = at.0 (omega (arith, whole, all, count)) in
    let a = split_list h x y t vs ws c c' s s' pos fits at (omega (arith, whole, all)) runs in
    put_packets-raw fuel m e h x y p c a.cursor s (record s { pixels = a.middle }) here.not_end
      is_raw (put_raw-list e h x y (m p + 1) (p + 1) c s ∙ a.first)
    ∙ put_packets-list fuel m e h x y (p + 1 + (m p + 1) * e.stride) (t + length vs) ws a.cursor
        a.rest.0 (record s { pixels = a.middle }) s' ps pos fits a.reached
        (omega (arith, whole, all)) (omega (arith, enough, all, count)) a.rest.1

-- The packet loop of `put_targa` on a compressed image whose packets hold one colour for each
-- pixel, with fuel above the number of pixels, at a place where no coordinate passes 16 bits,
-- ends, and draws the pixels in their order, line by line, and no others: a top-down image from
-- line 0 on, a bottom-up image from line `height` up to line 1.
pub put_compressed-Plots :
    (fuel : ℕ) (m : Memory ℕ) (e : Encoding) (h : TargaHeader) (x y p : ℕ) (vs : List ℕ) (s : Video)
    → Packets m e p vs
    → 0 < s.active_buffer.address
    → Fits h x y
    → length vs ≡ h.height * h.width
    → length vs < fuel
    → (m' : Memory ℕ) × (put_compressed fuel m e h x y p s ≡ done 1 (record s { pixels = m' }))
      × Plots (InSequence h s.active_buffer x y 0 vs) s.pixels m'
unfolding put_compressed
put_compressed-Plots fuel m e h x y p vs s ps pos fits whole enough =
    let start : Reached h (first_cursor h) 0 = (
      λ _. first_cursor-IsAt h fits.some_pixels,
      λ z. absurd (omega (arith, z, (first_cursor-IsAt h fits.some_pixels).inside)),
    ) in
    let (c', m', runs, _, v) =
      put_list-Plots h x y 0 vs (first_cursor h) s pos fits start (omega (arith, whole)) in
    (
      m',
      rw (
          put_packets-list fuel m e h x y p 0 vs (first_cursor h) c' s (record s { pixels = m' }) ps
            pos fits start (omega (arith, whole)) enough runs),
      v,
    )
