-- ===== src/Physical/Split.antt =====
-- `_make_new_block`: the new block takes the front of the free bytes behind the selected one.
use black_diamond_os.Prelude.{
  ℕ, ◌+◌, ◌-◌, ◌≤◌, ◌<◌, ◌≡◌, refl, List, [], ◌∷◌, ◌++◌, false, ◌∙◌, sym, arith, ◌==◌, ne→not_eqb,
  eq→eqb, u64, ◌^◌,
}
use black_diamond_os.Machine.{Memory, update, done}
use black_diamond_os.Physical.{Block, Phys, load, store, header_size, make_new_block}
use black_diamond_os.Physical.Access.{load-done, store-done}
use black_diamond_os.Physical.Regions.{Region, All, All-mono, end_of, Spaced}
use black_diamond_os.Physical.Chain.{
  Linked, Linked_split, Linked-append, Represents, header, first_of, last_of, last_of-append,
  first_of-append, frame, Spaced-above, Spaced-lt, Spaced-split, Spaced-replace,
}

-- the selected block afterwards, and the new one
abbrev pub shrunk : Region → Region
shrunk r = record r { free = 0 }

abbrev pub carved : ℕ → Region → Region
carved size r = record {
  addr = r.addr + r.size + header_size;
  size = size - header_size;
  free = r.free - size;
}

-- memory afterwards
abbrev pub relinked : Memory Block → Region → List Region → Memory Block
relinked m new [] = m
relinked m new (q ∷ qs) = update m q.addr (header new.addr q (first_of qs 0))

abbrev split_memory : Memory Block → ℕ → ℕ → Region → List Region → Memory Block
split_memory m size prev r after =
    let new = carved size r in
    update (relinked (update m new.addr (header r.addr new (first_of after 0))) new after) r.addr
      (header prev (shrunk r) new.addr)

-- what the code reads and tests on its way
record Site (s : Phys) (size prev : ℕ) (r : Region) (after : List Region) : Type 0 where
  here : s.blocks r.addr ≡ header prev r (first_of after 0)
  rest : Linked s.blocks r.addr after 0
  last : s.final_block ≡ last_of r.addr after
  pos : 0 < r.addr
  room : Spaced (end_of r) after
  header_fits : header_size ≤ size
  fits : size ≤ r.free

make_last :
    (s : Phys) (size prev : ℕ) (r : Region)
    → Site s size prev r []
    → make_new_block size r.addr s
      ≡ done (carved size r).addr (record s {
        blocks = split_memory s.blocks size prev r [];
        final_block = (carved size r).addr;
      })
unfolding make_new_block load store
make_last s size prev r v = ground arith

-- the last block of a spaced list lies above its lower bound
pub last-above :
    (lo : ℕ) (q : Region) (qs : List Region) → Spaced lo (q ∷ qs) → lo ≤ last_of q.addr qs
last-above lo q [] sp = sp.0
last-above lo q (x ∷ xs) sp = omega (arith, last-above (end_of q) x xs sp.2)

-- the 64-bit arithmetic does not wrap
no_wrap :
    {s : Phys} {size prev : ℕ} {r : Region} (after : List Region)
    → Site s size prev r after
    → end_of r < 2 ^ 64
no_wrap {r} after v = Spaced-lt (end_of r) after v.room

make_middle :
    (s : Phys) (size prev : ℕ) (r q : Region) (qs : List Region)
    → Site s size prev r (q ∷ qs)
    → make_new_block size r.addr s
      ≡ done (carved size r).addr (record s { blocks = split_memory s.blocks size prev r (q ∷ qs) })
unfolding make_new_block
make_middle s size prev r q qs v =
    let new = carved size r in
    let addr_eq : u64 (r.addr + r.size + header_size) ≡ new.addr =
      omega (arith, no_wrap (q ∷ qs) v) in
    let size_eq : u64 (size + 2 ^ 64 - header_size) ≡ new.size =
      omega (arith, no_wrap (q ∷ qs) v) in
    let free_eq : u64 (r.free + 2 ^ 64 - size) ≡ new.free = omega (arith, no_wrap (q ∷ qs) v) in
    let not_final : (r.addr == s.final_block) ≡ false =
      ne→not_eqb _ _ (omega (arith, last-above (end_of r) q qs v.room, v.last)) in
    rw (load-done r.addr s v.pos, v.here, addr_eq)
      (rw (store-done new.addr s (omega arith), not_final)
        (rw (store-done q.addr _ (omega arith)) (
          rw (store-done r.addr _ v.pos) (
            rw (
              size_eq,
              free_eq,
              ne→not_eqb q.addr new.addr (omega arith),
              v.rest.0,
              ne→not_eqb r.addr q.addr (omega arith),
              ne→not_eqb r.addr new.addr (omega arith),
              v.here,
            )))))

module _ (m : Memory Block) (size prev : ℕ) (r : Region) (h : header_size ≤ size)
    (f : size ≤ r.free) where
  split_below :
      (after : List Region) (a : ℕ)
      → a < r.addr
      → Spaced (end_of r) after
      → split_memory m size prev r after a ≡ m a
  split_below [] a h sp = ground arith
  split_below (q ∷ qs) a h sp = ground arith

  split_here :
      (after : List Region)
      → split_memory m size prev r after r.addr ≡ header prev (shrunk r) (carved size r).addr
  split_here after = rw (eq→eqb r.addr r.addr refl)

  split_carved :
      (after : List Region)
      → Spaced (end_of r) after
      → split_memory m size prev r after (carved size r).addr
        ≡ header r.addr (carved size r) (first_of after 0)
  split_carved [] sp = ground arith
  split_carved (q ∷ qs) sp = ground arith

  split_after :
      (after : List Region)
      → Spaced (end_of r) after
      → Linked m r.addr after 0
      → Linked (split_memory m size prev r after) (carved size r).addr after 0
  split_after [] sp l = tt
  split_after (q ∷ qs) sp l = (
    rw (ne→not_eqb q.addr r.addr (omega arith), eq→eqb q.addr q.addr refl),
    frame m _ q.addr 0 qs l.1
        (All-mono _ _ qs (λ a k. ground arith) (Spaced-above (end_of q) qs sp.2)),
  )

  split_Linked :
      (before after : List Region)
      → prev ≡ last_of 0 before
      → All (λ (q : Region). end_of q ≤ r.addr) before
      → Spaced (end_of r) after
      → Linked m 0 before r.addr
      → Linked m r.addr after 0
      → Linked (split_memory m size prev r after) 0 (before ++ (shrunk r ∷ carved size r ∷ after)) 0
  split_Linked before after e below sp front back =
      Linked-append _ 0 before (shrunk r) (carved size r ∷ after) 0
        (frame m _ 0 r.addr before front
          (All-mono _ _ before (λ q k. split_below after q.addr (omega arith) sp) below))
        (rw (← e) (split_here after, (split_carved after sp, split_after after sp back)))

-- Where the regions lie after a split.
split-Spaced :
    (size : ℕ) (before : List Region) (r : Region) (after : List Region)
    → Spaced 0 (before ++ (r ∷ after))
    → header_size ≤ size
    → size ≤ r.free
    → Spaced 0 (before ++ (shrunk r ∷ carved size r ∷ after))
split-Spaced size before r after sp h f =
    let (below, low, pos, above) = Spaced-split 0 before r after sp in
    let same : end_of r ≡ end_of (carved size r) = omega arith in
    Spaced-replace 0 before r after (shrunk r ∷ carved size r ∷ after) sp
      (omega arith, pos, (omega arith, omega arith, rw same at above))

Represents-Site :
    (s : Phys) (size : ℕ) (before : List Region) (r : Region) (after : List Region)
    → Represents s (before ++ (r ∷ after))
    → header_size ≤ size
    → size ≤ r.free
    → Site s size (last_of 0 before) r after
Represents-Site s size before r after v h f =
    let (below, low, pos, above) = Spaced-split 0 before r after v.spaced in
    let (front, back) = Linked_split s.blocks 0 before r after 0 v.linked in
    record {
      here = back.0;
      rest = back.1;
      last = v.final ∙ last_of-append 0 before (r ∷ after);
      pos = pos;
      room = above;
      header_fits = h;
      fits = f;
    }

make_new_block-done :
    (s : Phys) (size : ℕ) (before : List Region) (r : Region) (after : List Region)
    → Site s size (last_of 0 before) r after
    → (s' : Phys) × (make_new_block size r.addr s ≡ done (carved size r).addr s')
      × (s'.blocks ≡ split_memory s.blocks size (last_of 0 before) r after)
      × (s'.first_block ≡ s.first_block)
      × (s'.final_block ≡ last_of (carved size r).addr after)
make_new_block-done s size before r [] v = (_, make_last s size _ r v, refl, refl, refl)
make_new_block-done s size before r (q ∷ qs) v =
    (_, make_middle s size _ r q qs v, refl, refl, v.last)

pub make_new_block-Represents :
    (s : Phys) (size : ℕ) (before : List Region) (r : Region) (after : List Region)
    → Represents s (before ++ (r ∷ after))
    → header_size ≤ size
    → size ≤ r.free
    → (s' : Phys) × (make_new_block size r.addr s ≡ done (carved size r).addr s')
      × Represents s' (before ++ (shrunk r ∷ carved size r ∷ after))
make_new_block-Represents s size before r after v h f =
    let (below, low, pos, above) = Spaced-split 0 before r after v.spaced in
    let (front, back) = Linked_split s.blocks 0 before r after 0 v.linked in
    let (s', runs, memory, first, final) =
      make_new_block-done s size before r after (Represents-Site s size before r after v h f) in
    (
      s',
      runs,
      record {
        linked =
            rw memory
              (split_Linked s.blocks size _ r h f before after refl below above front back.1);
        first =
            first
            ∙ v.first
            ∙ first_of-append before r after 0
            ∙ sym (first_of-append before (shrunk r) (carved size r ∷ after) 0);
        final = final ∙ sym (last_of-append 0 before (shrunk r ∷ carved size r ∷ after));
        spaced = split-Spaced size before r after v.spaced h f;
      },
    )
