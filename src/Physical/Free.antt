-- ===== src/Physical/Free.antt =====
-- `phys_free`: a block and the free bytes behind it go to the block before it.
use black_diamond_os.Prelude.{
  ℕ, ◌+◌, ◌-◌, ◌≤◌, ◌<◌, ◌^◌, ◌≡◌, refl, sym, ◌∙◌, false, List, [], ◌∷◌, ◌++◌, arith, u64, ◌==◌,
  ne→not_eqb, eq→eqb,
}
use black_diamond_os.Machine.{Memory, update, done}
use black_diamond_os.Physical.{Block, Phys, header_size, phys_free}
use black_diamond_os.Physical.Access.{load-done, store-done, check-done}
use black_diamond_os.Physical.Regions.{Region, All, All-mono, end_of, Spaced}
use black_diamond_os.Physical.Chain.{
  Linked, Linked_split, Linked-append, Represents, header, first_of, last_of, last_of-append,
  first_of-append, frame, Spaced-above, Spaced-lt, Spaced-split, Spaced-replace,
}
use black_diamond_os.Physical.Split.{relinked, last-above}

abbrev pub merged : Region → Region → Region
merged p r = record p { free = p.free + (r.size + header_size + r.free) }

-- memory afterwards; the two writes to the block before are kept apart, as in the code
abbrev free_memory : Memory Block → ℕ → Region → Region → List Region → Memory Block
free_memory m prev p r after =
    update (update (relinked m p after) p.addr (header prev p (first_of after 0))) p.addr
      (header prev (merged p r) (first_of after 0))

record Site (s : Phys) (prev : ℕ) (p r : Region) (after : List Region) : Type 0 where
  before : s.blocks p.addr ≡ header prev p r.addr
  here : s.blocks r.addr ≡ header p.addr r (first_of after 0)
  rest : Linked s.blocks r.addr after 0
  last : s.final_block ≡ last_of r.addr after
  pos : 0 < p.addr
  apart : end_of p ≤ r.addr
  room : Spaced (end_of r) after

module _ (s : Phys) (prev : ℕ) (p r : Region) where
  free_eq :
      end_of r < 2 ^ 64
      → end_of p ≤ r.addr
      → u64 (p.free + (r.size + header_size + r.free)) ≡ (merged p r).free
  free_eq h k = omega arith

  free_last :
      Site s prev p r []
      → phys_free (r.addr + header_size) s
        ≡ done tt (record s { blocks = free_memory s.blocks prev p r []; final_block = p.addr })
  unfolding phys_free
  free_last v =
      let ptr : u64 (r.addr + header_size + 2 ^ 64 - header_size) ≡ r.addr =
        omega (arith, v.room) in
      let pos : 0 < r.addr = omega (arith, v.pos, v.apart) in
      let other : (r.addr == p.addr) ≡ false = ne→not_eqb r.addr p.addr (omega (arith, v.apart)) in
      rw
        (
          ptr,
          check-done r.addr s pos (rw v.here),
          load-done r.addr s pos,
          v.here,
          eq→eqb r.addr s.final_block (sym v.last),
        )
        (rw (load-done r.addr _ pos, v.here, store-done p.addr _ v.pos)
          (rw (load-done r.addr _ pos, other, v.here, store-done p.addr _ v.pos)
            (rw (eq→eqb p.addr p.addr refl, v.before, free_eq v.room v.apart))))

  free_middle :
      (q : Region) (qs : List Region)
      → Site s prev p r (q ∷ qs)
      → phys_free (r.addr + header_size) s
        ≡ done tt (record s { blocks = free_memory s.blocks prev p r (q ∷ qs) })
  unfolding phys_free
  free_middle q qs v =
      let bound = Spaced-lt (end_of r) (q ∷ qs) v.room in
      let ptr : u64 (r.addr + header_size + 2 ^ 64 - header_size) ≡ r.addr = omega arith in
      let pos : 0 < r.addr = omega (arith, v.pos, v.apart) in
      let other : (r.addr == p.addr) ≡ false = ne→not_eqb r.addr p.addr (omega (arith, v.apart)) in
      let next : (r.addr == q.addr) ≡ false = ne→not_eqb r.addr q.addr (omega (arith, v.room)) in
      let over : (p.addr == q.addr) ≡ false =
        ne→not_eqb p.addr q.addr (omega (arith, v.room, v.apart)) in
      let not_final : (r.addr == s.final_block) ≡ false =
        ne→not_eqb _ _ (omega (arith, last-above (end_of r) q qs v.room, v.last)) in
      rw (ptr, check-done r.addr s pos (rw v.here), load-done r.addr s pos, v.here, not_final)
        (rw (store-done q.addr _ (omega (arith, v.room)), load-done r.addr _ pos, next, v.here)
          (rw (store-done p.addr _ v.pos, load-done r.addr _ pos, other, next, v.here)
            (rw (
              store-done p.addr _ v.pos,
              eq→eqb p.addr p.addr refl,
              over,
              v.before,
              v.rest.0,
              free_eq bound v.apart,
            ))))

module _ (m : Memory Block) (prev : ℕ) (p r : Region) (pos : 0 < p.addr)
    (apart : end_of p ≤ r.addr) where
  free_below :
      (after : List Region) (a : ℕ)
      → a < p.addr
      → Spaced (end_of r) after
      → free_memory m prev p r after a ≡ m a
  free_below [] a h sp = ground arith
  free_below (q ∷ qs) a h sp = ground arith

  free_here :
      (after : List Region)
      → free_memory m prev p r after p.addr ≡ header prev (merged p r) (first_of after 0)
  free_here after = rw (eq→eqb p.addr p.addr refl)

  free_after :
      (after : List Region)
      → Spaced (end_of r) after
      → Linked m r.addr after 0
      → Linked (free_memory m prev p r after) p.addr after 0
  free_after [] sp l = tt
  free_after (q ∷ qs) sp l = (
    rw (ne→not_eqb q.addr p.addr (omega arith), eq→eqb q.addr q.addr refl),
    frame m _ q.addr 0 qs l.1
        (All-mono _ _ qs (λ a k. ground arith) (Spaced-above (end_of q) qs sp.2)),
  )

  free_Linked :
      (before after : List Region)
      → prev ≡ last_of 0 before
      → All (λ (q : Region). end_of q ≤ p.addr) before
      → Spaced (end_of r) after
      → Linked m 0 before p.addr
      → Linked m r.addr after 0
      → Linked (free_memory m prev p r after) 0 (before ++ (merged p r ∷ after)) 0
  free_Linked before after e below sp front back =
      Linked-append _ 0 before (merged p r) after 0
        (frame m _ 0 p.addr before front
          (All-mono _ _ before (λ q k. free_below after q.addr (omega arith) sp) below))
        (rw (← e) (free_here after, free_after after sp back))

phys_free-done :
    (s : Phys) (prev : ℕ) (p r : Region) (after : List Region)
    → Site s prev p r after
    → (s' : Phys) × (phys_free (r.addr + header_size) s ≡ done tt s')
      × (s'.blocks ≡ free_memory s.blocks prev p r after)
      × (s'.first_block ≡ s.first_block)
      × (s'.final_block ≡ last_of p.addr after)
phys_free-done s prev p r [] v = (_, free_last s prev p r v, refl, refl, refl)
phys_free-done s prev p r (q ∷ qs) v = (_, free_middle s prev p r q qs v, refl, refl, v.last)

-- Where the regions lie after a block was freed.
free-Spaced :
    (before : List Region) (p r : Region) (after : List Region)
    → end_of p ≡ r.addr
    → Spaced 0 (before ++ (p ∷ r ∷ after))
    → Spaced 0 (before ++ (merged p r ∷ after))
free-Spaced before p r after touch sp =
    let (below, low, pos, above) = Spaced-split 0 before p (r ∷ after) sp in
    let same : end_of r ≡ end_of (merged p r) = omega arith in
    Spaced-replace 0 before p (r ∷ after) (merged p r ∷ after) sp
      (omega arith, pos, rw same at (above.2))

-- On memory that represents regions, `phys_free` of a block that is not the first, and that
-- touches what the block before it manages, gives its header, allocation and free bytes to that
-- block, and all other regions stay as they are.
pub phys_free-Represents :
    (s : Phys) (before : List Region) (p r : Region) (after : List Region)
    → end_of p ≡ r.addr
    → Represents s (before ++ (p ∷ r ∷ after))
    → (s' : Phys) × (phys_free (r.addr + header_size) s ≡ done tt s')
      × Represents s' (before ++ (merged p r ∷ after))
phys_free-Represents s before p r after touch v =
    let (below, low, pos, above) = Spaced-split 0 before p (r ∷ after) v.spaced in
    let (front, back) = Linked_split s.blocks 0 before p (r ∷ after) 0 v.linked in
    let (s', runs, memory, first, final) = phys_free-done s (last_of 0 before) p r after (record {
      before = back.0;
      here = back.1.0;
      rest = back.1.1;
      last = v.final ∙ last_of-append 0 before (p ∷ r ∷ after);
      pos = pos;
      apart = above.0;
      room = above.2;
    }) in
    (
      s',
      runs,
      record {
        linked =
            rw memory (
              free_Linked s.blocks _ p r pos above.0 before after refl below above.2 front
                back.1.1);
        first =
            first
            ∙ v.first
            ∙ first_of-append before p (r ∷ after) 0
            ∙ sym (first_of-append before (merged p r) after 0);
        final = final ∙ sym (last_of-append 0 before (merged p r ∷ after));
        spaced = free-Spaced before p r after touch v.spaced;
      },
    )
