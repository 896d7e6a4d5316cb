-- ===== src/Physical/Alloc.antt =====
-- `phys_alloc` against the regions.
use black_diamond_os.Prelude.{
  ℕ, ◌+◌, ◌-◌, ◌%◌, ◌^◌, ◌≤◌, ◌<◌, ◌≡◌, refl, ◌∙◌, ◌⊎◌, ap, subst, List, ◌∷◌, ◌++◌, length, arith,
  u64, ne→not_eqb,
}
use black_diamond_os.Machine.{done}
use black_diamond_os.Physical.{Phys, header_size, scan, round_size, phys_alloc}
use black_diamond_os.Physical.Regions.{Region, All, All-mono, end_of, IsBest, Pick, kept, found}
use black_diamond_os.Physical.Chain.{Represents, Spaced-split, Spaced-lt}
use black_diamond_os.Physical.Best.{best-Pick, scan-best}
use black_diamond_os.Physical.Split.{shrunk, carved, make_new_block-Represents}

-- `phys_alloc` rounds a request up to a multiple of 16 of at least 16, by less than 16 bytes above
-- 16, and adds the header, if that does not overflow 64 bits.
pub round_size_lem :
    (size : ℕ)
    → size + 64 ≤ 2 ^ 64
    → let n = round_size size - header_size in
      (round_size size ≡ n + header_size)
      × (n % 16 ≡ 0)
      × (16 ≤ n)
      × (size ≤ n)
      × ((n < size + 16) ⊎ (n ≡ 16))
unfolding round_size
round_size_lem size h = ground arith

-- What `phys_alloc` does in the regions: either no block has room, null is returned and nothing
-- changes, or the best block is split and the payload behind the new header is returned.
pub data Allocated (s : Phys) (size : ℕ) (rs : List Region) : ℕ → Phys → Type 0 where
  refused :
      {p : ℕ} {s' : Phys}
      → p ≡ 0
      → s' ≡ s
      → All (λ (q : Region). q.free < round_size size) rs
      → Allocated s size rs p s'
  granted :
      {p : ℕ} {s' : Phys} (before : List Region) (r : Region) (after : List Region)
      → rs ≡ before ++ (r ∷ after)
      → IsBest (round_size size) r rs
      → p ≡ (carved (round_size size) r).addr + header_size
      → Represents s' (before ++ (shrunk r ∷ carved (round_size size) r ∷ after))
      → Allocated s size rs p s'

module _ (fuel size : ℕ) (s : Phys) (rs : List Region) where
  alloc_picked :
      size + 64 ≤ 2 ^ 64
      → Represents s rs
      → (selected : ℕ) → scan fuel (round_size size) s.first_block 0 s ≡ done selected s
      → Pick (round_size size) 0 (s.blocks 0).free_mem_following rs selected
      → (p : ℕ) × (s' : Phys) × (phys_alloc fuel size s ≡ done p s') × Allocated s size rs p s'
  unfolding phys_alloc
  alloc_picked small v sel e (kept z none) =
      (0, s, rw (e, z), refused refl refl (All-mono _ _ rs (λ q h. ground (arith, h)) none))
  alloc_picked small v sel e (found before r after split at is _) =
      let n = round_size size in
      let here : Represents s (before ++ (r ∷ after)) = subst (λ l. Represents s l) split v in
      let (below, low, pos, above) = Spaced-split 0 before r after here.spaced in
      let (s', runs, v') =
        make_new_block-Represents s n before r after here (omega (arith, round_size_lem size small))
          is.fits in
      let bound = Spaced-lt (end_of r) after above in
      let ptr : u64 ((carved n r).addr + header_size) ≡ (carved n r).addr + header_size =
        omega (arith, round_size_lem size small, is.fits) in
      (
        (carved n r).addr + header_size,
        s',
        rw (e, at) (rw (ne→not_eqb r.addr 0 (omega arith), runs) (ap (λ (k : ℕ). done k s') ptr)),
        granted before r after split is refl v',
      )

  -- On memory that represents regions, for a request of at most 2^64 - 64 bytes and with fuel above
  -- the number of blocks, `phys_alloc` ends: it returns null and leaves the regions if none has room
  -- for the rounded request and its header, or else carves the block out of the smallest free space
  -- that has, keeps all other regions and returns the address behind the new header.
  pub phys_alloc-Allocated :
      size + 64 ≤ 2 ^ 64
      → Represents s rs
      → length rs < fuel
      → (p : ℕ) × (s' : Phys) × (phys_alloc fuel size s ≡ done p s') × Allocated s size rs p s'
  phys_alloc-Allocated small v h =
      alloc_picked small v _
        (ap (λ (a : ℕ). scan fuel (round_size size) a 0 s) v.first
          ∙ scan-best fuel (round_size size) 0 0 s 0 rs v.linked v.spaced h)
        (best-Pick (round_size size) 0 _ 0 rs v.spaced)
