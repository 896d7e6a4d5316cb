-- ===== src/Physical/Invariant.antt =====
-- What phys_alloc and phys_free keep: the alignment of the blocks, and the number of bytes managed.
use black_diamond_os.Prelude.{
  ℕ, ◌+◌, ◌%◌, ◌^◌, ◌≤◌, ◌<◌, ◌≡◌, refl, sym, ap, ◌∙◌, subst, List, [], ◌∷◌, ◌++◌, length, arith,
}
use black_diamond_os.Machine.{done}
use black_diamond_os.Physical.{Phys, header_size, round_size, phys_alloc, phys_free}
use black_diamond_os.Physical.Regions.{
  Region, All, All-append, All-left, All-right, IsAligned, end_of, total,
}
use black_diamond_os.Physical.Chain.{Represents}
use black_diamond_os.Physical.Split.{shrunk, carved}
use black_diamond_os.Physical.Alloc.{round_size_lem, Allocated, refused, granted}
use black_diamond_os.Physical.Free.{merged, phys_free-Represents}
use black_diamond_os.Physical.Contract.{Allocated-of}

total-append : (xs ys : List Region) → total (xs ++ ys) ≡ total xs + total ys
unfolding total
total-append [] ys = omega arith
total-append (x ∷ xs) ys = omega (arith, total-append xs ys)

pub total-split :
    (n : ℕ) (before : List Region) (r : Region) (after : List Region)
    → header_size ≤ n
    → n ≤ r.free
    → total (before ++ (shrunk r ∷ carved n r ∷ after)) ≡ total (before ++ (r ∷ after))
unfolding total
total-split n before r after h f =
    omega
      (arith, total-append before (shrunk r ∷ carved n r ∷ after), total-append before (r ∷ after))

pub total-merge :
    (before : List Region) (p r : Region) (after : List Region)
    → total (before ++ (merged p r ∷ after)) ≡ total (before ++ (p ∷ r ∷ after))
unfolding total
total-merge before p r after =
    omega (arith, total-append before (merged p r ∷ after), total-append before (p ∷ r ∷ after))

-- The state holds aligned regions that manage `n` bytes.
pub record Holds (n : ℕ) (s : Phys) : Type 0 where
  pub regions : List Region
  pub represents : Represents s regions
  pub aligned : All IsAligned regions
  pub bytes : total regions ≡ n

pub IsAligned-split :
    (size : ℕ) (before : List Region) (r : Region) (after : List Region)
    → size + 64 ≤ 2 ^ 64
    → All IsAligned (before ++ (r ∷ after))
    → All IsAligned (before ++ (shrunk r ∷ carved (round_size size) r ∷ after))
      × ((carved (round_size size) r).addr % 16 ≡ 0)
IsAligned-split size before r after small a =
    let n = round_size_lem size small in
    let (here, rest) = All-right IsAligned before (r ∷ after) a in
    (
      All-append IsAligned before (shrunk r ∷ carved (round_size size) r ∷ after)
          (All-left IsAligned before (r ∷ after) a) (omega arith, (omega arith, rest)),
      omega arith,
    )

module _ (fuel size : ℕ) (s : Phys) (rs : List Region) (p : ℕ) (s' : Phys) where
  Holds-Allocated :
      size + 64 ≤ 2 ^ 64
      → Represents s rs
      → All IsAligned rs
      → Allocated s size rs p s'
      → Holds (total rs) s' × (p % 16 ≡ 0)
  Holds-Allocated small v a (refused z same _) = (
    record {
      regions = rs;
      represents = subst (λ t. Represents t rs) (sym same) v;
      aligned = a;
      bytes = refl;
    },
    omega arith,
  )
  Holds-Allocated small v a (granted before r after split is at w) =
      let (aligned, new) =
        IsAligned-split size before r after small (subst (All IsAligned) split a) in
      (
        record {
          regions = before ++ (shrunk r ∷ carved (round_size size) r ∷ after);
          represents = w;
          aligned = aligned;
          bytes =
              total-split (round_size size) before r after
                (omega (arith, round_size_lem size small)) is.fits
              ∙ ap total (sym split);
        },
        omega arith,
      )

  -- On memory that represents aligned regions, for a request of at most 2^64 - 64 bytes and with
  -- fuel above the number of blocks, `phys_alloc` returns a multiple of 16 (null included), and
  -- leaves aligned regions that manage the same number of bytes.
  pub phys_alloc-Holds :
      size + 64 ≤ 2 ^ 64
      → Represents s rs
      → All IsAligned rs
      → length rs < fuel
      → phys_alloc fuel size s ≡ done p s'
      → Holds (total rs) s' × (p % 16 ≡ 0)
  phys_alloc-Holds small v a h e =
      Holds-Allocated small v a (Allocated-of fuel size s rs p s' small v h e)

-- On memory that represents aligned regions, `phys_free` of a block that is not the first, and
-- that touches what the block before it manages, keeps the alignment of the blocks and the number
-- of bytes managed.
phys_free-Holds :
    (s : Phys) (before : List Region) (p r : Region) (after : List Region)
    → end_of p ≡ r.addr
    → Represents s (before ++ (p ∷ r ∷ after))
    → All IsAligned (before ++ (p ∷ r ∷ after))
    → (s' : Phys) × (phys_free (r.addr + header_size) s ≡ done tt s')
      × Holds (total (before ++ (p ∷ r ∷ after))) s'
phys_free-Holds s before p r after touch v a =
    let (s', runs, w) = phys_free-Represents s before p r after touch v in
    let (here, (_, rest)) = All-right IsAligned before (p ∷ r ∷ after) a in
    (
      s',
      runs,
      record {
        regions = before ++ (merged p r ∷ after);
        represents = w;
        aligned =
            All-append IsAligned before (merged p r ∷ after)
              (All-left IsAligned before (p ∷ r ∷ after) a) (here, rest);
        bytes = total-merge before p r after;
      },
    )
