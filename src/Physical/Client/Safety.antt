-- ===== src/Physical/Client/Safety.antt =====
-- What clients of `phys_alloc` and `phys_free` may rely on after any sequence of calls.
use black_diamond_os.Prelude.{ℕ, ◌%◌, ◌≡◌, refl, ap, ◌∙◌, subst, List, [], ◌∷◌, ◌++◌, length, arith}
use black_diamond_os.Machine.{done}
use black_diamond_os.Physical.{Phys, phys_free}
use black_diamond_os.Physical.Regions.{Region, All, All-mono, IsAligned, total}
use black_diamond_os.Physical.Chain.{Represents}
use black_diamond_os.Physical.Free.{phys_free-Represents}
use black_diamond_os.Physical.Contract.{Allocated-of}
use black_diamond_os.Physical.Client.{Allocation, Calls, starts, allocates, refuses, frees}
use black_diamond_os.Physical.Client.Owned.{
  IsIn, Place, IsIn-Place, IsIn-aligned, NoOverlap, IsIn-NoOverlap,
}
use black_diamond_os.Physical.Client.Invariant.{
  Pairwise, Differ, All-remove, All-both, Owned, Owned-Allocated, Owned-refused, frees-merged,
}

module _ (n blocks : ℕ) where
  Owned-Place :
      (s : Phys) (live xs : List Allocation) (a : Allocation) (ys : List Allocation)
      (o : Owned n blocks s live)
      → live ≡ xs ++ (a ∷ ys)
      → Place o.regions a
  Owned-Place s live xs a ys o lists =
      IsIn-Place o.regions a o.represents.spaced
        (All-remove (IsIn 0 o.regions) xs a ys (subst (All (IsIn 0 o.regions)) lists o.held)).0

  Calls-Owned :
      (s₀ s : Phys) (live : List Allocation)
      → Owned n blocks s₀ []
      → Calls blocks s₀ s live
      → Owned n blocks s live
  Calls-Owned s₀ _ _ o starts = o
  Calls-Owned s₀ s' _ o (allocates {s} {live} fuel size p calls small enough runs pos) =
      let before = Calls-Owned s₀ s live o calls in
      Owned-Allocated n blocks s live before size p s' small
        (Allocated-of fuel size s before.regions p s' small before.represents
          (omega (arith, before.count, enough)) runs)
        pos
  Calls-Owned s₀ s' live o (refuses {s} fuel size calls small enough runs) =
      let before = Calls-Owned s₀ s live o calls in
      Owned-refused n blocks s live before size s' (
        Allocated-of fuel size s before.regions 0 s' small before.represents
          (omega (arith, before.count, enough)) runs)
  Calls-Owned s₀ s' _ o (frees {s} xs a ys calls runs) =
      let before = Calls-Owned s₀ s (xs ++ (a ∷ ys)) o calls in
      let (s₂, runs₂, after) =
        frees-merged n blocks s (xs ++ (a ∷ ys)) before xs a ys refl
          (Owned-Place s (xs ++ (a ∷ ys)) xs a ys before refl) in
      let same : s₂ ≡ s' = cc in subst (λ t. Owned n blocks t (xs ++ ys)) same after

  Owned-NoOverlap :
      (rs : List Region) (live : List Allocation) (s : Phys)
      → Represents s rs
      → All (IsIn 0 rs) live
      → Pairwise Differ live
      → Pairwise NoOverlap live
  Owned-NoOverlap rs [] s v held differ = tt
  Owned-NoOverlap rs (a ∷ bs) s v held differ = (
    All-both _ _ _ bs (λ b h other. IsIn-NoOverlap 0 0 rs a b v.spaced held.0 h other) held.1
        differ.0,
    Owned-NoOverlap rs bs s v held.1 differ.1,
  )

-- each allocation can be freed
abbrev pub CanFree : Phys → Allocation → Type 0
CanFree s a = (s' : Phys) × (phys_free a.ptr s ≡ done tt s')

IsIn-CanFree :
    (s : Phys) (rs : List Region) (a : Allocation) → Represents s rs → IsIn 0 rs a → CanFree s a
IsIn-CanFree s rs a v h =
    let place = IsIn-Place rs a v.spaced h in
    let (s', runs, _) =
      phys_free-Represents s place.before place.host place.block place.after place.touch
        (subst (λ l. Represents s l) place.split v) in
    (s', ap (λ (k : ℕ). phys_free k s) place.at ∙ runs)

-- From memory that represents aligned regions, after any sequence of calls by clients that free
-- only what `phys_alloc` gave them, each once, with requests of at most 2^64 - 64 bytes and fuel
-- above the number of blocks: no two live allocations share a byte, the bytes being those asked
-- for, and there is room for a header between them; each is at a multiple of 16; each can be freed
-- without a fault or a panic; and the memory again represents aligned regions, in which the live
-- allocations are, which manage as many bytes as at the start, in one block more for each.
pub Calls-Safe :
    (s₀ s : Phys) (rs : List Region) (live : List Allocation)
    → Represents s₀ rs
    → All IsAligned rs
    → Calls (length rs) s₀ s live
    → Pairwise NoOverlap live
      × All (λ a. a.ptr % 16 ≡ 0) live
      × All (CanFree s) live
      × Owned (total rs) (length rs) s live
Calls-Safe s₀ s rs live v aligned calls =
    let now =
      Calls-Owned (total rs) (length rs) s₀ s live
        (record {
          regions = rs;
          represents = v;
          aligned = aligned;
          bytes = refl;
          count = omega arith;
          held = tt;
          differ = tt;
        })
        calls in
    (
      Owned-NoOverlap (total rs) (length rs) now.regions live s now.represents now.held now.differ,
      All-mono _ _ live (λ a h. IsIn-aligned 0 now.regions a now.aligned h) now.held,
      All-mono _ _ live (λ a h. IsIn-CanFree s now.regions a now.represents h) now.held,
      now,
    )
