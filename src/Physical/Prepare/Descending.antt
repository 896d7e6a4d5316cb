-- ===== src/Physical/Prepare/Descending.antt =====
-- A memory map that is not in ascending order: linking in front of the list forgets a `prev`.
use black_diamond_os.Prelude.{
  ℕ, ◌≤◌, ◌<◌, ◌≡◌, refl, ap, ◌∙◌, true, false, List, [], ◌∷◌, ◌^◌, arith, ◌==◌, ne→not_eqb, eq→eqb,
  lt→ltb,
}
use black_diamond_os.Machine.{update, done}
use black_diamond_os.Physical.{Block, Phys}
use black_diamond_os.Physical.Access.{store-done}
use black_diamond_os.Physical.Regions.{Region, end_of}
use black_diamond_os.Physical.Chain.{Represents}
use black_diamond_os.Physical.Prepare.{MmapEntry, usable, link, add_region}
use black_diamond_os.Physical.Prepare.Ascending.{region_of}
use black_diamond_os.Physical.Prepare.Build.{add_region-link}

link_front :
    (fuel : ℕ) (s : Phys) (x : ℕ)
    → 0 < x
    → x < s.first_block
    → link fuel x s
      ≡ done tt (record s {
        blocks = update s.blocks x (record (s.blocks x) { next = s.first_block; prev = 0 });
        first_block = x;
      })
unfolding link
link_front fuel s x pos low =
    rw (ne→not_eqb s.first_block 0 (omega arith), lt→ltb x s.first_block low)
      (rw (store-done x s pos))

-- a state whose second block has no `prev` represents no regions
one_way :
    (s : Phys) (rs : List Region)
    → 0 < s.first_block
    → 0 < (s.blocks s.first_block).next
    → (s.blocks (s.blocks s.first_block).next).prev ≡ 0
    → ¬ Represents s rs
one_way s [] pos next broken v = absurd (omega (arith, v.first))
one_way s (a ∷ []) pos next broken v = ground arith
one_way s (a ∷ b ∷ rs) pos next broken v =
    ground (arith, ap (λ (c : Block). c.next) v.linked.0, ap (λ (c : Block). c.prev) v.linked.1.0)

-- Where the loop of `prep_mem` meets a usable region, not at 0, below all blocks that it has
-- already linked, of which there is one or more, it completes, and what it leaves represents no
-- regions at all: the block that was first keeps a null `prev`.
pub add_region-breaks :
    (fuel : ℕ) (s : Phys) (r : Region) (rs : List Region) (e : MmapEntry)
    → Represents s (r ∷ rs)
    → usable e ≡ true
    → 0 < (region_of e).addr
    → end_of (region_of e) ≤ r.addr
    → r.addr < 2 ^ 64
    → (s' : Phys) × (add_region fuel e s ≡ done tt s') × ((rs' : List Region) → ¬ Represents s' rs')
add_region-breaks fuel s r rs e v ok pos low bound =
    let x = region_of e in
    let other : (s.first_block == x.addr) ≡ false = ne→not_eqb _ _ (omega (arith, v.first)) in
    let self = eq→eqb x.addr x.addr refl in
    (
      _,
      add_region-link fuel s _ e ok pos (omega arith)
          (link_front fuel s x.addr pos (omega (arith, v.first))),
      λ rs'. one_way _ rs' pos (rw self (omega (arith, v.first))) (
          rw (self, other)
            (ap (λ (a : ℕ). (s.blocks a).prev) v.first ∙ ap (λ (c : Block). c.prev) v.linked.0)),
    )
