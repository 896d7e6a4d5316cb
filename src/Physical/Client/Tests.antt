-- ===== src/Physical/Client/Tests.antt =====
-- Two allocations, and the first of them freed, in two regions of free memory.
use black_diamond_os.Prelude.{◌%◌, ◌≡◌, refl, List, [], ◌∷◌, length, arith, ◌==◌, if◌then◌else◌}
use black_diamond_os.Machine.{Outcome, done, panic, fault, stuck}
use black_diamond_os.Physical.{
  Block, Phys, phys_alloc, phys_free, scan, check_phys_block, load, store, better, round_size,
  make_new_block,
}
use black_diamond_os.Physical.Regions.{Region, All, total}
use black_diamond_os.Physical.Chain.{Represents, header}
use black_diamond_os.Physical.Client.{Allocation, Calls, starts, allocates, frees}
use black_diamond_os.Physical.Client.Owned.{NoOverlap}
use black_diamond_os.Physical.Client.Invariant.{Pairwise, Owned}
use black_diamond_os.Physical.Client.Safety.{CanFree, Calls-Safe}

abbrev region_a : Region
region_a = record { addr = 0x100000; size = 0; free = 4000 }

abbrev region_b : Region
region_b = record { addr = 0x200000; size = 0; free = 1008 }

abbrev two : List Region
two = region_a ∷ region_b ∷ []

abbrev blank : Block
blank = record { lead_sig = 0; next = 0; prev = 0; size = 0; free_mem_following = 0; trail_sig = 0 }

abbrev state : Phys
state = record {
  blocks = λ a.
      if a == 0x100000
      then header 0 region_a 0x200000
      else if a == 0x200000
      then header 0x100000 region_b 0
      else blank;
  first_block = 0x100000;
  final_block = 0x200000;
}

state-Represents : Represents state two
state-Represents = record {
  linked = (refl, (refl, tt));
  first = refl;
  final = refl;
  spaced = omega arith;
}

abbrev state_of : {A : Type 0} → Outcome Phys A → Phys
state_of (done a s) = s
state_of (panic m) = state
state_of fault = state
state_of stuck = state

abbrev with_first : Phys
with_first = state_of (phys_alloc 9 100 state)

abbrev with_both : Phys
with_both = state_of (phys_alloc 9 200 with_first)

abbrev with_second : Phys
with_second = state_of (phys_free 0x200060 with_both)

abbrev first : Allocation
first = record { ptr = 0x200060; bytes = 100 }

abbrev second : Allocation
second = record { ptr = 0x200100; bytes = 200 }

runs :
    (phys_alloc 9 100 state ≡ done 0x200060 with_first)
    × (phys_alloc 9 200 with_first ≡ done 0x200100 with_both)
    × (phys_free 0x200060 with_both ≡ done tt with_second)
unfolding phys_alloc phys_free scan check_phys_block load store better round_size make_new_block
runs = (refl, refl, refl)

calls : Calls 2 state with_second (second ∷ [])
calls =
    frees (second ∷ []) first []
      (allocates 9 200 0x200100
        (allocates 9 100 0x200060 starts (omega arith) (omega arith) runs.0 (omega arith))
        (omega arith) (omega arith) runs.1 (omega arith))
      runs.2

Calls-Safe_example :
    Pairwise NoOverlap (second ∷ [])
    × All (λ (a : Allocation). a.ptr % 16 ≡ 0) (second ∷ [])
    × All (CanFree with_second) (second ∷ [])
    × Owned (total two) (length two) with_second (second ∷ [])
Calls-Safe_example =
    Calls-Safe state with_second two (second ∷ []) state-Represents (omega arith) calls
