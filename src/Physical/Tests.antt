-- ===== src/Physical/Tests.antt =====
-- The theorems on physical memory at concrete states, and runs.
use black_diamond_os.Prelude.{
  ℕ, ◌+◌, ◌-◌, ◌%◌, ◌^◌, ◌≡◌, refl, List, [], ◌∷◌, arith, ◌==◌, if◌then◌else◌,
}
use black_diamond_os.Machine.{Outcome, done, panic, fault, stuck}
use black_diamond_os.Physical.{
  Block, Phys, header_size, load, store, check_phys_block, better, scan, round_size, make_new_block,
  phys_alloc, phys_free,
}
use black_diamond_os.Physical.Regions.{Region, All, total}
use black_diamond_os.Physical.Chain.{Represents, header}
use black_diamond_os.Physical.Split.{shrunk}
use black_diamond_os.Physical.Alloc.{Allocated, phys_alloc-Allocated}
use black_diamond_os.Physical.Free.{merged, phys_free-Represents}
use black_diamond_os.Physical.Contract.{Apart, phys_free-phys_alloc, phys_alloc-Apart}
use black_diamond_os.Physical.Invariant.{Holds, phys_alloc-Holds}

abbrev blank : Block
blank = record { lead_sig = 0; next = 0; prev = 0; size = 0; free_mem_following = 0; trail_sig = 0 }

abbrev region_a : Region
region_a = record { addr = 0x100000; size = 0; free = 4000 }

abbrev region_b : Region
region_b = record { addr = 0x200000; size = 0; free = 1000 }

abbrev region_c : Region
region_c = record { addr = 0x200030; size = 112; free = 840 }

abbrev two : List Region
two = region_a ∷ region_b ∷ []

abbrev state : Phys
state = record {
  blocks = λ a.
      if a == 0x100000
      then header 0 region_a 0x200000
      else if a == 0x200000
      then header 0x100000 region_b 0
      else blank;
  first_block = 0x100000;
  final_block = 0x200000;
}

state-Represents : Represents state two
state-Represents = record {
  linked = (refl, (refl, tt));
  first = refl;
  final = refl;
  spaced = omega arith;
}

abbrev final_state : {A : Type 0} → Outcome Phys A → Phys
final_state (done a s) = s
final_state (panic m) = state
final_state fault = state
final_state stuck = state

-- 100 bytes are 160 with rounding and header, and the second region is the tighter fit.
abbrev allocated : Phys
allocated = final_state (phys_alloc 9 100 state)

run_alloc : phys_alloc 9 100 state ≡ done 0x200060 allocated
unfolding phys_alloc scan check_phys_block load store better round_size make_new_block
run_alloc = refl

phys_alloc-Allocated_example :
    (p : ℕ) × (s : Phys) × (phys_alloc 9 100 state ≡ done p s) × Allocated state 100 two p s
phys_alloc-Allocated_example =
    phys_alloc-Allocated 9 100 state two (omega arith) state-Represents (omega arith)

phys_free-phys_alloc_example :
    (s : Phys) × (phys_free 0x200060 allocated ≡ done tt s) × Represents s two
phys_free-phys_alloc_example =
    phys_free-phys_alloc 9 100 state two 0x200060 allocated (omega arith) state-Represents
      (omega arith) run_alloc (omega arith)

phys_alloc-Apart_example : All (Apart (round_size 100) 0x200060) two
phys_alloc-Apart_example =
    phys_alloc-Apart 9 100 state two 0x200060 allocated (omega arith) state-Represents (omega arith)
      run_alloc (omega arith)

phys_alloc-Holds_example : Holds (total two) allocated × (0x200060 % 16 ≡ 0)
phys_alloc-Holds_example =
    phys_alloc-Holds 9 100 state two 0x200060 allocated (omega arith) state-Represents (omega arith)
      (omega arith) run_alloc

-- with a block of 112 bytes behind the second
abbrev filled : Phys
filled = record {
  blocks = λ a.
      if a == 0x100000
      then header 0 region_a 0x200000
      else if a == 0x200000
      then header 0x100000 (shrunk region_b) 0x200030
      else if a == 0x200030
      then header 0x200000 region_c 0
      else blank;
  first_block = 0x100000;
  final_block = 0x200030;
}

filled-Represents : Represents filled (region_a ∷ shrunk region_b ∷ region_c ∷ [])
filled-Represents = record {
  linked = (refl, (refl, (refl, tt)));
  first = refl;
  final = refl;
  spaced = omega arith;
}

phys_free-Represents_example :
    (s : Phys) × (phys_free (0x200030 + header_size) filled ≡ done tt s)
    × Represents s (region_a ∷ merged (shrunk region_b) region_c ∷ [])
phys_free-Represents_example =
    phys_free-Represents filled (region_a ∷ []) (shrunk region_b) region_c [] (omega arith)
      filled-Represents

-- the second header was overwritten
abbrev damaged : Phys
damaged = record state { blocks = λ a. if a == 0x100000 then header 0 region_a 0x200000 else blank }

-- A request close to 2 ^ 64 wraps round to the smallest block.
round_size_wraps : round_size (2 ^ 64 - 1) ≡ header_size
unfolding round_size
round_size_wraps = refl

-- The first block has no block before it, and freeing it writes through null.
free_first : phys_free 0x100030 state ≡ fault
unfolding phys_free check_phys_block load store
free_first = refl
