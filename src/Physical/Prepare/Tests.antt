-- ===== src/Physical/Prepare/Tests.antt =====
-- The theorems on `prep_mem` at concrete memory maps.
use black_diamond_os.Prelude.{
  ℕ, ◌+◌, ◌*◌, ◌<◌, ◌≡◌, ◌≢◌, refl, List, [], ◌∷◌, length, arith, true, u64, ◌-◌, subst, sym,
}
use black_diamond_os.Machine.{done, panic}
use black_diamond_os.Physical.{Block, Phys, header_size}
use black_diamond_os.Physical.Regions.{Region, All, Spaced}
use black_diamond_os.Physical.Chain.{Represents, header}
use black_diamond_os.Physical.Split.{shrunk, carved}
use black_diamond_os.Physical.Prepare.{MmapEntry, add_region, prep_mem}
use black_diamond_os.Physical.Prepare.Ascending.{region_of, regions_of, has_end}
use black_diamond_os.Physical.Prepare.Boot.{prep_mem-Represents, prep_mem-panic}
use black_diamond_os.Physical.Prepare.Descending.{add_region-breaks}

abbrev blank : Block
blank = record { lead_sig = 0; next = 0; prev = 0; size = 0; free_mem_following = 0; trail_sig = 0 }

abbrev fresh : Phys
fresh = record { blocks = λ a. blank; first_block = 0; final_block = 0 }

abbrev entry : ℕ → ℕ → ℕ → MmapEntry
entry address length type = record {
  address = address;
  length = length;
  type = type;
  attributes = 0;
}

-- low memory, the region of the kernel, a reserved region, a second usable one, the end mark
abbrev mmap : List MmapEntry
mmap =
    entry 0 0x9FC00 1
    ∷ entry 0x100000 0x700000 1
    ∷ entry 0x800000 0x1000 2
    ∷ entry 0x900008 0x10000 1
    ∷ entry 0x55AA 0 0
    ∷ []

abbrev kernel_region : Region
kernel_region = record { addr = 0x100000; size = 0; free = 0x700000 - 48 }

abbrev other_region : Region
other_region = record { addr = 0x900010; size = 0; free = 0x10000 - 56 }

regions_of-mmap : regions_of mmap ≡ kernel_region ∷ other_region ∷ []
unfolding regions_of region_of
regions_of-mmap = refl

mmap-Spaced : Spaced 0 (regions_of mmap)
mmap-Spaced = subst (λ l. Spaced 0 l) (sym regions_of-mmap) (omega arith)

mmap-length : length (regions_of mmap) < 5
mmap-length = subst (λ (l : List Region). length l < 5) (sym regions_of-mmap) (omega arith)

mmap-has_end : has_end mmap ≡ true
unfolding has_end
mmap-has_end = refl

prep_mem-Represents_example :
    (s : Phys) × (prep_mem 5 mmap 0x100060 0x20000 fresh ≡ done tt s)
    × Represents s (shrunk kernel_region ∷ carved 0x20000 kernel_region ∷ other_region ∷ [])
prep_mem-Represents_example =
    prep_mem-Represents 5 mmap fresh (refl, refl) mmap-has_end mmap-Spaced mmap-length []
      kernel_region (other_region ∷ []) 0x20000 regions_of-mmap (omega arith) (omega arith)

prep_mem-panic_example :
    prep_mem 5 mmap 0x100040 0x20000 fresh
    ≡ panic "invalid kernel location (must be 64 bytes after start of memory region)"
prep_mem-panic_example =
    prep_mem-panic 5 mmap fresh (refl, refl) mmap-has_end mmap-Spaced mmap-length 0x100040 0x20000
      (subst (λ l. All (λ (q : Region). u64 (q.addr + header_size * 2) ≢ 0x100040) l)
        (sym regions_of-mmap) (omega arith))

-- one block, and then an entry below it
abbrev high : Phys
high = record {
  blocks = λ a. header 0 other_region 0;
  first_block = 0x900010;
  final_block = 0x900010;
}

high-Represents : Represents high (other_region ∷ [])
high-Represents = record { linked = (refl, tt); first = refl; final = refl; spaced = omega arith }

add_region-breaks_example :
    (s : Phys) × (add_region 5 (entry 0x100000 0x700000 1) high ≡ done tt s)
    × ((rs : List Region) → ¬ Represents s rs)
unfolding region_of
add_region-breaks_example =
    add_region-breaks 5 high other_region [] (entry 0x100000 0x700000 1) high-Represents refl
      (omega arith) (omega arith) (omega arith)
