-- ===== src/Heap/Fixture.antt =====
-- A heap of 10000 bytes at 1000 from which nothing was taken yet, for the examples.
use black_diamond_os.Prelude.{ℕ, ◌≡◌, refl}
use black_diamond_os.Machine.{Outcome, done, panic, fault, stuck}
use black_diamond_os.Heap.{
  Heap, make_cache, make_slab, init_slab, link_objects, load_cache, store_cache, load_slab,
  store_slab, load_word, store_word,
}
use black_diamond_os.Heap.Malloc.{
  malloc, cmalloc, cache_for, find_cache, from_cache, take_object, move_to_full, last_slab,
}

abbrev pub empty : Heap
empty = record {
  phys = record {
    blocks = λ _. record {
      lead_sig = 0;
      next = 0;
      prev = 0;
      size = 0;
      free_mem_following = 0;
      trail_sig = 0;
    };
    first_block = 0;
    final_block = 0;
  };
  base = 1000;
  free_space_for_cache = 0;
  free_space_for_slab = 0;
  free_space = 1048;
  first_cache = 0;
  heap_end = 11000;
  caches = λ _. record { next = 0; size = 0; avaliable_slabs = 0; full_slabs = 0 };
  slabs = λ _. record { next = 0; allocated_objects = 0; max_objects = 0; first_free_object = 0 };
  words = λ _. 0;
}

-- the heap that an allocation leaves
abbrev heap_of : Outcome Heap ℕ → Heap
heap_of (done a h) = h
heap_of (panic msg) = empty
heap_of fault = empty
heap_of stuck = empty

-- the heap after `malloc`, and after `cmalloc`, of a size
abbrev pub after_malloc : ℕ → Heap
after_malloc size = heap_of (malloc 9 size empty)

abbrev pub after_cmalloc : ℕ → Heap
after_cmalloc size = heap_of (cmalloc 9 size empty)

-- The first object of a size is at 1112: runs for a PCI device, an AHCI controller, a disk, and a
-- command table.
pub takes :
    (malloc 9 16 empty ≡ done 1112 (after_malloc 16))
    × (malloc 9 24 empty ≡ done 1112 (after_malloc 24))
    × (malloc 9 32 empty ≡ done 1112 (after_malloc 32))
    × (cmalloc 9 271 empty ≡ done 1112 (after_cmalloc 271))
unfolding cmalloc malloc cache_for find_cache make_cache from_cache make_slab init_slab link_objects
    take_object move_to_full last_slab load_cache store_cache load_slab store_slab load_word
    store_word
takes = (refl, refl, refl, refl)
