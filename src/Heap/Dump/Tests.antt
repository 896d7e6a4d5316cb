-- ===== src/Heap/Dump/Tests.antt =====
-- A dump of a heap with one cache at 1048, whose objects of 16 bytes lie in a slab at 1080, and with
-- a free cache at 6000.
use black_diamond_os.Prelude.{ℕ, List, [], ◌∷◌, ◌==◌, if◌then◌else◌}
use black_diamond_os.Heap.{Heap, Cache}
use black_diamond_os.Heap.Fixture.{empty}

abbrev cache : Cache
cache = record { next = 0; size = 16; avaliable_slabs = 1080; full_slabs = 0 }

abbrev dumped : Heap
dumped = record empty {
  free_space_for_cache = 6000;
  first_cache = 1048;
  caches = λ q. if q == 1048 then cache else record cache { avaliable_slabs = 0 };
  slabs =
      λ _. record { next = 0; allocated_objects = 1; max_objects = 254; first_free_object = 1128 };
}

abbrev none_full : ℕ → List ℕ
none_full _ = []

abbrev one_avaliable : ℕ → List ℕ
one_avaliable _ = 1080 ∷ []
