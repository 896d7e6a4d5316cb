-- ===== src/Heap/Tests.antt =====
-- The theorems on the slab allocator at concrete heaps, and runs.
use mathlib.Core.List.{Perm}
use black_diamond_os.Prelude.{◌-◌, ◌/◌, ◌≡◌, refl, inr, [], ◌∷◌, arith, ◌==◌, if◌then◌else◌}
use black_diamond_os.Machine.{Outcome, done, panic, fault, stuck, ◌>>=◌, ◌>>◌, pure}
use black_diamond_os.Physical.{Phys}
use black_diamond_os.Heap.{
  Cache, Slab, Heap, slab_size, load_cache, store_cache, load_slab, store_slab, load_word,
  store_word, heap_init, make_cache, link_objects, init_slab, make_slab,
}
use black_diamond_os.Heap.Malloc.{
  find_cache, cache_for, last_slab, move_to_full, take_object, from_cache, malloc,
}
use black_diamond_os.Heap.Free.{put_object, free}
use black_diamond_os.Heap.FreeList.{
  FreeList, slots, Takes, IsFreshSlab, end_of_slots, make_slab-IsFreshSlab,
}
use black_diamond_os.Heap.Chain.{Chain}
use black_diamond_os.Heap.Pop.{Serves, after_pop, malloc-pop}
use black_diamond_os.Heap.Fill.{malloc-fill}
use black_diamond_os.Heap.Failures.{malloc-fault, NullEnded}
use black_diamond_os.Heap.FreeFull.{FullFirst, after_free_full, free-full, free-free-fault}
use black_diamond_os.Heap.Put.{insert_free, put_object-FreeList}

abbrev phys : Phys
phys = record {
  blocks = λ a. record {
    lead_sig = 0;
    next = 0;
    prev = 0;
    size = 0;
    free_mem_following = 0;
    trail_sig = 0;
  };
  first_block = 0;
  final_block = 0;
}

abbrev blank_cache : Cache
blank_cache = record { next = 0; size = 0; avaliable_slabs = 0; full_slabs = 0 }

abbrev blank_slab : Slab
blank_slab = record { next = 0; allocated_objects = 0; max_objects = 0; first_free_object = 0 }

-- a heap of 10000 bytes at 1000, before `heap_init`
abbrev raw : Heap
raw = record {
  phys = phys;
  base = 1000;
  free_space_for_cache = 0;
  free_space_for_slab = 0;
  free_space = 0;
  first_cache = 0;
  heap_end = 0;
  caches = λ a. blank_cache;
  slabs = λ a. blank_slab;
  words = λ a. 0;
}

abbrev empty : Heap
empty = record raw { free_space = 1048; heap_end = 11000 }

value_of : {A : Type 0} → A → Outcome Heap A → A
value_of d (done a s) = a
value_of d (panic m) = d
value_of d fault = d
value_of d stuck = d

-- Two requests of 2000 bytes fill a slab, a third takes a new one.
run_mallocs :
    value_of [] (
      (do
        heap_init 10000
        a ← malloc 5 2000
        b ← malloc 5 2000
        c ← malloc 5 2000
        pure (a ∷ b ∷ c ∷ []))
        raw)
    ≡ 1112 ∷ 3112 ∷ 5240 ∷ []
unfolding value_of malloc heap_init cache_for find_cache make_cache from_cache make_slab init_slab
    link_objects take_object move_to_full last_slab load_cache store_cache load_slab store_slab
    load_word store_word
run_mallocs = refl

make_slab-IsFreshSlab_example :
    (s : Heap) × (make_slab 2000 empty ≡ done 1048 s)
    × Takes empty s
    × IsFreshSlab 2000 1048 empty s (slots 1080 2000 0 (slab_size / 2000)) (end_of_slots 2000 1048)
make_slab-IsFreshSlab_example =
    make_slab-IsFreshSlab 2000 empty (omega arith) (omega arith) (inr (omega arith))

-- A cache at 48 for objects of 1000 bytes, with a slab at 100 that has two of four objects free,
-- and a full slab at 9000.
abbrev busy : Heap
busy = record empty {
  first_cache = 48;
  caches = λ a. record { next = 0; size = 1000; avaliable_slabs = 100; full_slabs = 9000 };
  slabs = λ a.
      if a == 100
      then record { next = 0; allocated_objects = 2; max_objects = 4; first_free_object = 1132 }
      else record { next = 0; allocated_objects = 4; max_objects = 4; first_free_object = 0 };
  words = λ a. if a == 1132 then 3132 else 4132;
}

busy-Serves : Serves busy 1000 48 100 1132 [] [] (3132 ∷ []) 4132
busy-Serves = record {
  caches = (refl, omega arith, refl);
  others = tt;
  cache_pos = omega arith;
  size = refl;
  slab = refl;
  slab_pos = omega arith;
  free = (refl, omega arith, (refl, omega arith, refl));
  room = omega arith;
  bound = omega arith;
}

malloc-pop_example :
    (malloc 3 1000 busy ≡ done 1132 (after_pop busy 100 1132))
    × FreeList busy.words ((after_pop busy 100 1132).slabs 100).first_free_object (3132 ∷ []) 4132
malloc-pop_example =
    malloc-pop 3 1000 busy 48 100 1132 [] [] (3132 ∷ []) 4132 (omega arith) busy-Serves
      (omega arith) (omega arith)

-- the same with one object left
abbrev nearly : Heap
nearly = record busy {
  slabs = λ a.
      if a == 100
      then record { next = 0; allocated_objects = 3; max_objects = 4; first_free_object = 3132 }
      else record { next = 0; allocated_objects = 4; max_objects = 4; first_free_object = 0 };
}

nearly-Serves : Serves nearly 1000 48 100 3132 [] [] [] 4132
nearly-Serves = record {
  caches = (refl, omega arith, refl);
  others = tt;
  cache_pos = omega arith;
  size = refl;
  slab = refl;
  slab_pos = omega arith;
  free = (refl, omega arith, refl);
  room = omega arith;
  bound = omega arith;
}

malloc-fill_example :
    (s : Heap) × (malloc 3 1000 nearly ≡ done 3132 s)
    × ((s.caches 48).avaliable_slabs ≡ 0)
    × Chain (λ a. (s.slabs a).next) (s.caches 48).full_slabs (9000 ∷ 100 ∷ [])
    × ((s.slabs 100).allocated_objects ≡ (s.slabs 100).max_objects)
malloc-fill_example =
    malloc-fill 3 1000 nearly 48 100 3132 [] [] [] 4132 (omega arith) nearly-Serves (omega arith)
      (9000 ∷ []) refl (refl, omega arith, refl) (tt, tt) (omega arith, tt) (omega arith)

put_object-FreeList_example :
    (s : Heap) × (put_object 3 2132 100 busy ≡ done tt s)
    × FreeList s.words (s.slabs 100).first_free_object (insert_free 2132 1132 (3132 ∷ [])) 4132
    × Perm (insert_free 2132 1132 (3132 ∷ [])) (2132 ∷ 1132 ∷ 3132 ∷ [])
put_object-FreeList_example =
    put_object-FreeList 3 2132 100 busy 1132 (3132 ∷ []) 4132 (omega arith) (omega arith)
      (omega arith) (refl, omega arith, (refl, omega arith, refl)) (omega arith) (omega arith)
      (omega arith) (omega arith)

malloc-fault_example : malloc 2 100 (record empty { heap_end = 1060 }) ≡ fault
malloc-fault_example =
    malloc-fault 1 100 (record empty { heap_end = 1060 }) (omega arith) refl refl (omega arith)

-- a cache with nothing but a full slab at 9000
abbrev full : Heap
full = record busy {
  caches = λ a. record { next = 0; size = 1000; avaliable_slabs = 0; full_slabs = 9000 };
}

full-FullFirst : FullFirst full 48 9000
full-FullFirst = record {
  first = refl;
  cache_pos = omega arith;
  none = refl;
  slab = refl;
  slab_pos = omega arith;
  is_full = refl;
  several = omega arith;
  bound = omega arith;
}

free-full_example :
    (free 4 9032 full ≡ done tt (after_free_full full 48 9000 9032))
    × NullEnded (after_free_full full 48 9000 9032) 48 9000 9032
    × (((after_free_full full 48 9000 9032).slabs 9000).allocated_objects ≡ 4 - 1)
free-full_example = free-full 2 9032 full 48 9000 full-FullFirst (omega arith) (omega arith)

free-free-fault_example : (free 4 9032 >> free 4 10032) full ≡ fault
free-free-fault_example =
    free-free-fault 0 9032 10032 full 48 9000 full-FullFirst (omega arith) (omega arith)
      (omega arith) (omega arith)
