-- ===== src/Heap.antt =====
-- The slab allocator, kernel/mem/heap.c: its structures, and how caches and slabs are made.
pub mod Malloc
pub mod Dump
pub mod Free
pub mod Access
pub mod FreeList
pub mod Chain
pub mod Pop
pub mod Fill
pub mod Failures
pub mod FreeFull
pub mod Put
pub mod Fixture
mod Tests
use black_diamond_os.Prelude.{ℕ, zero, suc, ◌+◌, ◌*◌, ◌/◌, u32, u64, ltb, ◌==◌, if◌then◌else◌}
use black_diamond_os.Machine.{Proc, Memory, update, pure, crash, get, modify, ◌>>=◌, ◌>>◌}
use black_diamond_os.Physical.{Phys}

-- `SLAB_SIZE`
abbrev pub slab_size : ℕ
slab_size = 4096

-- `struct heap_cache`
pub record Cache : Type 0 where
  pub next : ℕ
  pub size : ℕ
  pub avaliable_slabs : ℕ
  pub full_slabs : ℕ

-- `struct heap_slab`, less its objects
pub record Slab : Type 0 where
  pub next : ℕ
  pub allocated_objects : ℕ
  pub max_objects : ℕ
  pub first_free_object : ℕ

-- The sizes of the structures, and where the objects of a slab begin.
abbrev pub heap_bytes : ℕ
heap_bytes = 48

abbrev pub cache_bytes : ℕ
cache_bytes = 32

abbrev pub slab_bytes : ℕ
slab_bytes = 4128

abbrev pub objects_offset : ℕ
objects_offset = 32

-- `struct heap` and what memory holds when read as a cache, as a slab, and as the pointer at the
-- start of a free object; `base` is `active_heap`. The physical memory is below it all.
pub record Heap : Type 0 where
  pub phys : Phys
  pub base : ℕ
  pub free_space_for_cache : ℕ
  pub free_space_for_slab : ℕ
  pub free_space : ℕ
  pub first_cache : ℕ
  pub heap_end : ℕ
  pub caches : Memory Cache
  pub slabs : Memory Slab
  pub words : Memory ℕ

-- Reads and writes through a pointer fault at null.
unfoldable pub load_cache : ℕ → Proc Heap Cache
load_cache p = if p == 0 then crash else λ s. pure (s.caches p) s

unfoldable pub store_cache : ℕ → (Cache → Cache) → Proc Heap (Unit {0})
store_cache p f =
    if p == 0 then crash else modify (λ s. record s { caches = update s.caches p (f (s.caches p)) })

unfoldable pub load_slab : ℕ → Proc Heap Slab
load_slab p = if p == 0 then crash else λ s. pure (s.slabs p) s

unfoldable pub store_slab : ℕ → (Slab → Slab) → Proc Heap (Unit {0})
store_slab p f =
    if p == 0 then crash else modify (λ s. record s { slabs = update s.slabs p (f (s.slabs p)) })

unfoldable pub load_word : ℕ → Proc Heap ℕ
load_word p = if p == 0 then crash else λ s. pure (s.words p) s

unfoldable pub store_word : ℕ → ℕ → Proc Heap (Unit {0})
store_word p v = if p == 0 then crash else modify (λ s. record s { words = update s.words p v })

unfoldable pub heap_init : ℕ → Proc Heap (Unit {0})
heap_init size = modify (λ s. record s {
  free_space_for_cache = 0;
  free_space_for_slab = 0;
  free_space = u64 (s.base + heap_bytes);
  first_cache = 0;
  heap_end = u64 (s.base + size);
})

unfoldable pub set_active_heap : ℕ → Proc Heap (Unit {0})
set_active_heap heap = modify (λ s. record s { base = heap })

abbrev pub fresh_cache : ℕ → Cache
fresh_cache size = record { next = 0; size = size; avaliable_slabs = 0; full_slabs = 0 }

-- `_make_cache`: a cache from the free list, or else from the free space; null if there is none.
unfoldable pub make_cache : ℕ → Proc Heap ℕ
make_cache size = do
  s ← get
  let fresh = fresh_cache size
  if s.free_space_for_cache == 0
      then if ltb s.heap_end (s.free_space + cache_bytes) then pure 0 else (do
        modify (λ t. record t { free_space = s.free_space + cache_bytes })
        store_cache s.free_space (λ _. fresh)
        pure s.free_space)
      else (do
        c ← load_cache s.free_space_for_cache
        modify (λ t. record t { free_space_for_cache = c.next })
        store_cache s.free_space_for_cache (λ _. fresh)
        pure s.free_space_for_cache)

-- The loop that links the objects of a slab, with `rounds` rounds left. The test `i < max_objects`
-- inside it is the loop's own, so its `else` branch never runs. The objects have at least 8 bytes,
-- the least size that `malloc` makes slabs for, so the pointers at their starts do not overlap.
unfoldable pub link_objects : ℕ → ℕ → ℕ → ℕ → ℕ → Proc Heap (Unit {0})
link_objects zero i max objects size = pure tt
link_objects (suc rounds) i max objects size = do
  store_word (objects + i * size) (if ltb i max then objects + (i + 1) * size else 0)
  link_objects rounds (i + 1) max objects size

-- what `_make_slab` does with the slab that it has chosen
unfoldable pub init_slab : ℕ → ℕ → Proc Heap ℕ
init_slab slab size = do
  let max = slab_size / size
  store_slab slab (λ _. record {
    next = 0;
    allocated_objects = 0;
    max_objects = max;
    first_free_object = slab + objects_offset;
  })
  link_objects max 0 max (slab + objects_offset) size
  pure slab

-- `_make_slab`: a slab from the free list, or else from the free space; null if there is none.
unfoldable pub make_slab : ℕ → Proc Heap ℕ
make_slab size = do
  s ← get
  if s.free_space_for_slab == 0
      then if ltb s.heap_end (s.free_space + slab_bytes) then pure 0 else (do
        modify (λ t. record t { free_space = s.free_space + slab_bytes })
        init_slab s.free_space size)
      else (do
        b ← load_slab s.free_space_for_slab
        modify (λ t. record t { free_space_for_slab = b.next })
        init_slab s.free_space_for_slab size)
