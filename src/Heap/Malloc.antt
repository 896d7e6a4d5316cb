-- ===== src/Heap/Malloc.antt =====
-- `malloc` of kernel/mem/heap.c.
use black_diamond_os.Prelude.{ℕ, zero, suc, ◌+◌, u32, ltb, leb, ◌&&◌, not, ◌==◌, if◌then◌else◌}
use black_diamond_os.Machine.{
  Outcome, done, panic, fault, stuck, Memory, Proc, pure, spin, get, modify, ◌>>=◌, ◌>>◌,
}
use black_diamond_os.Physical.{Phys, phys_alloc}
use black_diamond_os.Heap.{
  Heap, slab_size, load_cache, store_cache, load_slab, store_slab, load_word, make_cache, make_slab,
}

-- a call of the physical memory manager
abbrev pub resume_phys : {A : Type 0} → Heap → Outcome Phys A → Outcome Heap A
resume_phys s (done a p) = done a (record s { phys = p })
resume_phys s (panic msg) = panic msg
resume_phys s fault = fault
resume_phys s stuck = stuck

unfoldable pub on_phys : {A : Type 0} → Proc Phys A → Proc Heap A
on_phys m s = resume_phys s (m s.phys)

-- `while (cache->next && cache->size != size) cache = cache->next`
unfoldable pub find_cache : ℕ → ℕ → ℕ → Proc Heap ℕ
find_cache zero size cache = spin
find_cache (suc fuel) size cache = do
  c ← load_cache cache
  if not (c.next == 0) && not (c.size == size) then find_cache fuel size c.next else pure cache

-- the cache for objects of `size` bytes, made if there is none; null if there is no room
unfoldable pub cache_for : ℕ → ℕ → Proc Heap ℕ
cache_for fuel size = do
  s ← get
  if s.first_cache == 0
      then (do new ← make_cache size; modify (λ t. record t { first_cache = new }))
      else pure tt
  t ← get
  cache ← find_cache fuel size t.first_cache
  c ← load_cache cache
  if c.size == size
      then pure cache
      else (do new ← make_cache size; store_cache cache (λ d. record d { next = new }); pure new)

-- `while (slab->next) slab = slab->next`
unfoldable pub last_slab : ℕ → ℕ → Proc Heap ℕ
last_slab zero slab = spin
last_slab (suc fuel) slab = do
  b ← load_slab slab
  if b.next == 0 then pure slab else last_slab fuel b.next

-- the move of a slab that became full to the end of the list of full slabs
unfoldable pub move_to_full : ℕ → ℕ → ℕ → Proc Heap (Unit {0})
move_to_full fuel cache slab = do
  a ← load_cache cache
  b ← load_slab a.avaliable_slabs
  store_cache cache (λ d. record d { avaliable_slabs = b.next })
  c ← load_cache cache
  if c.full_slabs == 0 then store_cache cache (λ d. record d { full_slabs = slab }) else (do
    final ← last_slab fuel c.full_slabs
    store_slab final (λ d. record d { next = slab }))
  store_slab slab (λ d. record d { next = 0 })

-- the object at the head of the free list of a slab
unfoldable pub take_object : ℕ → ℕ → ℕ → Proc Heap ℕ
take_object fuel cache slab = do
  b ← load_slab slab
  next ← load_word b.first_free_object
  store_slab slab (λ d. record d {
    first_free_object = next;
    allocated_objects = u32 (d.allocated_objects + 1);
  })
  b' ← load_slab slab
  if b'.allocated_objects == b'.max_objects then move_to_full fuel cache slab else pure tt
  pure b.first_free_object

-- what `malloc` does once it has a cache
unfoldable pub from_cache : ℕ → ℕ → ℕ → Proc Heap ℕ
from_cache fuel size cache = do
  c ← load_cache cache
  if c.avaliable_slabs == 0
      then (do
        new ← make_slab size
        store_cache cache (λ d. record d { avaliable_slabs = new })
        if new == 0 then pure 0 else take_object fuel cache new)
      else take_object fuel cache c.avaliable_slabs

-- the size that `malloc` serves: a free object holds a pointer
abbrev pub object_size : ℕ → ℕ
object_size size = if ltb size 8 then 8 else size

-- `malloc`; `fuel` bounds the lists that it walks.
unfoldable pub malloc : ℕ → ℕ → Proc Heap ℕ
malloc fuel size =
    if ltb slab_size (object_size size) then on_phys (phys_alloc fuel (object_size size)) else (do
      cache ← cache_for fuel (object_size size)
      if cache == 0 then pure 0 else from_cache fuel (object_size size) cache)

-- `memset` to 0 of the `size` bytes at `p`: the pointers that lie in them
abbrev pub cleared_words : Memory ℕ → ℕ → ℕ → Memory ℕ
cleared_words m p size q = if leb p q && leb (q + 8) (p + size) then 0 else m q

unfoldable pub cmalloc : ℕ → ℕ → Proc Heap ℕ
cmalloc fuel size = do
  ptr ← malloc fuel size
  if ptr == 0
      then pure 0
      else (do modify (λ s. record s { words = cleared_words s.words ptr size }); pure ptr)
