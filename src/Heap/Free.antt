-- ===== src/Heap/Free.antt =====
-- `free` of kernel/mem/heap.c.
use black_diamond_os.Prelude.{
  ℕ, zero, suc, ◌+◌, ◌-◌, ◌^◌, u32, ltb, leb, Bool, true, false, ◌&&◌, not, ◌==◌, if◌then◌else◌,
}
use black_diamond_os.Machine.{Proc, pure, spin, get, modify, ◌>>=◌, ◌>>◌}
use black_diamond_os.Physical.{phys_free}
use black_diamond_os.Heap.{
  Heap, slab_bytes, load_cache, store_cache, load_slab, store_slab, load_word, store_word,
}
use black_diamond_os.Heap.Malloc.{on_phys, last_slab}

-- `while (!(*object > alloc) && object) object = *object`, and what the loop leaves in `object`.
-- The test reads `*object` before it asks whether `object` is null.
unfoldable pub find_gap : ℕ → ℕ → ℕ → Proc Heap ℕ
find_gap zero alloc object = spin
find_gap (suc fuel) alloc object = do
  next ← load_word object
  if not (ltb alloc next) && not (object == 0) then find_gap fuel alloc next else pure object

-- the update of the free list in `_check_slab_for_pointer`
unfoldable pub put_object : ℕ → ℕ → ℕ → Proc Heap (Unit {0})
put_object fuel alloc slab = do
  b ← load_slab slab
  if b.allocated_objects == b.max_objects
      then (do store_slab slab (λ d. record d { first_free_object = alloc }); store_word alloc 0)
      else (do
        object ← find_gap fuel alloc b.first_free_object
        next ← load_word object
        store_word alloc next
        store_word object alloc)

-- `_check_slab_for_pointer`
unfoldable pub check_slab_for_pointer : ℕ → ℕ → ℕ → Proc Heap Bool
check_slab_for_pointer fuel alloc slab =
    if ltb slab alloc && leb alloc (slab + slab_bytes)
    then (do put_object fuel alloc slab; pure true)
    else pure false

-- `_search_slab_list`: the slab of the list that holds the pointer, null if none does
unfoldable pub search_slab_list : ℕ → ℕ → ℕ → Proc Heap ℕ
search_slab_list zero alloc slab = spin
search_slab_list (suc fuel) alloc slab = if slab == 0 then pure 0 else do
  found ← check_slab_for_pointer fuel alloc slab
  if found then pure slab else do b ← load_slab slab; search_slab_list fuel alloc b.next

-- What the search of `free` over the caches ends with: the cache, the slab, and whether the slab
-- stands in the cache's list of full slabs.
pub record Found : Type 0 where
  pub cache : ℕ
  pub slab : ℕ
  pub full : Bool

abbrev pub found_at : ℕ → ℕ → Bool → Found
found_at c b f = record { cache = c; slab = b; full = f }

unfoldable pub search_caches : ℕ → ℕ → ℕ → Proc Heap Found
search_caches zero alloc cache = spin
search_caches (suc fuel) alloc cache = if cache == 0 then pure (found_at 0 0 false) else do
  c ← load_cache cache
  avaliable ← search_slab_list fuel alloc c.avaliable_slabs
  if not (avaliable == 0) then pure (found_at cache avaliable false) else do
    full ← search_slab_list fuel alloc c.full_slabs
    if not (full == 0) then pure (found_at cache full true) else search_caches fuel alloc c.next

-- `while (prev_slab->next != slab) prev_slab = prev_slab->next`
unfoldable pub slab_before : ℕ → ℕ → ℕ → Proc Heap ℕ
slab_before zero slab prev = spin
slab_before (suc fuel) slab prev = do
  b ← load_slab prev
  if b.next == slab then pure prev else slab_before fuel slab b.next

-- `prev_slab->next = slab->next` at the slab before
unfoldable pub unlink_slab : ℕ → ℕ → ℕ → Proc Heap (Unit {0})
unlink_slab fuel slab first = do
  prev ← slab_before fuel slab first
  b ← load_slab slab
  store_slab prev (λ d. record d { next = b.next })

-- the move of a slab from the list of full slabs to the end of the list of available ones
unfoldable pub move_to_avaliable : ℕ → ℕ → ℕ → Proc Heap (Unit {0})
move_to_avaliable fuel cache slab = do
  c ← load_cache cache
  if slab == c.full_slabs
      then (do b ← load_slab slab; store_cache cache (λ d. record d { full_slabs = b.next }))
      else unlink_slab fuel slab c.full_slabs
  c' ← load_cache cache
  if c'.avaliable_slabs == 0
      then store_cache cache (λ d. record d { avaliable_slabs = slab })
      else (do
        final ← last_slab fuel c'.avaliable_slabs
        store_slab final (λ d. record d { next = slab }))

-- the move of an empty slab to the end of the heap's free list
unfoldable pub release_slab : ℕ → ℕ → ℕ → Proc Heap (Unit {0})
release_slab fuel cache slab = do
  c ← load_cache cache
  if slab == c.avaliable_slabs
      then (do b ← load_slab slab; store_cache cache (λ d. record d { avaliable_slabs = b.next }))
      else unlink_slab fuel slab c.avaliable_slabs
  store_slab slab (λ d. record d { next = 0 })
  s ← get
  if s.free_space_for_slab == 0 then modify (λ t. record t { free_space_for_slab = slab }) else (do
    final ← last_slab fuel s.free_space_for_slab
    store_slab final (λ d. record d { next = slab }))

-- `while (prev_cache->next != cache) prev_cache = prev_cache->next`
unfoldable pub cache_before : ℕ → ℕ → ℕ → Proc Heap ℕ
cache_before zero cache prev = spin
cache_before (suc fuel) cache prev = do
  c ← load_cache prev
  if c.next == cache then pure prev else cache_before fuel cache c.next

-- `while (final_cache->next) final_cache = final_cache->next`
unfoldable pub last_cache : ℕ → ℕ → Proc Heap ℕ
last_cache zero cache = spin
last_cache (suc fuel) cache = do
  c ← load_cache cache
  if c.next == 0 then pure cache else last_cache fuel c.next

-- the move of a cache with no slabs to the end of the heap's free list
unfoldable pub release_cache : ℕ → ℕ → Proc Heap (Unit {0})
release_cache fuel cache = do
  s ← get
  c ← load_cache cache
  if cache == s.first_cache then modify (λ t. record t { first_cache = c.next }) else (do
    prev ← cache_before fuel cache s.first_cache
    store_cache prev (λ d. record d { next = c.next }))
  store_cache cache (λ d. record d { next = 0 })
  t ← get
  if t.free_space_for_cache == 0
      then modify (λ u. record u { free_space_for_cache = cache })
      else (do
        final ← last_cache fuel t.free_space_for_cache
        store_cache final (λ d. record d { next = cache }))

-- what `free` does once the slab is found
unfoldable pub return_object : ℕ → Found → Proc Heap (Unit {0})
return_object fuel f = do
  store_slab f.slab (λ d. record d { allocated_objects = u32 (d.allocated_objects + 2 ^ 32 - 1) })
  if f.full then move_to_avaliable fuel f.cache f.slab else pure tt
  b ← load_slab f.slab
  if not (b.allocated_objects == 0) then pure tt else do
    release_slab fuel f.cache f.slab
    c ← load_cache f.cache
    if c.avaliable_slabs == 0 && c.full_slabs == 0 then release_cache fuel f.cache else pure tt

-- `free`; `fuel` bounds the lists that it walks.
unfoldable pub free : ℕ → ℕ → Proc Heap (Unit {0})
free fuel alloc = do
  s ← get
  f ← search_caches fuel alloc s.first_cache
  if f.slab == 0 then on_phys (phys_free alloc) else return_object fuel f
