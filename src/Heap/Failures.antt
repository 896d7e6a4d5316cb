-- ===== src/Heap/Failures.antt =====
-- Inputs at which the allocator goes through a null pointer.
use black_diamond_os.Prelude.{
  ℕ, suc, ◌+◌, ◌≤◌, ◌<◌, ◌≡◌, ◌≢◌, ap, ◌∙◌, true, arith, ltb, leb, ◌&&◌, ne→not_eqb, eq→eqb, lt→ltb,
  le→not_ltb,
}
use black_diamond_os.Machine.{fault}
use black_diamond_os.Heap.{
  Heap, slab_size, slab_bytes, cache_bytes, load_cache, load_word, make_cache,
}
use black_diamond_os.Heap.Malloc.{find_cache, cache_for, object_size, malloc}
use black_diamond_os.Heap.Free.{
  find_gap, put_object, check_slab_for_pointer, search_slab_list, search_caches, free,
}
use black_diamond_os.Heap.Access.{load_cache-done, load_slab-done}

-- On a heap with no cache and no room for one, `malloc` of up to a slab goes through the null
-- cache, before it tests for it.
pub malloc-fault :
    (fuel size : ℕ) (s : Heap)
    → size ≤ slab_size
    → s.first_cache ≡ 0
    → s.free_space_for_cache ≡ 0
    → s.heap_end < s.free_space + cache_bytes
    → malloc (suc fuel) size s ≡ fault
unfolding malloc cache_for find_cache load_cache make_cache
malloc-fault fuel size s small first none full =
    let fits : object_size size ≤ slab_size = ground arith in
    rw (
      le→not_ltb slab_size (object_size size) fits,
      eq→eqb s.first_cache 0 first,
      eq→eqb s.free_space_for_cache 0 none,
      lt→ltb s.heap_end (s.free_space + cache_bytes) full,
    )

-- the test of `_check_slab_for_pointer`
abbrev pub InSlab : ℕ → ℕ → Type 0
InSlab alloc slab = (slab < alloc) × (alloc ≤ slab + slab_bytes)

pub in_slab :
    (alloc slab : ℕ) → InSlab alloc slab → (ltb slab alloc && leb alloc (slab + slab_bytes)) ≡ true
in_slab alloc slab h = ground arith

-- A slab at the head of the first cache's available slabs, not full, whose free list is one object
-- that ends in null.
pub record NullEnded (s : Heap) (c b x : ℕ) : Type 0 where
  pub first : s.first_cache ≡ c
  pub cache_pos : 0 < c
  pub slab : (s.caches c).avaliable_slabs ≡ b
  pub slab_pos : 0 < b
  pub not_full : (s.slabs b).allocated_objects ≢ (s.slabs b).max_objects
  pub head : (s.slabs b).first_free_object ≡ x
  pub head_pos : 0 < x
  pub ends : s.words x ≡ 0

find_gap-fault :
    (fuel alloc x : ℕ) (s : Heap)
    → 0 < x
    → s.words x ≡ 0
    → find_gap (suc (suc fuel)) alloc x s ≡ fault
unfolding find_gap load_word
find_gap-fault fuel alloc x s pos ends =
    rw (ne→not_eqb x 0 (omega arith), ends, le→not_ltb alloc 0 (omega arith))

module _ (fuel alloc : ℕ) (s : Heap) (c b x : ℕ) (v : NullEnded s c b x)
    (in_b : InSlab alloc b) where
  put_object-fault : put_object (suc (suc fuel)) alloc b s ≡ fault
  unfolding put_object
  put_object-fault = rw (
    load_slab-done b s v.slab_pos,
    ne→not_eqb _ _ v.not_full,
    v.head,
    find_gap-fault fuel alloc x s v.head_pos v.ends,
  )

  check-fault : check_slab_for_pointer (suc (suc fuel)) alloc b s ≡ fault
  unfolding check_slab_for_pointer
  check-fault = rw (in_slab alloc b in_b, put_object-fault)

  search-fault : search_slab_list (suc (suc (suc fuel))) alloc b s ≡ fault
  unfolding search_slab_list
  search-fault = rw (ne→not_eqb b 0 (omega (arith, v.slab_pos)), check-fault)

  caches-fault : search_caches (suc (suc (suc (suc fuel)))) alloc s.first_cache s ≡ fault
  unfolding search_caches
  caches-fault =
      ap (λ (p : ℕ). search_caches (suc (suc (suc (suc fuel)))) alloc p s) v.first
      ∙ rw (ne→not_eqb c 0 (omega (arith, v.cache_pos)), load_cache-done c s v.cache_pos)
          (rw (v.slab, search-fault))

-- `free` of a pointer into such a slab walks off the end of its free list and reads through null.
pub free-fault :
    (fuel alloc : ℕ) (s : Heap) (c b x : ℕ)
    → NullEnded s c b x
    → b < alloc
    → alloc ≤ b + slab_bytes
    → free (suc (suc (suc (suc fuel)))) alloc s ≡ fault
unfolding free
free-fault fuel alloc s c b x v low high = rw (caches-fault fuel alloc s c b x v (low, high))
