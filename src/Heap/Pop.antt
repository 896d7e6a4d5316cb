-- ===== src/Heap/Pop.antt =====
-- `malloc` from a cache that has an available slab.
use black_diamond_os.Prelude.{
  ℕ, ◌+◌, ◌≤◌, ◌<◌, ◌≡◌, ◌≢◌, refl, ◌∙◌, List, ◌∷◌, ◌++◌, length, arith, u32, ne→not_eqb, eq→eqb,
  le→not_ltb,
}
use black_diamond_os.Machine.{update, done}
use black_diamond_os.Physical.Regions.{All}
use black_diamond_os.Heap.{Slab, Heap, slab_size}
use black_diamond_os.Heap.Malloc.{cache_for, take_object, from_cache, object_size, malloc}
use black_diamond_os.Heap.Access.{load_cache-done, load_slab-done, store_slab-done, load_word-done}
use black_diamond_os.Heap.FreeList.{FreeList}
use black_diamond_os.Heap.Chain.{Chain, Chain-pos, find_cache-hit}

-- Cache `c` is the first in the list for objects of `n` bytes; its first available slab is `b`,
-- whose next free object is `x`.
pub record Serves (s : Heap) (n c b x : ℕ) (before after xs : List ℕ) (end : ℕ) : Type 0 where
  pub caches : Chain (λ a. (s.caches a).next) s.first_cache (before ++ (c ∷ after))
  pub others : All (λ (d : ℕ). (s.caches d).size ≢ n) before
  pub cache_pos : 0 < c
  pub size : (s.caches c).size ≡ n
  pub slab : (s.caches c).avaliable_slabs ≡ b
  pub slab_pos : 0 < b
  pub free : FreeList s.words (s.slabs b).first_free_object (x ∷ xs) end
  pub room : (s.slabs b).allocated_objects < (s.slabs b).max_objects
  pub bound : (s.slabs b).max_objects ≤ slab_size

-- the slab after its first free object was taken
abbrev pub popped : Slab → ℕ → Slab
popped b next = record b { first_free_object = next; allocated_objects = b.allocated_objects + 1 }

abbrev pub after_pop : Heap → ℕ → ℕ → Heap
after_pop s b x = record s { slabs = update s.slabs b (popped (s.slabs b) (s.words x)) }

module _ (fuel size : ℕ) (s : Heap) (c b x : ℕ) (before after xs : List ℕ) (end : ℕ)
    (small : size ≤ slab_size) (v : Serves s (object_size size) c b x before after xs end)
    (h : length before < fuel) where
  cache_for-done : cache_for fuel (object_size size) s ≡ done c s
  unfolding cache_for
  cache_for-done =
      let n = object_size size in
      let first_pos = Chain-pos (λ a. (s.caches a).next) s.first_cache before c after v.caches in
      rw (ne→not_eqb s.first_cache 0 (omega arith)) (
        rw (find_cache-hit fuel n s.first_cache s before c after v.caches v.others v.size h)
          (rw (load_cache-done c s v.cache_pos, eq→eqb (s.caches c).size n v.size)))

  pub malloc-take : malloc fuel size s ≡ take_object fuel c b s
  unfolding malloc from_cache
  malloc-take =
      let fits : object_size size ≤ slab_size = ground arith in
      rw (le→not_ltb slab_size (object_size size) fits, cache_for-done)
        (rw (ne→not_eqb c 0 (omega (arith, v.cache_pos))) (
          rw (load_cache-done c s v.cache_pos, v.slab, ne→not_eqb b 0 (omega (arith, v.slab_pos)))))

  pub count_eq : u32 ((s.slabs b).allocated_objects + 1) ≡ (s.slabs b).allocated_objects + 1
  count_eq = omega (arith, v.room, v.bound)

  -- For a size of at most a slab, where the first cache of that size has an available slab that
  -- one more object does not fill, and with fuel above the number of caches before it, `malloc`
  -- returns the slab's next free object, which leaves the slab's free list and is counted; nothing
  -- else changes.
  pub malloc-pop :
      (s.slabs b).allocated_objects + 1 ≢ (s.slabs b).max_objects
      → (malloc fuel size s ≡ done x (after_pop s b x))
        × FreeList s.words ((after_pop s b x).slabs b).first_free_object xs end
  unfolding take_object
  malloc-pop more = (malloc-take ∙ takes, rw (eq→eqb b b refl) (v.free.2))
    where
      takes : take_object fuel c b s ≡ done x (after_pop s b x)
      takes =
          rw (load_slab-done b s v.slab_pos, v.free.0, load_word-done x s v.free.1)
            (rw (store_slab-done b s v.slab_pos)
              (rw (load_slab-done b _ v.slab_pos, eq→eqb b b refl, count_eq, ne→not_eqb _ _ more)))
