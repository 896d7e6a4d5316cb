-- ===== src/Heap/FreeFull.antt =====
-- `free` of an object of a full slab.
use black_diamond_os.Prelude.{
  ℕ, suc, ◌+◌, ◌-◌, ◌^◌, ◌≤◌, ◌<◌, ◌≡◌, refl, sym, ap, ◌∙◌, true, arith, u32, ne→not_eqb, eq→eqb,
}
use black_diamond_os.Machine.{update, done, fault, ◌>>◌}
use black_diamond_os.Heap.{Heap, slab_size, slab_bytes}
use black_diamond_os.Heap.Free.{
  put_object, check_slab_for_pointer, search_slab_list, found_at, search_caches, move_to_avaliable,
  return_object, free,
}
use black_diamond_os.Heap.Access.{
  load_cache-done, store_cache-done, load_slab-done, store_slab-done, store_word-done,
}
use black_diamond_os.Heap.Failures.{InSlab, in_slab, NullEnded, free-fault}

-- The first cache has no available slab, and its first full slab is `b`, of two objects or more.
pub record FullFirst (s : Heap) (c b : ℕ) : Type 0 where
  pub first : s.first_cache ≡ c
  pub cache_pos : 0 < c
  pub none : (s.caches c).avaliable_slabs ≡ 0
  pub slab : (s.caches c).full_slabs ≡ b
  pub slab_pos : 0 < b
  pub is_full : (s.slabs b).allocated_objects ≡ (s.slabs b).max_objects
  pub several : 2 ≤ (s.slabs b).max_objects
  pub bound : (s.slabs b).max_objects ≤ slab_size

-- the state with the object on the free list, and the one that `free` leaves
abbrev put_first : Heap → ℕ → ℕ → Heap
put_first s b alloc = record s {
  slabs = update s.slabs b (record (s.slabs b) { first_free_object = alloc });
  words = update s.words alloc 0;
}

abbrev uncounted : Heap → ℕ → Heap
uncounted s b = record s {
  slabs =
      update s.slabs b (record (s.slabs b) {
        allocated_objects = u32 ((s.slabs b).allocated_objects + 2 ^ 32 - 1);
      });
}

abbrev unfilled : Heap → ℕ → ℕ → Heap
unfilled s c b =
    let m = update s.caches c (record (s.caches c) { full_slabs = (s.slabs b).next }) in
    record s { caches = update m c (record (m c) { avaliable_slabs = b }) }

module _ (fuel alloc : ℕ) (s : Heap) (c b : ℕ) (v : FullFirst s c b) (in_b : InSlab alloc b) where
  put_object-first : put_object fuel alloc b s ≡ done tt (put_first s b alloc)
  unfolding put_object
  put_object-first =
      rw (load_slab-done b s v.slab_pos, eq→eqb _ _ v.is_full)
        (rw (store_slab-done b s v.slab_pos) (rw (store_word-done alloc _ (omega (arith, in_b)))))

  check-first : check_slab_for_pointer fuel alloc b s ≡ done true (put_first s b alloc)
  unfolding check_slab_for_pointer
  check-first = rw (in_slab alloc b in_b, put_object-first)

module _ (fuel alloc : ℕ) (s : Heap) (c b : ℕ) (v : FullFirst s c b) (in_b : InSlab alloc b) where
  search-first : search_slab_list (suc fuel) alloc b s ≡ done b (put_first s b alloc)
  unfolding search_slab_list
  search-first =
      rw (ne→not_eqb b 0 (omega (arith, v.slab_pos)), check-first fuel alloc s c b v in_b)

  search-none : search_slab_list (suc fuel) alloc 0 s ≡ done 0 s
  unfolding search_slab_list
  search-none = refl

  caches-first :
      search_caches (suc (suc fuel)) alloc s.first_cache s
      ≡ done (found_at c b true) (put_first s b alloc)
  unfolding search_caches
  caches-first =
      ap (λ (p : ℕ). search_caches (suc (suc fuel)) alloc p s) v.first
      ∙ rw (ne→not_eqb c 0 (omega (arith, v.cache_pos)), load_cache-done c s v.cache_pos)
          (rw (v.none, search-none)
            (rw (v.slab, search-first) (rw (ne→not_eqb b 0 (omega (arith, v.slab_pos))))))

  move-first :
      (t : Heap)
      → (t.caches c).full_slabs ≡ b
      → (t.caches c).avaliable_slabs ≡ 0
      → move_to_avaliable fuel c b t ≡ done tt (unfilled t c b)
  unfolding move_to_avaliable
  move-first t at none =
      rw (load_cache-done c t v.cache_pos, eq→eqb b _ (sym at), load_slab-done b t v.slab_pos)
        (rw (store_cache-done c t v.cache_pos) (
          rw (load_cache-done c _ v.cache_pos, eq→eqb c c refl, none)
            (rw (store_cache-done c _ v.cache_pos, eq→eqb c c refl))))

-- the state that `free` leaves
abbrev pub after_free_full : Heap → ℕ → ℕ → ℕ → Heap
after_free_full s c b alloc = unfilled (uncounted (put_first s b alloc) b) c b

module _ (fuel alloc : ℕ) (s : Heap) (c b : ℕ) (v : FullFirst s c b) (in_b : InSlab alloc b) where
  count_down : u32 ((s.slabs b).allocated_objects + 2 ^ 32 - 1) ≡ (s.slabs b).allocated_objects - 1
  count_down = omega (arith, v.is_full, v.several, v.bound)

  return-first :
      return_object fuel (found_at c b true) (put_first s b alloc)
      ≡ done tt (after_free_full s c b alloc)
  unfolding return_object
  return-first =
      let t = uncounted (put_first s b alloc) b in
      let left =
        ne→not_eqb ((s.slabs b).allocated_objects - 1) 0 (omega (arith, v.is_full, v.several)) in
      rw (store_slab-done b (put_first s b alloc) v.slab_pos) (
        rw (move-first fuel alloc s c b v in_b t v.slab v.none) (
          rw (load_slab-done b (unfilled t c b) v.slab_pos, eq→eqb b b refl)
            (rw (count_down, left))))

  after-NullEnded : NullEnded (after_free_full s c b alloc) c b alloc
  after-NullEnded = record {
    first = v.first;
    cache_pos = v.cache_pos;
    slab = rw (eq→eqb c c refl);
    slab_pos = v.slab_pos;
    not_full = rw (eq→eqb b b refl, count_down) (omega (arith, v.is_full, v.several));
    head = rw (eq→eqb b b refl);
    head_pos = omega (arith, in_b);
    ends = rw (eq→eqb alloc alloc refl);
  }

-- Where the first cache has no available slab and its first full slab has several objects, `free`
-- of an object of that slab makes the object the slab's free list, which it ends by null, counts
-- one object less, and moves the slab to the cache's available slabs.
pub free-full :
    (fuel alloc : ℕ) (s : Heap) (c b : ℕ)
    → FullFirst s c b
    → b < alloc
    → alloc ≤ b + slab_bytes
    → (free (suc (suc fuel)) alloc s ≡ done tt (after_free_full s c b alloc))
      × NullEnded (after_free_full s c b alloc) c b alloc
      × (((after_free_full s c b alloc).slabs b).allocated_objects
          ≡ (s.slabs b).allocated_objects - 1)
unfolding free
free-full fuel alloc s c b v low high = (
  rw (caches-first fuel alloc s c b v (low, high)) (
      rw (
        ne→not_eqb b 0 (omega (arith, v.slab_pos)),
        return-first (suc (suc fuel)) alloc s c b v (low, high),
      )),
  after-NullEnded fuel alloc s c b v (low, high),
  rw (eq→eqb b b refl) (count_down fuel alloc s c b v (low, high)),
)

-- Where the first cache has no available slab and its first full slab has several objects, two
-- objects of that slab cannot be freed one after the other: the second `free` reads through null.
pub free-free-fault :
    (fuel a₁ a₂ : ℕ) (s : Heap) (c b : ℕ)
    → FullFirst s c b
    → b < a₁
    → a₁ ≤ b + slab_bytes
    → b < a₂
    → a₂ ≤ b + slab_bytes
    → (free (suc (suc (suc (suc fuel)))) a₁ >> free (suc (suc (suc (suc fuel)))) a₂) s ≡ fault
free-free-fault fuel a₁ a₂ s c b v low₁ high₁ low₂ high₂ =
    let (runs, ended, _) = free-full (suc (suc fuel)) a₁ s c b v low₁ high₁ in
    rw runs (free-fault fuel a₂ (after_free_full s c b a₁) c b a₁ ended low₂ high₂)
