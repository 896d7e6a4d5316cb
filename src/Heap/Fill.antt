-- ===== src/Heap/Fill.antt =====
-- `malloc` of the last free object of a slab: the slab moves to the list of full slabs.
use black_diamond_os.Prelude.{
  ℕ, ◌+◌, ◌≤◌, ◌<◌, ◌≡◌, ◌≢◌, refl, sym, ap, inl, inr, Bool-cases, eqb→eq, ◌∙◌, List, [], ◌∷◌, ◌++◌,
  false, length, arith, ◌==◌, ne→not_eqb, eq→eqb,
}
use black_diamond_os.Machine.{update, done}
use black_diamond_os.Physical.Regions.{All}
use black_diamond_os.Heap.{Heap, slab_size}
use black_diamond_os.Heap.Malloc.{move_to_full, take_object, object_size, malloc}
use black_diamond_os.Heap.Access.{
  load_cache-done, store_cache-done, load_slab-done, store_slab-done, load_word-done,
}
use black_diamond_os.Heap.Chain.{
  Chain, Chain-pos, Chain-snoc, Chain-ext, Distinct, last_in, last_slab-done, last-ne, last_in-pos,
}
use black_diamond_os.Heap.Pop.{Serves, after_pop, malloc-take, count_eq}

-- What the move does: `b` leaves the head of the available slabs and ends the list of full ones.
record Moved (s : Heap) (c b : ℕ) (full : List ℕ) (s' : Heap) : Type 0 where
  avaliable : (s'.caches c).avaliable_slabs ≡ (s.slabs b).next
  chain : Chain (λ a. (s'.slabs a).next) (s'.caches c).full_slabs (full ++ (b ∷ []))
  counts : (s'.slabs b).allocated_objects ≡ (s.slabs b).allocated_objects
  capacity : (s'.slabs b).max_objects ≡ (s.slabs b).max_objects

abbrev detached : Heap → ℕ → ℕ → Heap
detached s c b = record s {
  caches = update s.caches c (record (s.caches c) { avaliable_slabs = (s.slabs b).next });
}

abbrev only_full : Heap → ℕ → ℕ → Heap
only_full s c b =
    let t = detached s c b in
    record t {
      caches = update t.caches c (record (t.caches c) { full_slabs = b });
      slabs = update s.slabs b (record (s.slabs b) { next = 0 });
    }

abbrev last_full : Heap → ℕ → ℕ → ℕ → Heap
last_full s c b last =
    let m = update s.slabs last (record (s.slabs last) { next = b }) in
    record (detached s c b) { slabs = update m b (record (m b) { next = 0 }) }

module _ (fuel : ℕ) (s : Heap) (c b : ℕ) (pos : 0 < c) (slab_pos : 0 < b) where
  move-Moved :
      (full : List ℕ)
      → (s.caches c).avaliable_slabs ≡ b
      → Chain (λ a. (s.slabs a).next) (s.caches c).full_slabs full
      → Distinct full
      → All (λ (y : ℕ). b ≢ y) full
      → length full ≤ fuel
      → (s' : Heap) × (move_to_full fuel c b s ≡ done tt s') × Moved s c b full s'
  unfolding move_to_full
  move-Moved [] at l dist out h = (
    only_full s c b,
    rw (load_cache-done c s pos, at, load_slab-done b s slab_pos)
        (rw (store_cache-done c s pos) (
          rw (load_cache-done c _ pos, eq→eqb c c refl, l)
            (rw (store_cache-done c _ pos) (rw (store_slab-done b _ slab_pos, eq→eqb c c refl))))),
    record {
      avaliable = rw (eq→eqb c c refl);
      chain = (rw (eq→eqb c c refl), slab_pos, rw (eq→eqb b b refl));
      counts = rw (eq→eqb b b refl);
      capacity = rw (eq→eqb b b refl);
    },
  )
  move-Moved (f ∷ fs) at l dist out h =
      let last = last_in f fs in
      let b≢last = last-ne b f fs out.0 out.1 in
      let full_pos = Chain-pos (λ a. (s.slabs a).next) (s.caches c).full_slabs [] f fs l in
      let last_pos = last_in-pos (λ a. (s.slabs a).next) (s.caches c).full_slabs f fs l in
      let other' : (last == b) ≡ false = ne→not_eqb last b (λ e. b≢last (sym e)) in
      let other : (b == last) ≡ false = ne→not_eqb b last b≢last in
      (
        last_full s c b last,
        rw (load_cache-done c s pos, at, load_slab-done b s slab_pos)
            (rw (store_cache-done c s pos) (
              rw
                (
                  load_cache-done c _ pos,
                  eq→eqb c c refl,
                  ne→not_eqb (s.caches c).full_slabs 0 (omega arith),
                )
                (rw (last_slab-done fuel _ (detached s c b) f fs l h)
                  (rw (store_slab-done last _ last_pos) (rw (store_slab-done b _ slab_pos)))))),
        record {
          avaliable = rw (eq→eqb c c refl);
          chain = rw (eq→eqb c c refl) (
              Chain-snoc (λ a. (s.slabs a).next) _ b (s.caches c).full_slabs f fs l dist out
                slab_pos (rw (other', eq→eqb last last refl)) (rw (eq→eqb b b refl))
                (λ a h k. rw (ne→not_eqb a b (λ e. k (sym e)), ne→not_eqb a last h)));
          counts = rw (eq→eqb b b refl, other);
          capacity = rw (eq→eqb b b refl, other);
        },
      )

after_pop-next : (s : Heap) (b x a : ℕ) → ((after_pop s b x).slabs a).next ≡ (s.slabs a).next
after_pop-next s b x a = elim (Bool-cases (a == b)) [
  | inl e ↦ rw e (ap (λ (k : ℕ). (s.slabs k).next) (sym (eqb→eq a b e)))
  | inr n ↦ rw n
]

module _ (fuel size : ℕ) (s : Heap) (c b x : ℕ) (before after xs : List ℕ) (end : ℕ)
    (small : size ≤ slab_size) (v : Serves s (object_size size) c b x before after xs end)
    (h : length before < fuel) where
  -- For a size of at most a slab, where the first cache of that size has an available slab that
  -- one more object fills, `malloc` returns the object, and moves the slab from the head of the
  -- cache's available slabs to the end of its full ones, all its objects counted. The full slabs
  -- are distinct and the slab is not one of them; fuel is above the number of caches before the
  -- cache, and at least the number of full slabs.
  pub malloc-fill :
      (full : List ℕ)
      → (s.slabs b).allocated_objects + 1 ≡ (s.slabs b).max_objects
      → Chain (λ a. (s.slabs a).next) (s.caches c).full_slabs full
      → Distinct full
      → All (λ (y : ℕ). b ≢ y) full
      → length full ≤ fuel
      → (s' : Heap) × (malloc fuel size s ≡ done x s')
        × ((s'.caches c).avaliable_slabs ≡ (s.slabs b).next)
        × Chain (λ a. (s'.slabs a).next) (s'.caches c).full_slabs (full ++ (b ∷ []))
        × ((s'.slabs b).allocated_objects ≡ (s'.slabs b).max_objects)
  unfolding take_object
  malloc-fill full last l dist out short =
      let t = after_pop s b x in
      let count = count_eq fuel size s c b x before after xs end small v h in
      let (s', runs, m) =
        move-Moved fuel t c b v.cache_pos v.slab_pos full v.slab
          (Chain-ext (λ a. (s.slabs a).next) _ _ full (after_pop-next s b x) l) dist out short in
      (
        s',
        malloc-take fuel size s c b x before after xs end small v h
            ∙ rw (load_slab-done b s v.slab_pos, v.free.0, load_word-done x s v.free.1)
                (rw (store_slab-done b s v.slab_pos) (
                  rw (load_slab-done b _ v.slab_pos, eq→eqb b b refl, count, eq→eqb _ _ last)
                    (rw runs))),
        m.avaliable ∙ after_pop-next s b x b,
        m.chain,
        rw (m.counts, m.capacity, eq→eqb b b refl) last,
      )
