-- ===== src/Heap/FreeList.antt =====
-- The free list that `_make_slab` builds through the objects of a new slab.
use native.Mathlib.Nat.{div-mul-le_self}
use black_diamond_os.Prelude.{
  ℕ, zero, suc, ◌+◌, ◌*◌, ◌/◌, ◌≤◌, ◌<◌, ◌≡◌, refl, ap, ◌∙◌, true, List, [], ◌∷◌, length, arith,
  ◌==◌, if◌then◌else◌, ◌⊎◌, inl, inr, subst, Bool-cases, ltb, lt→ltb, le→not_ltb, ne→not_eqb,
  eq→eqb, eqb→eq, ◌≢◌,
}
use black_diamond_os.Machine.{Memory, update, done}
use black_diamond_os.Physical.Regions.{All, All-mono}
use black_diamond_os.Heap.{
  Heap, slab_size, slab_bytes, objects_offset, link_objects, init_slab, make_slab,
}
use black_diamond_os.Heap.Access.{load_slab-done, store_slab-done, store_word-done}

-- From `p` the pointers at the starts of the objects lead through `xs` to `end`.
abbrev pub FreeList : Memory ℕ → ℕ → List ℕ → ℕ → Type 0
FreeList w p [] end = p ≡ end
FreeList w p (x ∷ xs) end = (p ≡ x) × (0 < x) × FreeList w (w x) xs end

-- the addresses of the objects `i` to `i + n`
unfoldable pub slots : ℕ → ℕ → ℕ → ℕ → List ℕ
slots objects size i zero = []
slots objects size i (suc n) = (objects + i * size) ∷ slots objects size (i + 1) n

-- what the loop leaves in memory
linked : ℕ → ℕ → ℕ → ℕ → Memory ℕ → Memory ℕ
linked zero i objects size w = w
linked (suc n) i objects size w =
    linked n (i + 1) objects size (update w (objects + i * size) (objects + (i + 1) * size))

module _ (objects size : ℕ) (pos : 0 < objects) where
  link_objects-linked :
      (n i max : ℕ) (s : Heap)
      → i + n ≡ max
      → link_objects n i max objects size s
        ≡ done tt (record s { words = linked n i objects size s.words })
  unfolding link_objects linked
  link_objects-linked zero i max s e = refl
  link_objects-linked (suc n) i max s e =
      let more : ltb i max ≡ true = lt→ltb _ _ (omega arith) in
      rw (store_word-done (objects + i * size) s (omega arith), more)
        (link_objects-linked n (i + 1) max _ (omega arith))

module _ (objects size : ℕ) (big : 0 < size) where
  linked_before :
      (n i a : ℕ) (w : Memory ℕ) → a < objects + i * size → linked n i objects size w a ≡ w a
  unfolding linked
  linked_before zero i a w h = refl
  linked_before (suc n) i a w h =
      linked_before n (i + 1) a _ (omega arith)
      ∙ rw (ne→not_eqb a (objects + i * size) (omega arith))

  linked_outside :
      (n i a : ℕ) (w : Memory ℕ)
      → (a < objects + i * size) ⊎ (objects + (i + n) * size ≤ a)
      → linked n i objects size w a ≡ w a
  unfolding linked
  linked_outside zero i a w o = refl
  linked_outside (suc n) i a w (inl l) = linked_before (suc n) i a w l
  linked_outside (suc n) i a w (inr h) =
      linked_outside n (i + 1) a _ (inr (omega (arith, h)))
      ∙ rw (ne→not_eqb a (objects + i * size) (λ e. grind (arith, e, h, big)))

  linked-FreeList :
      (n i : ℕ) (w : Memory ℕ)
      → 0 < objects
      → FreeList
          (linked n i objects size w)
          (objects + i * size)
          (slots objects size i n)
          (objects + (i + n) * size)
  unfolding linked slots
  linked-FreeList zero i w pos = omega arith
  linked-FreeList (suc n) i w pos =
      let same : i + suc n ≡ i + 1 + n = omega arith in
      (
        refl,
        omega arith,
        rw
            (
              linked_before n (i + 1) (objects + i * size) _ (omega arith),
              eq→eqb (objects + i * size) (objects + i * size) refl,
              same,
            )
            (linked-FreeList n (i + 1) _ pos),
      )

  slots-within :
      (n i end : ℕ)
      → objects + (i + n) * size ≤ end
      → All (λ (x : ℕ). (objects ≤ x) × (x + size ≤ end)) (slots objects size i n)
  unfolding slots
  slots-within zero i end h = tt
  slots-within (suc n) i end h =
      ((omega arith, grind arith), slots-within n (i + 1) end (omega arith))

  length-slots : (n i : ℕ) → length (slots objects size i n) ≡ n
  unfolding slots
  length-slots zero i = refl
  length-slots (suc n) i = ap suc (length-slots n (i + 1))

-- A slab as `_make_slab` leaves it: no object is allocated, and the free list holds
-- `slab_size / size` objects, each inside the slab. Nothing else of memory differs from `s₀`.
pub record IsFreshSlab (size slab : ℕ) (s₀ s : Heap) (objects : List ℕ) (end : ℕ) : Type 0 where
  pub header : s.slabs slab ≡ record {
    next = 0;
    allocated_objects = 0;
    max_objects = slab_size / size;
    first_free_object = slab + objects_offset;
  }
  pub free : FreeList s.words (slab + objects_offset) objects end
  pub count : length objects ≡ slab_size / size
  pub within : All (λ (x : ℕ). (slab < x) × (x + size ≤ slab + slab_bytes)) objects
  pub other_slabs : (q : ℕ) → q ≢ slab → s.slabs q ≡ s₀.slabs q
  pub other_words : (q : ℕ) → (q < slab) ⊎ (slab + slab_bytes ≤ q) → s.words q ≡ s₀.words q
  pub same_caches : s.caches ≡ s₀.caches
  pub same_first_cache : s.first_cache ≡ s₀.first_cache
  pub same_free_caches : s.free_space_for_cache ≡ s₀.free_space_for_cache
  pub same_heap_end : s.heap_end ≡ s₀.heap_end
  pub same_base : s.base ≡ s₀.base
  pub same_phys : s.phys ≡ s₀.phys

-- the globals from which `_make_slab` takes, with the slab taken
abbrev pub Takes : Heap → Heap → Type 0
Takes s₀ s =
    if s₀.free_space_for_slab == 0
    then (s.free_space ≡ s₀.free_space + slab_bytes) × (s.free_space_for_slab ≡ 0)
    else (s.free_space ≡ s₀.free_space)
      × (s.free_space_for_slab ≡ (s₀.slabs s₀.free_space_for_slab).next)

-- where the list of a new slab ends: one object past the last, and not at null
abbrev pub end_of_slots : ℕ → ℕ → ℕ
end_of_slots size slab = slab + objects_offset + slab_size / size * size

-- the state with a fresh slab
abbrev fresh_slab : ℕ → ℕ → Heap → Heap
fresh_slab size slab s = record s {
  slabs = update s.slabs slab (record {
    next = 0;
    allocated_objects = 0;
    max_objects = slab_size / size;
    first_free_object = slab + objects_offset;
  });
  words = linked (slab_size / size) 0 (slab + objects_offset) size s.words;
}

init_slab-done :
    (size slab : ℕ) (s : Heap)
    → 0 < slab
    → init_slab slab size s ≡ done slab (fresh_slab size slab s)
unfolding init_slab
init_slab-done size slab s pos =
    let n = slab_size / size in
    rw (store_slab-done slab s pos)
      (rw (link_objects-linked (slab + objects_offset) size (omega arith) n 0 n _ (omega arith)))

fresh_slab-IsFreshSlab :
    (size slab free_space free_space_for_slab : ℕ) (s : Heap)
    → 0 < size
    → 0 < slab
    → IsFreshSlab size slab s
        (fresh_slab size slab
          (record s { free_space = free_space; free_space_for_slab = free_space_for_slab }))
        (slots (slab + objects_offset) size 0 (slab_size / size))
        (end_of_slots size slab)
fresh_slab-IsFreshSlab size slab free_space free_space_for_slab s big pos =
    let n = slab_size / size in
    let objects = slab + objects_offset in
    let fits = div-mul-le_self slab_size size in
    let start : objects + 0 * size ≡ objects = omega arith in
    let stop : objects + (0 + n) * size ≡ end_of_slots size slab = omega arith in
    record {
      header = rw (eq→eqb slab slab refl);
      free =
          subst
            (λ (p : ℕ).
              FreeList (linked n 0 objects size s.words) p (slots objects size 0 n)
                (end_of_slots size slab))
            start
            (subst
              (λ (e : ℕ).
                FreeList (linked n 0 objects size s.words) (objects + 0 * size)
                  (slots objects size 0 n) e)
              stop (linked-FreeList objects size big n 0 s.words (omega arith)));
      count = length-slots objects size big n 0;
      within =
          All-mono _ _ _ (λ x h. (omega (arith, h.0), h.1))
            (slots-within objects size big n 0 (slab + slab_bytes) (omega (arith, stop, fits)));
      other_slabs = λ q o. rw (ne→not_eqb q slab o);
      other_words = λ q o. linked_outside objects size big n 0 q s.words (outside q n fits o);
      same_caches = refl;
      same_first_cache = refl;
      same_free_caches = refl;
      same_heap_end = refl;
      same_base = refl;
      same_phys = refl;
    }
  where
    outside :
        (q n : ℕ)
        → n * size ≤ slab_size
        → (q < slab) ⊎ (slab + slab_bytes ≤ q)
        → (q < slab + objects_offset + 0 * size) ⊎ (slab + objects_offset + (0 + n) * size ≤ q)
    outside q n fits (inl l) = inl (omega (arith, l))
    outside q n fits (inr h) = inr (omega (arith, h, fits))

-- Where `_make_slab` finds room: the first slab of the free list, or else the free space.
abbrev pub chosen_slab : Heap → ℕ
chosen_slab s = if s.free_space_for_slab == 0 then s.free_space else s.free_space_for_slab

abbrev pub HasRoom : Heap → Type 0
HasRoom s = (0 < s.free_space_for_slab) ⊎ (s.free_space + slab_bytes ≤ s.heap_end)

-- `_make_slab` for a size of at least 8 bytes, with room for a slab and the free space not at null,
-- takes a slab from the heap's free list, which loses it, if there is one, or else from its free
-- space, which shrinks by it, and returns it with no object allocated and all its objects, each
-- inside the slab, on its free list. Nothing else changes outside the slab.
pub make_slab-IsFreshSlab :
    (size : ℕ) (s : Heap)
    → 8 ≤ size
    → 0 < s.free_space
    → HasRoom s
    → (s' : Heap) × (make_slab size s ≡ done (chosen_slab s) s')
      × Takes s s'
      × IsFreshSlab size
          (chosen_slab s)
          s
          s'
          (slots (chosen_slab s + objects_offset) size 0 (slab_size / size))
          (end_of_slots size (chosen_slab s))
unfolding make_slab
make_slab-IsFreshSlab size s big pos room = elim (Bool-cases (s.free_space_for_slab == 0)) [
  | inl none ↦
      let room' : s.free_space + slab_bytes ≤ s.heap_end = ground arith in
      let s₁ = record s { free_space = s.free_space + slab_bytes } in
      rw none (
        fresh_slab size s.free_space s₁,
        rw (le→not_ltb s.heap_end (s.free_space + slab_bytes) room')
            (init_slab-done size s.free_space s₁ pos),
        (refl, eqb→eq s.free_space_for_slab 0 none),
        fresh_slab-IsFreshSlab size s.free_space (s.free_space + slab_bytes) s.free_space_for_slab s
            (omega (arith, big)) pos,
      )
  | inr more ↦
      let p = s.free_space_for_slab in
      let pos' : 0 < p = ground arith in
      let s₁ = record s { free_space_for_slab = (s.slabs p).next } in
      rw more (
        fresh_slab size p s₁,
        rw (load_slab-done p s pos') (init_slab-done size p s₁ pos'),
        (refl, refl),
        fresh_slab-IsFreshSlab size p s.free_space (s.slabs p).next s (omega (arith, big)) pos',
      )
]

-- `_make_slab` without room returns null and changes nothing.
pub make_slab-null : (size : ℕ) (s : Heap) → ¬ HasRoom s → make_slab size s ≡ done 0 s
unfolding make_slab
make_slab-null size s full = ground arith
