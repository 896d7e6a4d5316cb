-- ===== src/Kernel/Start.antt =====
-- The memory that `kmain` of kernel/core/kernel.c starts with: the physical memory, and the heap of
-- the kernel in one of its blocks.
use black_diamond_os.Prelude.{
  ℕ, ◌+◌, ◌*◌, ◌<◌, ◌≤◌, ◌≡◌, ◌≢◌, refl, ap, subst, ◌⊎◌, inl, inr, true, List, ◌∷◌, ◌++◌, length,
  length-append, u64, eq→eqb, ne→not_eqb, arith,
}
use black_diamond_os.Machine.{Outcome, done, panic, Proc}
use black_diamond_os.Physical.{Phys, header_size, round_size, phys_alloc}
use black_diamond_os.Physical.Regions.{Region, All, Spaced}
use black_diamond_os.Physical.Chain.{Represents, Spaced-lt, Spaced-split}
use black_diamond_os.Physical.Split.{shrunk, carved}
use black_diamond_os.Physical.Alloc.{
  round_size_lem, Allocated, refused, granted, phys_alloc-Allocated,
}
use black_diamond_os.Physical.Prepare.{MmapEntry, prep_mem}
use black_diamond_os.Physical.Prepare.Ascending.{regions_of, has_end}
use black_diamond_os.Physical.Prepare.Boot.{IsFresh, prep_mem-Represents}
use black_diamond_os.Heap.{heap_bytes, heap_init, set_active_heap}
use black_diamond_os.Heap.Malloc.{on_phys, resume_phys}
use black_diamond_os.Kernel.{Kernel, on_heap, resume_heap, start_memory}

abbrev pub with_phys : Kernel → Phys → Kernel
with_phys s p = record s { heap = record s.heap { phys = p } }

on_heap-on_phys :
    {A : Type 0} (m : Proc Phys A) (a : A) (s : Kernel) (p : Phys)
    → m s.heap.phys ≡ done a p
    → on_heap (on_phys m) s ≡ done a (with_phys s p)
unfolding on_heap on_phys
on_heap-on_phys m a s p runs =
    ap (λ (o : Outcome Phys _). resume_heap s (resume_phys s.heap o)) runs

-- the bytes of the kernel's heap
abbrev pub kheap_size : ℕ
kheap_size = 32000000

-- The block of the kernel's heap is carved out of one of the regions `rs`, the heap is empty and
-- lies in that block, and the other parts are as they were in `s`.
pub record Started (rs : List Region) (s s' : Kernel) : Type 0 where
  pub before : List Region
  pub host : Region
  pub after : List Region
  pub regions : rs ≡ before ++ (host ∷ after)
  pub represents :
      Represents s'.heap.phys
        (before ++ (shrunk host ∷ carved (round_size kheap_size) host ∷ after))
  pub in_block : s'.kheap ≡ (carved (round_size kheap_size) host).addr + header_size
  pub fits : kheap_size ≤ (carved (round_size kheap_size) host).size
  pub active : s'.heap.base ≡ s'.kheap
  pub free_space : s'.heap.free_space ≡ s'.kheap + heap_bytes
  pub heap_end : s'.heap.heap_end ≡ s'.kheap + kheap_size
  pub no_caches : s'.heap.first_cache ≡ 0
  pub no_free_caches : s'.heap.free_space_for_cache ≡ 0
  pub no_free_slabs : s'.heap.free_space_for_slab ≡ 0
  pub same_text : s'.text ≡ s.text
  pub same_acpi : s'.acpi ≡ s.acpi
  pub same_serial : s'.serial ≡ s.serial

-- the state with an empty heap at `p`
abbrev ready : Kernel → Phys → ℕ → Kernel
ready s p₂ p = record s {
  heap = record s.heap {
    phys = p₂;
    base = p;
    free_space_for_cache = 0;
    free_space_for_slab = 0;
    free_space = u64 (p + heap_bytes);
    first_cache = 0;
    heap_end = u64 (p + kheap_size);
  };
  kheap = p;
}

module _ (fuel : ℕ) (mmap : List MmapEntry) (kernel kernel_size : ℕ) (s : Kernel) (p₁ p₂ : Phys)
    (p : ℕ) (prepared : prep_mem fuel mmap kernel kernel_size s.heap.phys ≡ done tt p₁)
    (allocates : phys_alloc fuel kheap_size p₁ ≡ done p p₂) where
  start_memory-ready : p ≢ 0 → start_memory fuel mmap kernel kernel_size s ≡ done tt (ready s p₂ p)
  unfolding start_memory on_heap heap_init set_active_heap
  start_memory-ready nonzero =
      rw (on_heap-on_phys (prep_mem fuel mmap kernel kernel_size) tt s p₁ prepared) (
        rw (on_heap-on_phys (phys_alloc fuel kheap_size) p (with_phys s p₁) p₂ allocates)
          (rw (ne→not_eqb p 0 nonzero) refl))

  start_memory-panic :
      p ≡ 0
      → start_memory fuel mmap kernel kernel_size s
        ≡ panic "not enough memory to create a kernel heap"
  unfolding start_memory
  start_memory-panic z =
      rw (on_heap-on_phys (prep_mem fuel mmap kernel kernel_size) tt s p₁ prepared) (
        rw (on_heap-on_phys (phys_alloc fuel kheap_size) p (with_phys s p₁) p₂ allocates)
          (rw (eq→eqb p 0 z) refl))

-- the empty heap at the payload of the block that was carved out
ready-Started :
    (s : Kernel) (p₂ : Phys) (p : ℕ) (rs before : List Region) (host : Region) (after : List Region)
    → rs ≡ before ++ (host ∷ after)
    → round_size kheap_size ≤ host.free
    → p ≡ (carved (round_size kheap_size) host).addr + header_size
    → Represents p₂ (before ++ (shrunk host ∷ carved (round_size kheap_size) host ∷ after))
    → Started rs s (ready s p₂ p)
ready-Started s p₂ p rs before host after split room at v =
    let (_, _, _, above) =
      Spaced-split 0 before (shrunk host) (carved (round_size kheap_size) host ∷ after) v.spaced in
    let bound = Spaced-lt _ after above.2 in
    let rounded = round_size_lem kheap_size (omega arith) in
    record {
      before = before;
      host = host;
      after = after;
      regions = split;
      represents = v;
      in_block = at;
      fits = omega (arith, rounded);
      active = refl;
      free_space = omega (arith, rounded, at, bound);
      heap_end = omega (arith, rounded, at, bound);
      no_caches = refl;
      no_free_caches = refl;
      no_free_slabs = refl;
      same_text = refl;
      same_acpi = refl;
      same_serial = refl;
    }

-- what `start_memory` does once `prep_mem` made the regions
start_heap :
    (fuel : ℕ) (mmap : List MmapEntry) (kernel kernel_size : ℕ) (s : Kernel) (p₁ : Phys)
    (rs : List Region)
    → prep_mem fuel mmap kernel kernel_size s.heap.phys ≡ done tt p₁
    → Represents p₁ rs
    → length rs < fuel
    → ((s' : Kernel) × (start_memory fuel mmap kernel kernel_size s ≡ done tt s') × Started rs s s')
      ⊎ ((start_memory fuel mmap kernel kernel_size s
            ≡ panic "not enough memory to create a kernel heap")
          × All (λ (q : Region). q.free < round_size kheap_size) rs)
start_heap fuel mmap kernel kernel_size s p₁ rs prepared v h =
    let (p, p₂, allocates, how) = phys_alloc-Allocated fuel kheap_size p₁ rs (omega arith) v h in
    heap_of fuel mmap kernel kernel_size s p₁ p₂ p rs prepared allocates how
  where
    heap_of :
        (fuel : ℕ) (mmap : List MmapEntry) (kernel kernel_size : ℕ) (s : Kernel) (p₁ p₂ : Phys)
        (p : ℕ) (rs : List Region)
        → prep_mem fuel mmap kernel kernel_size s.heap.phys ≡ done tt p₁
        → phys_alloc fuel kheap_size p₁ ≡ done p p₂
        → Allocated p₁ kheap_size rs p p₂
        → ((s' : Kernel) × (start_memory fuel mmap kernel kernel_size s ≡ done tt s')
            × Started rs s s')
          ⊎ ((start_memory fuel mmap kernel kernel_size s
                ≡ panic "not enough memory to create a kernel heap")
              × All (λ (q : Region). q.free < round_size kheap_size) rs)
    heap_of fuel mmap kernel kernel_size s p₁ p₂ p rs prepared allocates (refused z same none) =
        inr (start_memory-panic fuel mmap kernel kernel_size s p₁ p₂ p prepared allocates z, none)
    heap_of fuel mmap kernel kernel_size s p₁ p₂ p rs prepared allocates
          (granted before host after split best at v) =
        inl (
          ready s p₂ p,
          start_memory-ready fuel mmap kernel kernel_size s p₁ p₂ p prepared allocates
              (omega (arith, at)),
          ready-Started s p₂ p rs before host after split best.fits at v,
        )

-- the regions that `prep_mem` leaves, with the kernel in the region `r`
abbrev pub with_kernel : List Region → Region → List Region → ℕ → List Region
with_kernel before r after kernel_size = before ++ (shrunk r ∷ carved kernel_size r ∷ after)

-- With no block before the call, on a map that ends, whose usable regions are disjoint and in
-- ascending order and one of which is 96 bytes before the kernel and large enough for it, and with
-- fuel above the number of usable regions by at least two, `start_memory` ends in one of two ways.
-- Either the kernel's heap is a block of at least 32000000 bytes that is carved out of one of the
-- regions that `prep_mem` leaves, the heap in it is empty, lies within it and is the active one,
-- `kheap` is its address, all other regions are kept and the text, ACPI and serial parts are
-- unchanged. Or no region has that much room, and it panics.
pub start_memory-Started :
    (fuel : ℕ) (mmap : List MmapEntry) (s : Kernel)
    → IsFresh s.heap.phys
    → has_end mmap ≡ true
    → Spaced 0 (regions_of mmap)
    → length (regions_of mmap) + 1 < fuel
    → (before : List Region) (r : Region) (after : List Region) (kernel_size : ℕ)
    → regions_of mmap ≡ before ++ (r ∷ after)
    → header_size ≤ kernel_size
    → kernel_size ≤ r.free
    → ((s' : Kernel) × (start_memory fuel mmap (r.addr + header_size * 2) kernel_size s
          ≡ done tt s')
        × Started (with_kernel before r after kernel_size) s s')
      ⊎ ((start_memory fuel mmap (r.addr + header_size * 2) kernel_size s
            ≡ panic "not enough memory to create a kernel heap")
          × All
              (λ (q : Region). q.free < round_size kheap_size)
              (with_kernel before r after kernel_size))
start_memory-Started fuel mmap s fresh ends sp h before r after kernel_size split big fits =
    let (p₁, prepared, v) =
      prep_mem-Represents fuel mmap s.heap.phys fresh ends sp (omega arith) before r after
        kernel_size split big fits in
    let known : length (before ++ (r ∷ after)) + 1 < fuel =
      subst (λ (l : List Region). length l + 1 < fuel) split h in
    start_heap fuel mmap (r.addr + header_size * 2) kernel_size s p₁ _ prepared v (
      omega (
        arith,
        known,
        length-append before (r ∷ after),
        length-append before (shrunk r ∷ carved kernel_size r ∷ after),
      ))
