-- ===== src/Heap/Dump.antt =====
-- `dump_heap` of kernel/mem/heap.c. What it prints is a list of pieces, one for each call of `debug`
-- and `debug_dec`.
pub mod Counts
mod Tests
use black_diamond_os.Prelude.{
  ℕ, zero, suc, ◌+◌, ◌-◌, ◌^◌, List, [], ◌∷◌, ◌++◌, u16, u64, ◌==◌, if◌then◌else◌,
}
use black_diamond_os.Machine.{Proc, Output, text, dec, pure, spin, get, ◌>>=◌}
use black_diamond_os.Heap.{Heap, Cache, Slab, slab_size, load_cache, load_slab}

-- `while (freed_cache) {freed_cache = freed_cache->next; free_caches++;}`
unfoldable pub count_caches : ℕ → ℕ → ℕ → Proc Heap ℕ
count_caches zero cache count = spin
count_caches (suc fuel) cache count =
    if cache == 0
    then pure count
    else (do c ← load_cache cache; count_caches fuel c.next (u16 (count + 1)))

-- the same loop over slabs
unfoldable pub count_slabs : ℕ → ℕ → ℕ → Proc Heap ℕ
count_slabs zero slab count = spin
count_slabs (suc fuel) slab count =
    if slab == 0
    then pure count
    else (do b ← load_slab slab; count_slabs fuel b.next (u16 (count + 1)))

abbrev pub print_slab : Slab → List Output
print_slab b =
    text "\n\tSlab: objects="
    ∷ dec b.allocated_objects
    ∷ text " max_objects="
    ∷ dec b.max_objects
    ∷ []

-- the loop over the available slabs of a cache
unfoldable pub dump_slabs : ℕ → ℕ → Proc Heap (List Output)
dump_slabs zero slab = spin
dump_slabs (suc fuel) slab =
    if slab == 0
    then pure []
    else (do b ← load_slab slab; rest ← dump_slabs fuel b.next; pure (print_slab b ++ rest))

-- what the loop over the caches prints first
abbrev pub print_cache : Cache → ℕ → List Output
print_cache c full = text "\nCache: size=" ∷ dec c.size ∷ text " full slabs=" ∷ dec full ∷ []

-- the loop over the caches; `slabs` bounds the slabs of each
unfoldable pub dump_caches : ℕ → ℕ → ℕ → Proc Heap (List Output)
dump_caches slabs zero cache = spin
dump_caches slabs (suc fuel) cache = if cache == 0 then pure [] else (do
  c ← load_cache cache
  full ← count_slabs slabs c.full_slabs 0
  avaliable ← dump_slabs slabs c.avaliable_slabs
  rest ← dump_caches slabs fuel c.next
  pure (print_cache c full ++ avaliable ++ rest))

-- what `dump_heap` prints of the heap itself
abbrev pub print_heap : Heap → ℕ → ℕ → List Output
print_heap s free_caches free_slabs =
    text "Heap dump: slab_size="
    ∷ dec slab_size
    ∷ text " free_caches="
    ∷ dec free_caches
    ∷ text " free_slabs="
    ∷ dec free_slabs
    ∷ text " free_space="
    ∷ dec (u64 (s.heap_end + 2 ^ 64 - s.free_space))
    ∷ []

-- `dump_heap`; `fuel` bounds the lists that it walks.
unfoldable pub dump_heap : ℕ → Proc Heap (List Output)
dump_heap fuel = do
  s ← get
  free_caches ← count_caches fuel s.free_space_for_cache 0
  free_slabs ← count_slabs fuel s.free_space_for_slab 0
  caches ← dump_caches fuel fuel s.first_cache
  pure (print_heap s free_caches free_slabs ++ caches ++ (text "\n" ∷ []))
