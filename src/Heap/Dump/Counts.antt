-- ===== src/Heap/Dump/Counts.antt =====
-- What `dump_heap` of kernel/mem/heap.c prints, in terms of the lists of caches and slabs.
use black_diamond_os.Prelude.{ℕ, ◌<◌, List, [], ◌∷◌, ◌++◌, length, u16}
use black_diamond_os.Machine.{Output}
use black_diamond_os.Heap.{Heap}
use black_diamond_os.Heap.Chain.{Chain}
use black_diamond_os.Heap.Dump.{print_slab, print_cache}

abbrev pub CacheList : Heap → ℕ → List ℕ → Type 0
CacheList s p cs = Chain (λ a. (s.caches a).next) p cs

abbrev pub SlabList : Heap → ℕ → List ℕ → Type 0
SlabList s p bs = Chain (λ a. (s.slabs a).next) p bs

-- the lists that hang on a cache: its full slabs and its available ones
abbrev pub HasSlabs : Heap → (ℕ → List ℕ) → (ℕ → List ℕ) → ℕ → ℕ → Type 0
HasSlabs s full avaliable fuel c =
    SlabList s (s.caches c).full_slabs (full c)
    × SlabList s (s.caches c).avaliable_slabs (avaliable c)
    × (length (full c) < fuel)
    × (length (avaliable c) < fuel)

unfoldable pub slab_lines : Heap → List ℕ → List Output
slab_lines s [] = []
slab_lines s (b ∷ bs) = print_slab (s.slabs b) ++ slab_lines s bs

-- for every cache its size, the number of its full slabs modulo 2^16, and its available slabs
unfoldable pub cache_lines : Heap → (ℕ → List ℕ) → (ℕ → List ℕ) → List ℕ → List Output
cache_lines s full avaliable [] = []
cache_lines s full avaliable (c ∷ cs) =
    print_cache (s.caches c) (u16 (length (full c)))
    ++ slab_lines s (avaliable c)
    ++ cache_lines s full avaliable cs
