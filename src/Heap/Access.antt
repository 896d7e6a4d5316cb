-- ===== src/Heap/Access.antt =====
-- Reads and writes that are not at null.
use black_diamond_os.Prelude.{ℕ, ◌<◌, ◌≡◌, arith, ne→not_eqb}
use black_diamond_os.Machine.{update, done}
use black_diamond_os.Heap.{
  Cache, Slab, Heap, load_cache, store_cache, load_slab, store_slab, load_word, store_word,
}

module _ (p : ℕ) (s : Heap) (pos : 0 < p) where
  pub load_cache-done : load_cache p s ≡ done (s.caches p) s
  unfolding load_cache
  load_cache-done = rw (ne→not_eqb p 0 (omega arith))

  pub store_cache-done :
      (f : Cache → Cache)
      → store_cache p f s ≡ done tt (record s { caches = update s.caches p (f (s.caches p)) })
  unfolding store_cache
  store_cache-done f = rw (ne→not_eqb p 0 (omega arith))

  pub load_slab-done : load_slab p s ≡ done (s.slabs p) s
  unfolding load_slab
  load_slab-done = rw (ne→not_eqb p 0 (omega arith))

  pub store_slab-done :
      (f : Slab → Slab)
      → store_slab p f s ≡ done tt (record s { slabs = update s.slabs p (f (s.slabs p)) })
  unfolding store_slab
  store_slab-done f = rw (ne→not_eqb p 0 (omega arith))

  pub load_word-done : load_word p s ≡ done (s.words p) s
  unfolding load_word
  load_word-done = rw (ne→not_eqb p 0 (omega arith))

  pub store_word-done :
      (v : ℕ) → store_word p v s ≡ done tt (record s { words = update s.words p v })
  unfolding store_word
  store_word-done v = rw (ne→not_eqb p 0 (omega arith))
