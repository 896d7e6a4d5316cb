-- ===== src/Physical/Access.antt =====
-- Reading and writing a header that is not at null.
use black_diamond_os.Prelude.{ℕ, ◌<◌, ◌≡◌, true, arith, ne→not_eqb}
use black_diamond_os.Machine.{update, done}
use black_diamond_os.Physical.{Block, Phys, load, store, check_phys_block, intact}

module _ (p : ℕ) (s : Phys) (pos : 0 < p) where
  pub load-done : load p s ≡ done (s.blocks p) s
  unfolding load
  load-done = rw (ne→not_eqb p 0 (omega arith))

  pub store-done :
      (f : Block → Block)
      → store p f s ≡ done tt (record s { blocks = update s.blocks p (f (s.blocks p)) })
  unfolding store
  store-done f = rw (ne→not_eqb p 0 (omega arith))

  pub check-done : intact (s.blocks p) ≡ true → check_phys_block p s ≡ done tt s
  unfolding check_phys_block
  check-done h = rw (load-done, h)
