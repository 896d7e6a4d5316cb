-- ===== src/Physical/Client.antt =====
-- Any sequence of calls of `phys_alloc` and `phys_free` by clients that free only what they were
-- given, once: what they hold at each time.
pub mod Owned
pub mod Invariant
pub mod Safety
mod Tests
use black_diamond_os.Prelude.{ℕ, ◌+◌, ◌^◌, ◌≤◌, ◌<◌, ◌≡◌, List, [], ◌∷◌, ◌++◌, length}
use black_diamond_os.Machine.{done}
use black_diamond_os.Physical.{Phys, phys_alloc, phys_free}

-- a pointer that `phys_alloc` returned, and the bytes that were asked for
pub record Allocation : Type 0 where
  pub ptr : ℕ
  pub bytes : ℕ

-- From `s₀`, a memory of `blocks` blocks, to a state in which the clients hold `live`.
pub data Calls (blocks : ℕ) (s₀ : Phys) : Phys → List Allocation → Type 0 where
  starts : Calls blocks s₀ s₀ []
  allocates :
      {s s' : Phys} {live : List Allocation} (fuel size p : ℕ)
      → Calls blocks s₀ s live
      → size + 64 ≤ 2 ^ 64
      → blocks + length live < fuel
      → phys_alloc fuel size s ≡ done p s'
      → 0 < p
      → Calls blocks s₀ s' (record { ptr = p; bytes = size } ∷ live)
  refuses :
      {s s' : Phys} {live : List Allocation} (fuel size : ℕ)
      → Calls blocks s₀ s live
      → size + 64 ≤ 2 ^ 64
      → blocks + length live < fuel
      → phys_alloc fuel size s ≡ done 0 s'
      → Calls blocks s₀ s' live
  frees :
      {s s' : Phys} (xs : List Allocation) (a : Allocation) (ys : List Allocation)
      → Calls blocks s₀ s (xs ++ (a ∷ ys))
      → phys_free a.ptr s ≡ done tt s'
      → Calls blocks s₀ s' (xs ++ ys)
