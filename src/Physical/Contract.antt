-- ===== src/Physical/Contract.antt =====
-- What a client of phys_alloc and phys_free may rely on.
use black_diamond_os.Prelude.{
  ℕ, ◌+◌, ◌^◌, ◌≤◌, ◌<◌, ◌≡◌, sym, subst, ◌⊎◌, List, ◌∷◌, ◌++◌, length, arith,
}
use black_diamond_os.Machine.{done}
use black_diamond_os.Physical.{Phys, header_size, round_size, phys_alloc, phys_free}
use black_diamond_os.Physical.Regions.{Region, All, All-mono, All-append, end_of, Spaced}
use black_diamond_os.Physical.Chain.{Represents, Spaced-split, Spaced-above}
use black_diamond_os.Physical.Split.{shrunk, carved}
use black_diamond_os.Physical.Alloc.{
  round_size_lem, Allocated, refused, granted, phys_alloc-Allocated,
}
use black_diamond_os.Physical.Free.{merged, phys_free-Represents}

merged-carved :
    (n : ℕ) (r : Region) → header_size ≤ n → n ≤ r.free → merged (shrunk r) (carved n r) ≡ r
merged-carved n r h f = ground arith

touching : (n : ℕ) (r : Region) → end_of (shrunk r) ≡ (carved n r).addr
touching n r = omega arith

free_carved :
    (n : ℕ) (s : Phys) (before : List Region) (r : Region) (after : List Region)
    → header_size ≤ n
    → n ≤ r.free
    → Represents s (before ++ (shrunk r ∷ carved n r ∷ after))
    → (s' : Phys) × (phys_free ((carved n r).addr + header_size) s ≡ done tt s')
      × Represents s' (before ++ (r ∷ after))
free_carved n s before r after h f v =
    let (s', runs, w) =
      phys_free-Represents s before (shrunk r) (carved n r) after (touching n r) v in
    (s', runs, subst (λ q. Represents s' (before ++ (q ∷ after))) (merged-carved n r h f) w)

-- The header of a new block and its payload, `[p - 48, p - 48 + n)`, share no byte with the
-- header and the allocation of `q`.
abbrev pub Apart : ℕ → ℕ → Region → Type 0
Apart n p q = (q.addr + header_size + q.size + header_size ≤ p) ⊎ (p + n ≤ q.addr + header_size)

module _ (fuel size : ℕ) (s : Phys) (rs : List Region) (p : ℕ) (s' : Phys) where
  pub Allocated-of :
      size + 64 ≤ 2 ^ 64
      → Represents s rs
      → length rs < fuel
      → phys_alloc fuel size s ≡ done p s'
      → Allocated s size rs p s'
  Allocated-of small v h e =
      let (p₂, s₂, e₂, a) = phys_alloc-Allocated fuel size s rs small v h in
      let same_p : p₂ ≡ p = cc in
      let same_s : s₂ ≡ s' = cc in
      subst (λ t. Allocated s size rs p t) same_s
        (subst (λ (k : ℕ). Allocated s size rs k s₂) same_p a)

  free_granted :
      size + 64 ≤ 2 ^ 64
      → 0 < p
      → Allocated s size rs p s'
      → (s'' : Phys) × (phys_free p s' ≡ done tt s'') × Represents s'' rs
  free_granted small pos (refused z _ _) = absurd (omega arith)
  free_granted small pos (granted before r after split is at v) =
      let big : header_size ≤ round_size size = omega (arith, round_size_lem size small) in
      let (s'', runs, w) = free_carved (round_size size) s' before r after big is.fits v in
      (
        s'',
        subst (λ (k : ℕ). phys_free k s' ≡ done tt s'') (sym at) runs,
        subst (λ l. Represents s'' l) (sym split) w,
      )

  -- On memory that represents regions, for a request of at most 2^64 - 64 bytes and with fuel
  -- above the number of blocks, memory that `phys_alloc` returned, not null, and `phys_free` takes
  -- back leaves the regions as they were before the allocation.
  pub phys_free-phys_alloc :
      size + 64 ≤ 2 ^ 64
      → Represents s rs
      → length rs < fuel
      → phys_alloc fuel size s ≡ done p s'
      → 0 < p
      → (s'' : Phys) × (phys_free p s' ≡ done tt s'') × Represents s'' rs
  phys_free-phys_alloc small v h e pos = free_granted small pos (Allocated-of small v h e)

  pub Apart-granted :
      size + 64 ≤ 2 ^ 64
      → Represents s rs
      → 0 < p
      → Allocated s size rs p s'
      → All (Apart (round_size size) p) rs
  Apart-granted small v pos (refused z _ _) = absurd (omega arith)
  Apart-granted small v pos (granted before r after split is at _) =
      let here : Spaced 0 (before ++ (r ∷ after)) = subst (λ l. Spaced 0 l) split v.spaced in
      let (below, low, above0, above) = Spaced-split 0 before r after here in
      rw split (
        All-append _ before (r ∷ after) (All-mono _ _ before (λ q k. omega arith) below) (
          omega arith,
          All-mono _ _ after (λ q k. omega (arith, is.fits)) (Spaced-above (end_of r) after above),
        ))

  -- On memory that represents regions, for a request of at most 2^64 - 64 bytes and with fuel
  -- above the number of blocks, a block that `phys_alloc` returns, not null, shares no byte, its
  -- header included, with the header or the allocation of any block that was there before.
  pub phys_alloc-Apart :
      size + 64 ≤ 2 ^ 64
      → Represents s rs
      → length rs < fuel
      → phys_alloc fuel size s ≡ done p s'
      → 0 < p
      → All (Apart (round_size size) p) rs
  phys_alloc-Apart small v h e pos = Apart-granted small v pos (Allocated-of small v h e)
