-- ===== src/Physical/Prepare/Boot.antt =====
-- `prep_mem` as a whole: the regions of the memory map, and the kernel's block among them.
use mathlib.Core.List.{append-nil, append_assoc}
use black_diamond_os.Prelude.{
  ℕ, zero, suc, ◌+◌, ◌*◌, ◌^◌, ◌≤◌, ◌<◌, ◌≡◌, ◌≢◌, refl, sym, ap, ◌∙◌, subst, true, false, List, [],
  ◌∷◌, ◌++◌, length, length-append, arith, u64, ◌==◌, inl, inr, Bool-cases, ne→not_eqb, eq→eqb,
}
use black_diamond_os.Machine.{done, panic}
use black_diamond_os.Physical.{Phys, header_size}
use black_diamond_os.Physical.Access.{load-done}
use black_diamond_os.Physical.Regions.{Region, All, end_of, Spaced}
use black_diamond_os.Physical.Chain.{Linked, Represents, first_of, Spaced-split, Spaced-lt}
use black_diamond_os.Physical.Split.{shrunk, carved, make_new_block-Represents}
use black_diamond_os.Physical.Prepare.{
  MmapEntry, usable, add_region, add_regions, find_kernel, prep_mem,
}
use black_diamond_os.Physical.Prepare.Ascending.{region_of, regions_of, has_end}
use black_diamond_os.Physical.Prepare.Build.{add_region-Represents}

Spaced-prefix :
    (lo : ℕ) (rs : List Region) (x : Region) (ys : List Region)
    → Spaced lo (rs ++ (x ∷ ys))
    → Spaced lo (rs ++ (x ∷ []))
Spaced-prefix lo [] x ys sp = (sp.0, sp.1, Spaced-lt (end_of x) ys sp.2)
Spaced-prefix lo (r ∷ rs) x ys sp = (sp.0, sp.1, Spaced-prefix (end_of r) rs x ys sp.2)

skip_region :
    (fuel : ℕ) (e : MmapEntry) (s : Phys) → usable e ≡ false → add_region fuel e s ≡ done tt s
unfolding add_region
skip_region fuel e s skip = rw skip

-- The loop builds the regions of the map behind those that are there.
add_regions-Represents :
    (fuel : ℕ) (es : List MmapEntry) (s : Phys) (rs : List Region)
    → has_end es ≡ true
    → Represents s rs
    → Spaced 0 (rs ++ regions_of es)
    → length (rs ++ regions_of es) < fuel
    → (s' : Phys) × (add_regions fuel es s ≡ done tt s') × Represents s' (rs ++ regions_of es)
unfolding add_regions regions_of has_end
add_regions-Represents fuel [] s rs ends v sp h = cc
add_regions-Represents fuel (e ∷ es) s rs ends v sp h = elim (Bool-cases (e.address == 0x55AA)) [
  | inl last ↦ rw last (s, refl, rw append-nil v)
  | inr more ↦
      let ends' : has_end es ≡ true = rw more at ends in
      rw more (elim (Bool-cases (usable e)) [
        | inl ok ↦
            let x = region_of e in
            let sp' : Spaced 0 (rs ++ (x ∷ regions_of es)) = rw (more, ok) at sp in
            let h' : length (rs ++ (x ∷ regions_of es)) < fuel = rw (more, ok) at h in
            let assoc = append_assoc rs (x ∷ []) (regions_of es) in
            let (s₁, runs, v₁) =
              add_region-Represents fuel s rs e ok v (Spaced-prefix 0 rs x (regions_of es) sp')
                (omega (arith, length-append rs (x ∷ regions_of es))) in
            let (s₂, then_runs, v₂) =
              add_regions-Represents fuel es s₁ (rs ++ (x ∷ [])) ends' v₁
                (subst (λ l. Spaced 0 l) (sym assoc) sp')
                (subst (λ (l : List Region). length l < fuel) (sym assoc) h') in
            rw ok (s₂, rw runs then_runs, subst (λ l. Represents s₂ l) assoc v₂)
        | inr skip ↦
            let (s₂, runs, v₂) =
              add_regions-Represents fuel es s rs ends' v (rw (more, skip) at sp)
                (rw (more, skip) at h) in
            rw skip (s₂, rw (skip_region fuel e s skip) runs, v₂)
      ])
]

-- The search passes over the blocks before the kernel's region and stops there.
find_kernel-done :
    (fuel : ℕ) (s : Phys) (prev lo : ℕ) (before : List Region) (r : Region) (after : List Region)
    → Linked s.blocks prev (before ++ (r ∷ after)) 0
    → Spaced lo (before ++ (r ∷ after))
    → length (before ++ (r ∷ after)) < fuel
    → r.addr + header_size * 2 < 2 ^ 64
    → find_kernel fuel (r.addr + header_size * 2) (first_of (before ++ (r ∷ after)) 0) s
      ≡ done r.addr s
unfolding find_kernel
find_kernel-done zero s prev lo before r after l sp h k = absurd (omega arith)
find_kernel-done (suc fuel) s prev lo [] r after l sp h k =
    let here : u64 (r.addr + header_size * 2) ≡ r.addr + header_size * 2 = omega arith in
    rw (ne→not_eqb r.addr 0 (omega arith), here, eq→eqb (r.addr + header_size * 2) _ refl)
find_kernel-done (suc fuel) s prev lo (q ∷ qs) r after l sp h k =
    let (_, low, _, _) = Spaced-split (end_of q) qs r after sp.2 in
    let other : (u64 (q.addr + header_size * 2) == r.addr + header_size * 2) ≡ false =
      ne→not_eqb _ _ (omega arith) in
    rw (ne→not_eqb q.addr 0 (omega arith), other)
      (rw (load-done q.addr s sp.1, l.0)
        (find_kernel-done fuel s q.addr (end_of q) qs r after l.1 sp.2 (omega arith) k))

find_kernel-null :
    (fuel : ℕ) (s : Phys) (kernel prev lo : ℕ) (rs : List Region)
    → Linked s.blocks prev rs 0
    → Spaced lo rs
    → length rs < fuel
    → All (λ (q : Region). u64 (q.addr + header_size * 2) ≢ kernel) rs
    → find_kernel fuel kernel (first_of rs 0) s ≡ done 0 s
unfolding find_kernel
find_kernel-null zero s kernel prev lo rs l sp h none = absurd (omega arith)
find_kernel-null (suc fuel) s kernel prev lo [] l sp h none = refl
find_kernel-null (suc fuel) s kernel prev lo (q ∷ qs) l sp h none =
    rw (ne→not_eqb q.addr 0 (omega arith), ne→not_eqb _ kernel none.0)
      (rw (load-done q.addr s sp.1, l.0)
        (find_kernel-null fuel s kernel q.addr (end_of q) qs l.1 sp.2 (omega arith) none.1))

-- memory before `prep_mem`: no block, both globals null
abbrev pub IsFresh : Phys → Type 0
IsFresh s = (s.first_block ≡ 0) × (s.final_block ≡ 0)

module _ (fuel : ℕ) (mmap : List MmapEntry) (s : Phys) (fresh : IsFresh s)
    (ends : has_end mmap ≡ true) (sp : Spaced 0 (regions_of mmap))
    (h : length (regions_of mmap) < fuel) where
  built : (s' : Phys) × (add_regions fuel mmap s ≡ done tt s') × Represents s' (regions_of mmap)
  built =
      add_regions-Represents fuel mmap s [] ends
        (record { linked = tt; first = fresh.0; final = fresh.1; spaced = omega arith }) sp h

  -- On a map that ends, whose usable regions are disjoint and in ascending order, with one of them
  -- 96 bytes before the kernel and large enough for it, with no block before the call and fuel above
  -- the number of usable regions, `prep_mem` leaves a block of size 0 on each usable region, and
  -- behind the kernel's the block of `kernel_size` bytes, header included.
  pub prep_mem-Represents :
      (before : List Region) (r : Region) (after : List Region) (kernel_size : ℕ)
      → regions_of mmap ≡ before ++ (r ∷ after)
      → header_size ≤ kernel_size
      → kernel_size ≤ r.free
      → (s' : Phys) × (prep_mem fuel mmap (r.addr + header_size * 2) kernel_size s ≡ done tt s')
        × Represents s' (before ++ (shrunk r ∷ carved kernel_size r ∷ after))
  unfolding prep_mem
  prep_mem-Represents before r after size split big fits =
      let (s₁, runs, v₁) = built in
      let v : Represents s₁ (before ++ (r ∷ after)) = subst (λ l. Represents s₁ l) split v₁ in
      let (_, _, pos, above) = Spaced-split 0 before r after v.spaced in
      let bound = Spaced-lt (end_of r) after above in
      let kernel : ℕ = r.addr + header_size * 2 in
      let found : find_kernel fuel kernel s₁.first_block s₁ ≡ done r.addr s₁ =
        ap (λ (a : ℕ). find_kernel fuel kernel a s₁) v.first
        ∙ find_kernel-done fuel s₁ 0 0 before r after v.linked v.spaced
            (subst (λ (l : List Region). length l < fuel) split h) (omega arith) in
      let (s₂, made, v₂) = make_new_block-Represents s₁ size before r after v big fits in
      (s₂, rw (runs, found, ne→not_eqb r.addr 0 (omega arith), made), v₂)

  -- On a map that ends, whose usable regions are disjoint and in ascending order, with no block
  -- before the call and fuel above the number of usable regions, `prep_mem` panics if no usable
  -- region starts 96 bytes before the kernel.
  pub prep_mem-panic :
      (kernel kernel_size : ℕ)
      → All (λ (q : Region). u64 (q.addr + header_size * 2) ≢ kernel) (regions_of mmap)
      → prep_mem fuel mmap kernel kernel_size s
        ≡ panic "invalid kernel location (must be 64 bytes after start of memory region)"
  unfolding prep_mem
  prep_mem-panic kernel size none =
      let (s₁, runs, v) = built in
      let found : find_kernel fuel kernel s₁.first_block s₁ ≡ done 0 s₁ =
        ap (λ (a : ℕ). find_kernel fuel kernel a s₁) v.first
        ∙ find_kernel-null fuel s₁ kernel 0 0 (regions_of mmap) v.linked v.spaced h none in
      rw (runs, found)
