-- ===== src/Physical/Best.antt =====
-- The best-fit rule: what the loop of phys_alloc selects is a block that fits with the least free
-- memory, and null only when no block fits.
use black_diamond_os.Prelude.{
  ℕ, zero, suc, ◌≤◌, ◌<◌, ◌≡◌, refl, List, [], ◌∷◌, inl, inr, true, false, ap, length, arith,
  Bool-cases, ne→not_eqb,
}
use black_diamond_os.Machine.{done}
use black_diamond_os.Physical.{Phys, load, check_phys_block, better, scan}
use black_diamond_os.Physical.Regions.{Region, end_of, All-mono, Spaced, best, Pick, kept, found}
use black_diamond_os.Physical.Chain.{Linked, first_of}

-- the loop's test, as inequalities
better-true :
    (size free sel sel_free : ℕ)
    → better size free sel sel_free ≡ true
    → (size ≤ free) × ((0 < sel) → free < sel_free)
unfolding better
better-true size free sel sel_free h = ground arith

better-false :
    (size free sel sel_free : ℕ)
    → better size free sel sel_free ≡ false
    → size ≤ free
    → (0 < sel) × (sel_free ≤ free)
unfolding better
better-false size free sel sel_free h = ground arith

-- A block that the test takes is the selection from then on, unless a later one beats it.
Pick-taken :
    (size sel free : ℕ) (r : Region) (rs : List Region) (result : ℕ)
    → 0 < r.addr
    → better size r.free sel free ≡ true
    → Pick size r.addr r.free rs result
    → Pick size sel free (r ∷ rs) result
Pick-taken size sel free r rs result pos t (kept e none) =
    let b = better-true size r.free sel free t in
    found [] r rs refl e
      (record { fits = b.0; least = (λ h. omega arith, All-mono _ _ rs (λ q h k. (h k).1) none) })
      b.1
Pick-taken size sel free r rs result pos t (found before x after split e is less) =
    let b = better-true size r.free sel free t in
    found (r ∷ before) x after (ap (λ l. r ∷ l) split) e
      (record { fits = is.fits; least = (λ h. omega (arith, less pos), is.least) })
      (λ h. omega (arith, less pos, b.1 h))

-- A block that the test passes over changes nothing.
Pick-passed :
    (size sel free : ℕ) (r : Region) (rs : List Region) (result : ℕ)
    → better size r.free sel free ≡ false
    → Pick size sel free rs result
    → Pick size sel free (r ∷ rs) result
Pick-passed size sel free r rs result f (kept e none) =
    kept e (better-false size r.free sel free f, none)
Pick-passed size sel free r rs result f (found before x after split e is less) =
    found (r ∷ before) x after (ap (λ l. r ∷ l) split) e
      (record {
        fits = is.fits;
        least = (
          λ h. let p = better-false size r.free sel free f h in omega (arith, less (p.0), p.1),
          is.least,
        );
      })
      less

pub best-Pick :
    (size sel free lo : ℕ) (rs : List Region)
    → Spaced lo rs
    → Pick size sel free rs (best size sel free rs)
unfolding best
best-Pick size sel free lo [] sp = kept refl tt
best-Pick size sel free lo (r ∷ rs) sp = elim (Bool-cases (better size r.free sel free)) [
  | inl h ↦ rw h (Pick-taken size sel free r rs _ sp.1 h (best-Pick size _ _ (end_of r) rs sp.2))
  | inr h ↦ rw h (Pick-passed size sel free r rs _ h (best-Pick size _ _ (end_of r) rs sp.2))
]

-- The loop walks the whole chain and selects by `best`; it ends within one round for each block.
pub scan-best :
    (fuel size prev sel : ℕ) (s : Phys) (lo : ℕ) (rs : List Region)
    → Linked s.blocks prev rs 0
    → Spaced lo rs
    → length rs < fuel
    → scan fuel size (first_of rs 0) sel s
      ≡ done (best size sel (s.blocks sel).free_mem_following rs) s
unfolding scan best check_phys_block load
scan-best zero size prev sel s lo rs l sp h = absurd (omega arith)
scan-best (suc fuel) size prev sel s lo [] l sp h = refl
scan-best (suc fuel) size prev sel s lo (r ∷ rs) l sp h =
    let again =
      λ (sel' : ℕ). scan-best fuel size r.addr sel' s (end_of r) rs l.1 sp.2 (omega arith) in
    rw (ne→not_eqb r.addr 0 (omega arith), l.0)
      (rw l.0 (elim (Bool-cases (better size r.free sel (s.blocks sel).free_mem_following)) [
        | inl t ↦ rw t (rw l.0 at (again r.addr))
        | inr f ↦ rw f (again sel)
      ]))
