-- ===== src/Physical/Client/Invariant.antt =====
-- The calls of clients one by one: what they hold, among aligned regions.
use black_diamond_os.Prelude.{
  ℕ, ◌+◌, ◌^◌, ◌≤◌, ◌<◌, ◌≡◌, ◌≢◌, sym, ap, ◌∙◌, subst, List, [], ◌∷◌, ◌++◌, length, length-append,
  arith,
}
use black_diamond_os.Machine.{done}
use black_diamond_os.Physical.{Phys, header_size, round_size, phys_free}
use black_diamond_os.Physical.Regions.{
  Region, All, All-append, All-left, All-right, All-mono, IsAligned, total,
}
use black_diamond_os.Physical.Chain.{Represents}
use black_diamond_os.Physical.Split.{shrunk, carved}
use black_diamond_os.Physical.Alloc.{round_size_lem, Allocated, refused, granted}
use black_diamond_os.Physical.Free.{merged, phys_free-Represents}
use black_diamond_os.Physical.Contract.{Apart-granted}
use black_diamond_os.Physical.Invariant.{total-split, total-merge, IsAligned-split}
use black_diamond_os.Physical.Client.{Allocation}
use black_diamond_os.Physical.Client.Owned.{
  IsIn, IsIn-split, IsIn-new, IsIn-merge, Place, IsIn-other,
}

-- every two elements are related
abbrev pub Pairwise : (Allocation → Allocation → Type 0) → List Allocation → Type 0
Pairwise R [] = Unit
Pairwise R (a ∷ bs) = All (R a) bs × Pairwise R bs

abbrev pub Differ : Allocation → Allocation → Type 0
Differ a b = a.ptr ≢ b.ptr

pub All-remove :
    (P : Allocation → Type 0) (xs : List Allocation) (a : Allocation) (ys : List Allocation)
    → All P (xs ++ (a ∷ ys))
    → P a × All P (xs ++ ys)
All-remove P xs a ys all =
    let (here, rest) = All-right P xs (a ∷ ys) all in
    (here, All-append P xs ys (All-left P xs (a ∷ ys) all) rest)

pub All-both :
    (P Q R : Allocation → Type 0) (xs : List Allocation)
    → ((a : Allocation) → P a → Q a → R a)
    → All P xs
    → All Q xs
    → All R xs
All-both P Q R [] f p q = tt
All-both P Q R (x ∷ xs) f p q = (f x p.0 q.0, All-both P Q R xs f p.1 q.1)

Differ-remove :
    (xs : List Allocation) (a : Allocation) (ys : List Allocation)
    → Pairwise Differ (xs ++ (a ∷ ys))
    → All (λ b. b.ptr ≢ a.ptr) (xs ++ ys) × Pairwise Differ (xs ++ ys)
Differ-remove [] a ys (out, rest) = (All-mono _ _ ys (λ b h. λ e. h (sym e)) out, rest)
Differ-remove (x ∷ xs) a ys (out, rest) =
    let (here, others) = All-remove (Differ x) xs a ys out in
    let (away, left) = Differ-remove xs a ys rest in ((here, away), (others, left))

-- The clients hold `live` in aligned regions that manage `n` bytes, one more than `blocks` for
-- every allocation.
pub record Owned (n blocks : ℕ) (s : Phys) (live : List Allocation) : Type 0 where
  pub regions : List Region
  pub represents : Represents s regions
  pub aligned : All IsAligned regions
  pub bytes : total regions ≡ n
  pub count : length regions ≡ blocks + length live
  pub held : All (IsIn 0 regions) live
  pub differ : Pairwise Differ live

module _ (n blocks : ℕ) (s : Phys) (live : List Allocation) (o : Owned n blocks s live) where
  pub Owned-Allocated :
      (size p : ℕ) (s' : Phys)
      → size + 64 ≤ 2 ^ 64
      → Allocated s size o.regions p s'
      → 0 < p
      → Owned n blocks s' (record { ptr = p; bytes = size } ∷ live)
  Owned-Allocated size p s' small (refused z _ _) pos = absurd (omega (arith, z, pos))
  Owned-Allocated size p s' small (granted before r after split is at w) pos =
      let k = round_size size in
      let rounded = round_size_lem size small in
      let big : header_size ≤ k = omega (arith, rounded) in
      let apart =
        Apart-granted 0 size s o.regions p s' small o.represents pos
          (granted before r after split is at w) in
      record {
        regions = before ++ (shrunk r ∷ carved k r ∷ after);
        represents = w;
        aligned =
            (IsAligned-split size before r after small (subst (All IsAligned) split o.aligned)).0;
        bytes = total-split k before r after big is.fits ∙ ap total (sym split) ∙ o.bytes;
        count = omega (
          arith,
          length-append before (r ∷ after),
          length-append before (shrunk r ∷ carved k r ∷ after),
          subst (λ (l : List Region). length l ≡ blocks + length live) split o.count,
        );
        held = (
          IsIn-new k 0 before r after _ at (omega (arith, rounded)),
          All-mono _ _ live
              (λ a h. IsIn-split k 0 before r after a big is.fits (subst (λ l. IsIn 0 l a) split h))
              o.held,
        );
        differ = (
          All-mono _ _ live (λ a h. IsIn-other k p 0 o.regions a (omega (arith, big)) apart h)
              o.held,
          o.differ,
        );
      }

  pub Owned-refused :
      (size : ℕ) (s' : Phys) → Allocated s size o.regions 0 s' → Owned n blocks s' live
  Owned-refused size s' (refused z same _) = subst (λ t. Owned n blocks t live) (sym same) o
  Owned-refused size s' (granted before r after split is at w) = absurd (omega (arith, at))

  -- what is freed goes to the block before it
  pub frees-merged :
      (xs : List Allocation) (a : Allocation) (ys : List Allocation)
      → live ≡ xs ++ (a ∷ ys)
      → Place o.regions a
      → (s' : Phys) × (phys_free a.ptr s ≡ done tt s') × Owned n blocks s' (xs ++ ys)
  frees-merged xs a ys lists place =
      let q = place.host in
      let r = place.block in
      let (s', runs, w) =
        phys_free-Represents s place.before q r place.after place.touch
          (subst (λ l. Represents s l) place.split o.represents) in
      let (here, (_, rest)) =
        All-right IsAligned place.before (q ∷ r ∷ place.after)
          (subst (All IsAligned) place.split o.aligned) in
      let (away, left) = Differ-remove xs a ys (subst (Pairwise Differ) lists o.differ) in
      let (_, held) =
        All-remove (IsIn 0 o.regions) xs a ys (subst (All (IsIn 0 o.regions)) lists o.held) in
      (
        s',
        ap (λ (k : ℕ). phys_free k s) place.at ∙ runs,
        record {
          regions = place.before ++ (merged q r ∷ place.after);
          represents = w;
          aligned =
              All-append IsAligned place.before (merged q r ∷ place.after)
                (All-left IsAligned place.before (q ∷ r ∷ place.after)
                  (subst (All IsAligned) place.split o.aligned))
                (here, rest);
          bytes = total-merge place.before q r place.after ∙ ap total (sym place.split) ∙ o.bytes;
          count = omega (
            arith,
            length-append place.before (q ∷ r ∷ place.after),
            length-append place.before (merged q r ∷ place.after),
            length-append xs (a ∷ ys),
            length-append xs ys,
            subst (λ (l : List Region). length l ≡ blocks + length (xs ++ (a ∷ ys))) place.split
                (subst (λ (l : List Allocation). length o.regions ≡ blocks + length l) lists
                  o.count),
          );
          held =
              All-both _ _ _ (xs ++ ys)
                (λ b h other.
                  IsIn-merge 0 place.before q r place.after b place.touch
                    (λ e. other (e ∙ sym place.at)) (subst (λ l. IsIn 0 l b) place.split h))
                held away;
          differ = left;
        },
      )
