-- ===== src/Physical/Client/Owned.antt =====
-- The allocations that clients hold, among the regions of physical memory.
use black_diamond_os.Prelude.{
  ℕ, ◌+◌, ◌%◌, ◌≤◌, ◌<◌, ◌≡◌, ◌≢◌, refl, sym, ap, ◌∙◌, subst, ◌⊎◌, inl, inr, List, [], ◌∷◌, ◌++◌,
  arith,
}
use black_diamond_os.Physical.{header_size}
use black_diamond_os.Physical.Regions.{Region, All, IsAligned, Spaced, end_of}
use black_diamond_os.Physical.Split.{shrunk, carved}
use black_diamond_os.Physical.Free.{merged}
use black_diamond_os.Physical.Contract.{Apart}
use black_diamond_os.Physical.Client.{Allocation}

-- The allocation is a block that touches what the block before it manages, where the block before
-- the first one ends at `e`.
abbrev pub IsIn : ℕ → List Region → Allocation → Type 0
IsIn e [] a = ⊥
IsIn e (r ∷ rs) a =
    ((e ≡ r.addr) × (a.ptr ≡ r.addr + header_size) × (a.bytes ≤ r.size)) ⊎ IsIn (end_of r) rs a

pub IsIn-split :
    (n e : ℕ) (before : List Region) (r : Region) (after : List Region) (a : Allocation)
    → header_size ≤ n
    → n ≤ r.free
    → IsIn e (before ++ (r ∷ after)) a
    → IsIn e (before ++ (shrunk r ∷ carved n r ∷ after)) a
IsIn-split n e [] r after a big fits (inl h) = inl h
IsIn-split n e [] r after a big fits (inr h) =
    let same : end_of r ≡ end_of (carved n r) = omega (arith, big, fits) in
    inr (inr (subst (λ (k : ℕ). IsIn k after a) same h))
IsIn-split n e (x ∷ xs) r after a big fits (inl h) = inl h
IsIn-split n e (x ∷ xs) r after a big fits (inr h) =
    inr (IsIn-split n (end_of x) xs r after a big fits h)

-- the new block
pub IsIn-new :
    (n e : ℕ) (before : List Region) (r : Region) (after : List Region) (a : Allocation)
    → a.ptr ≡ (carved n r).addr + header_size
    → a.bytes ≤ (carved n r).size
    → IsIn e (before ++ (shrunk r ∷ carved n r ∷ after)) a
IsIn-new n e [] r after a at fits = inr (inl (omega arith, at, fits))
IsIn-new n e (x ∷ xs) r after a at fits = inr (IsIn-new n (end_of x) xs r after a at fits)

pub IsIn-merge :
    (e : ℕ) (before : List Region) (q r : Region) (after : List Region) (a : Allocation)
    → end_of q ≡ r.addr
    → a.ptr ≢ r.addr + header_size
    → IsIn e (before ++ (q ∷ r ∷ after)) a
    → IsIn e (before ++ (merged q r ∷ after)) a
IsIn-merge e [] q r after a touch other (inl h) = inl h
IsIn-merge e [] q r after a touch other (inr (inl h)) = absurd (other h.1)
IsIn-merge e [] q r after a touch other (inr (inr h)) =
    let same : end_of r ≡ end_of (merged q r) = omega (arith, touch) in
    inr (subst (λ (k : ℕ). IsIn k after a) same h)
IsIn-merge e (x ∷ xs) q r after a touch other (inl h) = inl h
IsIn-merge e (x ∷ xs) q r after a touch other (inr h) =
    inr (IsIn-merge (end_of x) xs q r after a touch other h)

-- where an allocation is: its block, and the block before it
pub record Place (rs : List Region) (a : Allocation) : Type 0 where
  pub before : List Region
  pub host : Region
  pub block : Region
  pub after : List Region
  pub split : rs ≡ before ++ (host ∷ block ∷ after)
  pub touch : end_of host ≡ block.addr
  pub at : a.ptr ≡ block.addr + header_size

behind-Place :
    (q : Region) (rs : List Region) (a : Allocation) → IsIn (end_of q) rs a → Place (q ∷ rs) a
behind-Place q [] a h = absurd h
behind-Place q (r ∷ rs) a (inl h) = record {
  before = [];
  host = q;
  block = r;
  after = rs;
  split = refl;
  touch = h.0;
  at = h.1;
}
behind-Place q (r ∷ rs) a (inr h) =
    let there = behind-Place r rs a h in
    record {
      before = q ∷ there.before;
      host = there.host;
      block = there.block;
      after = there.after;
      split = ap (λ l. q ∷ l) there.split;
      touch = there.touch;
      at = there.at;
    }

-- nothing touches address 0
pub IsIn-Place : (rs : List Region) (a : Allocation) → Spaced 0 rs → IsIn 0 rs a → Place rs a
IsIn-Place [] a sp h = absurd h
IsIn-Place (r ∷ rs) a sp (inl h) = absurd (omega (arith, h.0, sp.1))
IsIn-Place (r ∷ rs) a sp (inr h) = behind-Place r rs a h

-- a block apart from all blocks is at no allocation
pub IsIn-other :
    (n p e : ℕ) (rs : List Region) (a : Allocation)
    → 0 < n
    → All (Apart n p) rs
    → IsIn e rs a
    → p ≢ a.ptr
IsIn-other n p e [] a pos all h = absurd h
IsIn-other n p e (r ∷ rs) a pos (inl far, all) (inl h) = λ same. omega (arith, far, h.1, same)
IsIn-other n p e (r ∷ rs) a pos (inr far, all) (inl h) = λ same. omega (arith, far, h.1, same, pos)
IsIn-other n p e (r ∷ rs) a pos (_, all) (inr h) = IsIn-other n p (end_of r) rs a pos all h

pub IsIn-aligned :
    (e : ℕ) (rs : List Region) (a : Allocation) → All IsAligned rs → IsIn e rs a → a.ptr % 16 ≡ 0
IsIn-aligned e [] a all h = absurd h
IsIn-aligned e (r ∷ rs) a all (inl h) = omega (arith, h.1, all.0.0)
IsIn-aligned e (r ∷ rs) a all (inr h) = IsIn-aligned (end_of r) rs a all.1 h

IsIn-above :
    (lo e : ℕ) (rs : List Region) (a : Allocation)
    → Spaced lo rs
    → IsIn e rs a
    → lo + header_size ≤ a.ptr
IsIn-above lo e [] a sp h = absurd h
IsIn-above lo e (r ∷ rs) a sp (inl h) = omega (arith, h.1, sp.0)
IsIn-above lo e (r ∷ rs) a sp (inr h) =
    omega (arith, IsIn-above (end_of r) (end_of r) rs a sp.2 h, sp.0)

-- No byte is in both, and there is room for a header between them.
abbrev pub NoOverlap : Allocation → Allocation → Type 0
NoOverlap a b = (a.ptr + a.bytes + header_size ≤ b.ptr) ⊎ (b.ptr + b.bytes + header_size ≤ a.ptr)

pub IsIn-NoOverlap :
    (lo e : ℕ) (rs : List Region) (a b : Allocation)
    → Spaced lo rs
    → IsIn e rs a
    → IsIn e rs b
    → a.ptr ≢ b.ptr
    → NoOverlap a b
IsIn-NoOverlap lo e [] a b sp h k other = absurd h
IsIn-NoOverlap lo e (r ∷ rs) a b sp (inl h) (inl k) other = absurd (other (h.1 ∙ sym k.1))
IsIn-NoOverlap lo e (r ∷ rs) a b sp (inl h) (inr k) other =
    inl (omega (arith, h.1, h.2, IsIn-above (end_of r) (end_of r) rs b sp.2 k))
IsIn-NoOverlap lo e (r ∷ rs) a b sp (inr h) (inl k) other =
    inr (omega (arith, k.1, k.2, IsIn-above (end_of r) (end_of r) rs a sp.2 h))
IsIn-NoOverlap lo e (r ∷ rs) a b sp (inr h) (inr k) other =
    IsIn-NoOverlap (end_of r) (end_of r) rs a b sp.2 h k other
