-- ===== src/Physical/Chain.antt =====
-- How the block headers in memory represent the regions.
use black_diamond_os.Prelude.{ℕ, ◌≤◌, ◌<◌, ◌^◌, ◌≡◌, refl, List, [], ◌∷◌, ◌++◌, ◌∙◌, arith}
use black_diamond_os.Machine.{Memory}
use black_diamond_os.Physical.{Block, Phys, lead_sig_value, trail_sig_value}
use black_diamond_os.Physical.Regions.{Region, Spaced, end_of, All, All-mono}

abbrev pub header : ℕ → Region → ℕ → Block
header prev r next = record {
  lead_sig = lead_sig_value;
  next = next;
  prev = prev;
  size = r.size;
  free_mem_following = r.free;
  trail_sig = trail_sig_value;
}

-- the address of the first region, or `next` if there is none
abbrev pub first_of : List Region → ℕ → ℕ
first_of [] next = next
first_of (r ∷ rs) next = r.addr

-- the address of the last region, or `prev` if there is none
abbrev pub last_of : ℕ → List Region → ℕ
last_of prev [] = prev
last_of prev (r ∷ rs) = last_of r.addr rs

-- The headers of `rs`, linked both ways, between a block at `prev` and one at `next`.
abbrev pub Linked : Memory Block → ℕ → List Region → ℕ → Type 0
Linked m prev [] next = Unit
Linked m prev (r ∷ rs) next =
    (m r.addr ≡ header prev r (first_of rs next)) × Linked m r.addr rs next

-- The state holds exactly the regions `rs`.
pub record Represents (s : Phys) (rs : List Region) : Type 0 where
  pub linked : Linked s.blocks 0 rs 0
  pub first : s.first_block ≡ first_of rs 0
  pub final : s.final_block ≡ last_of 0 rs
  pub spaced : Spaced 0 rs

pub first_of-append :
    (xs : List Region) (r : Region) (ys : List Region) (next : ℕ)
    → first_of (xs ++ (r ∷ ys)) next ≡ first_of xs r.addr
first_of-append [] r ys next = refl
first_of-append (x ∷ xs) r ys next = refl

weaken : (lo hi : ℕ) (xs : List Region) → lo ≤ hi → Spaced hi xs → Spaced lo xs
weaken lo hi [] h sp = omega arith
weaken lo hi (x ∷ xs) h sp = (omega arith, sp.1, sp.2)

pub last_of-append :
    (prev : ℕ) (xs ys : List Region) → last_of prev (xs ++ ys) ≡ last_of (last_of prev xs) ys
last_of-append prev [] ys = refl
last_of-append prev (x ∷ xs) ys = last_of-append x.addr xs ys

-- A chain splits at each of its blocks.
pub Linked_split :
    (m : Memory Block) (prev : ℕ) (xs : List Region) (r : Region) (ys : List Region) (next : ℕ)
    → Linked m prev (xs ++ (r ∷ ys)) next
    → Linked m prev xs r.addr × Linked m (last_of prev xs) (r ∷ ys) next
Linked_split m prev [] r ys next l = (tt, l)
Linked_split m prev (x ∷ xs) r ys next l =
    let (front, back) = Linked_split m x.addr xs r ys next l.1 in
    ((rw (first_of-append xs r ys next) at (l.0), front), back)

pub Linked-append :
    (m : Memory Block) (prev : ℕ) (xs : List Region) (r : Region) (ys : List Region) (next : ℕ)
    → Linked m prev xs r.addr
    → Linked m (last_of prev xs) (r ∷ ys) next
    → Linked m prev (xs ++ (r ∷ ys)) next
Linked-append m prev [] r ys next l k = k
Linked-append m prev (x ∷ xs) r ys next l k =
    (rw (first_of-append xs r ys next) (l.0), Linked-append m x.addr xs r ys next (l.1) k)

-- the blocks of a spaced list lie at its lower bound or above
pub Spaced-above : (lo : ℕ) (xs : List Region) → Spaced lo xs → All (λ (q : Region). lo ≤ q.addr) xs
Spaced-above lo [] sp = tt
Spaced-above lo (x ∷ xs) sp =
    (sp.0, All-mono _ _ xs (λ q h. omega arith) (Spaced-above (end_of x) xs sp.2))

-- and its lower bound is an address
pub Spaced-lt : (lo : ℕ) (xs : List Region) → Spaced lo xs → lo < 2 ^ 64
Spaced-lt lo [] sp = sp
Spaced-lt lo (x ∷ xs) sp = omega (arith, Spaced-lt (end_of x) xs sp.2)

-- and before a block stand only lower addresses, with room up to it
pub Spaced-split :
    (lo : ℕ) (xs : List Region) (r : Region) (ys : List Region)
    → Spaced lo (xs ++ (r ∷ ys))
    → All (λ (q : Region). end_of q ≤ r.addr) xs
      × (lo ≤ r.addr)
      × (0 < r.addr)
      × Spaced (end_of r) ys
Spaced-split lo [] r ys sp = (tt, sp.0, sp.1, sp.2)
Spaced-split lo (x ∷ xs) r ys sp =
    let rest = Spaced-split (end_of x) xs r ys sp.2 in
    ((rest.1, rest.0), omega arith, rest.2, rest.3)

-- what replaces a block may use the room from its address on
pub Spaced-replace :
    (lo : ℕ) (xs : List Region) (r : Region) (ys zs : List Region)
    → Spaced lo (xs ++ (r ∷ ys))
    → Spaced r.addr zs
    → Spaced lo (xs ++ zs)
Spaced-replace lo [] r ys zs sp new = weaken lo r.addr zs sp.0 new
Spaced-replace lo (x ∷ xs) r ys zs sp new =
    (sp.0, sp.1, Spaced-replace (end_of x) xs r ys zs sp.2 new)

-- A chain survives writes elsewhere.
pub frame :
    (m m' : Memory Block) (prev next : ℕ) (xs : List Region)
    → Linked m prev xs next
    → All (λ (q : Region). m' q.addr ≡ m q.addr) xs
    → Linked m' prev xs next
frame m m' prev next [] l same = tt
frame m m' prev next (x ∷ xs) l same = (same.0 ∙ l.0, frame m m' x.addr next xs l.1 same.1)
