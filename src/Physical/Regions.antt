-- ===== src/Physical/Regions.antt =====
-- The abstract view of physical memory: the blocks in address order, each an allocation with the
-- free bytes behind it, and the best-fit choice among them.
use black_diamond_os.Prelude.{ℕ, ◌+◌, ◌%◌, ◌^◌, ◌≤◌, ◌<◌, ◌≡◌, List, [], ◌∷◌, ◌++◌, if◌then◌else◌}
use black_diamond_os.Physical.{header_size, better}

pub record Region : Type 0 where
  pub addr : ℕ
  pub size : ℕ
  pub free : ℕ

-- the first address behind the block and its free bytes
abbrev pub end_of : Region → ℕ
end_of r = r.addr + header_size + r.size + r.free

abbrev pub All {ℓ κ} : {A : Type ℓ} → (A → Type κ) → List A → Type κ
All P [] = Unit
All P (x ∷ xs) = P x × All P xs

pub All-append {ℓ κ} :
    {A : Type ℓ} (P : A → Type κ) (xs ys : List A) → All P xs → All P ys → All P (xs ++ ys)
All-append P [] ys p q = q
All-append P (x ∷ xs) ys p q = (p.0, All-append P xs ys p.1 q)

pub All-left {ℓ κ} : {A : Type ℓ} (P : A → Type κ) (xs ys : List A) → All P (xs ++ ys) → All P xs
All-left P [] ys p = tt
All-left P (x ∷ xs) ys p = (p.0, All-left P xs ys p.1)

pub All-right {ℓ κ} : {A : Type ℓ} (P : A → Type κ) (xs ys : List A) → All P (xs ++ ys) → All P ys
All-right P [] ys p = p
All-right P (x ∷ xs) ys p = All-right P xs ys p.1

pub All-mono {ℓ κ μ} :
    {A : Type ℓ} (P : A → Type κ) (Q : A → Type μ) (xs : List A)
    → ((x : A) → P x → Q x)
    → All P xs
    → All Q xs
All-mono P Q [] f p = tt
All-mono P Q (x ∷ xs) f p = (f x p.0, All-mono P Q xs f p.1)

-- From `lo` on the regions lie one behind the other, none overlaps the next, and all end within
-- the address space.
abbrev pub Spaced : ℕ → List Region → Type 0
Spaced lo [] = lo < 2 ^ 64
Spaced lo (r ∷ rs) = (lo ≤ r.addr) × (0 < r.addr) × Spaced (end_of r) rs

-- A block whose header and allocation are multiples of 16.
abbrev pub IsAligned : Region → Type 0
IsAligned r = (r.addr % 16 ≡ 0) × (r.size % 16 ≡ 0)

-- all the bytes that the blocks manage, headers included
unfoldable pub total : List Region → ℕ
total [] = 0
total (r ∷ rs) = header_size + r.size + r.free + total rs

-- What the loop of phys_alloc selects, as a function of the regions.
unfoldable pub best : ℕ → ℕ → ℕ → List Region → ℕ
best size sel free [] = sel
best size sel free (r ∷ rs) =
    let chosen = better size r.free sel free in
    best size (if chosen then r.addr else sel) (if chosen then r.free else free) rs

-- Nothing in `rs` beats what was selected before.
abbrev pub NoneBetter : ℕ → ℕ → ℕ → List Region → Type 0
NoneBetter size sel free rs = All (λ (q : Region). size ≤ q.free → (0 < sel) × (free ≤ q.free)) rs

-- `r` fits the request, and no region that fits has less free memory behind it.
pub record IsBest (size : ℕ) (r : Region) (rs : List Region) : Type 0 where
  pub fits : size ≤ r.free
  pub least : All (λ (q : Region). size ≤ q.free → r.free ≤ q.free) rs

pub data Pick (size sel free : ℕ) (rs : List Region) (result : ℕ) : Type 0 where
  kept : result ≡ sel → NoneBetter size sel free rs → Pick size sel free rs result
  found :
      (before : List Region) (r : Region) (after : List Region)
      → rs ≡ before ++ (r ∷ after)
      → result ≡ r.addr
      → IsBest size r rs
      → ((0 < sel) → r.free < free)
      → Pick size sel free rs result
