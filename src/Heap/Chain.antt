-- ===== src/Heap/Chain.antt =====
-- Null-terminated lists of structures, as caches and slabs are linked.
use black_diamond_os.Prelude.{
  refl, sym, ℕ, zero, suc, ◌<◌, ◌≡◌, ◌≢◌, List, [], ◌∷◌, ◌++◌, length, arith, ne→not_eqb, eq→eqb,
}
use black_diamond_os.Machine.{done}
use black_diamond_os.Physical.Regions.{All, All-append}
use black_diamond_os.Heap.{Heap}
use black_diamond_os.Heap.Malloc.{find_cache, last_slab}
use black_diamond_os.Heap.Access.{load_cache-done, load_slab-done}

-- From `p` the `next` pointers lead through `xs` to null.
abbrev pub Chain : (ℕ → ℕ) → ℕ → List ℕ → Type 0
Chain next p [] = p ≡ 0
Chain next p (x ∷ xs) = (p ≡ x) × (0 < x) × Chain next (next x) xs

abbrev pub Distinct : List ℕ → Type 0
Distinct [] = Unit
Distinct (x ∷ xs) = All (λ (y : ℕ). x ≢ y) xs × Distinct xs

abbrev pub last_in : ℕ → List ℕ → ℕ
last_in x [] = x
last_in x (y ∷ ys) = last_in y ys

pub Chain-pos :
    (next : ℕ → ℕ) (p : ℕ) (xs : List ℕ) (c : ℕ) (ys : List ℕ)
    → Chain next p (xs ++ (c ∷ ys))
    → 0 < p
Chain-pos next p [] c ys l = omega arith
Chain-pos next p (x ∷ xs) c ys l = omega arith

-- The search for a cache passes over the caches of other sizes and stops at the first that fits.
pub find_cache-hit :
    (fuel n p : ℕ) (s : Heap) (before : List ℕ) (c : ℕ) (after : List ℕ)
    → Chain (λ a. (s.caches a).next) p (before ++ (c ∷ after))
    → All (λ (d : ℕ). (s.caches d).size ≢ n) before
    → (s.caches c).size ≡ n
    → length before < fuel
    → find_cache fuel n p s ≡ done c s
unfolding find_cache
find_cache-hit zero n p s before c after l others hit h = absurd (omega arith)
find_cache-hit (suc fuel) n p s [] c after l others hit h =
    rw (l.0, load_cache-done c s l.1, eq→eqb (s.caches c).size n hit) (ground arith)
find_cache-hit (suc fuel) n p s (d ∷ ds) c after l others hit h =
    let more = Chain-pos (λ a. (s.caches a).next) _ ds c after l.2 in
    rw
      (
        l.0,
        load_cache-done d s l.1,
        ne→not_eqb (s.caches d).next 0 (omega arith),
        ne→not_eqb (s.caches d).size n others.0,
      )
      (find_cache-hit fuel n _ s ds c after l.2 others.1 hit (omega arith))

-- The walk to the end of a list of slabs.
pub last_slab-done :
    (fuel p : ℕ) (s : Heap) (x : ℕ) (xs : List ℕ)
    → Chain (λ a. (s.slabs a).next) p (x ∷ xs)
    → length xs < fuel
    → last_slab fuel p s ≡ done (last_in x xs) s
unfolding last_slab
last_slab-done zero p s x xs l h = absurd (omega arith)
last_slab-done (suc fuel) p s x [] l h =
    rw (l.0, load_slab-done x s l.1, eq→eqb (s.slabs x).next 0 l.2)
last_slab-done (suc fuel) p s x (y ∷ ys) l h =
    let more = Chain-pos (λ a. (s.slabs a).next) _ [] y ys l.2 in
    rw (l.0, load_slab-done x s l.1, ne→not_eqb (s.slabs x).next 0 (omega arith))
      (last_slab-done fuel _ s y ys l.2 (omega arith))

pub last-ne : (b x : ℕ) (xs : List ℕ) → b ≢ x → All (λ (y : ℕ). b ≢ y) xs → b ≢ last_in x xs
last-ne b x [] h k = h
last-ne b x (y ∷ ys) h k = last-ne b y ys (k.0) (k.1)

pub Chain-ext :
    (next next' : ℕ → ℕ) (p : ℕ) (xs : List ℕ)
    → ((a : ℕ) → next' a ≡ next a)
    → Chain next p xs
    → Chain next' p xs
Chain-ext next next' p [] same l = l
Chain-ext next next' p (x ∷ xs) same l =
    (l.0, l.1, rw (same x) (Chain-ext next next' (next x) xs same l.2))

pub last_in-pos : (next : ℕ → ℕ) (p x : ℕ) (xs : List ℕ) → Chain next p (x ∷ xs) → 0 < last_in x xs
last_in-pos next p x [] l = l.1
last_in-pos next p x (y ∷ ys) l = last_in-pos next (next x) y ys l.2

-- Linking `b` behind the last element.
pub Chain-snoc :
    (next next' : ℕ → ℕ) (b p x : ℕ) (xs : List ℕ)
    → Chain next p (x ∷ xs)
    → Distinct (x ∷ xs)
    → All (λ (y : ℕ). b ≢ y) (x ∷ xs)
    → 0 < b
    → next' (last_in x xs) ≡ b
    → next' b ≡ 0
    → ((a : ℕ) → a ≢ last_in x xs → b ≢ a → next' a ≡ next a)
    → Chain next' p (x ∷ xs ++ (b ∷ []))
Chain-snoc next next' b p x [] l dist out pos end stop same = (l.0, l.1, (end, pos, stop))
Chain-snoc next next' b p x (y ∷ ys) l dist out pos end stop same =
    let x≢last = last-ne x y ys dist.0.0 dist.0.1 in
    let e = same x x≢last out.0 in
    (l.0, l.1, rw e (Chain-snoc next next' b (next x) y ys l.2 dist.1 out.1 pos end stop same))

pub Distinct-snoc :
    (d : ℕ) (xs : List ℕ) → Distinct xs → All (λ (q : ℕ). d ≢ q) xs → Distinct (xs ++ (d ∷ []))
Distinct-snoc d [] v out = (tt, tt)
Distinct-snoc d (x ∷ xs) v out =
    (All-append _ xs (d ∷ []) v.0 ((λ e. out.0 (sym e)), tt), Distinct-snoc d xs v.1 out.1)

pub last_in-snoc : (x : ℕ) (xs : List ℕ) (d : ℕ) → last_in x (xs ++ (d ∷ [])) ≡ d
last_in-snoc x [] d = refl
last_in-snoc x (y ∷ ys) d = last_in-snoc y ys d
