-- ===== src/Heap/Put.antt =====
-- The free list of a slab that is not full, when an object comes back.
use mathlib.Core.List.{Perm}
use mathlib.Core.List.Perm
use black_diamond_os.Prelude.{
  ℕ, zero, suc, ◌<◌, ◌≡◌, ◌≢◌, refl, sym, ap, ◌∙◌, inl, inr, List, [], ◌∷◌, length, arith, ltb,
  if◌then◌else◌, Bool-cases, ne→not_eqb, eq→eqb, lt→ltb,
}
use black_diamond_os.Machine.{Memory, update, done}
use black_diamond_os.Physical.Regions.{All}
use black_diamond_os.Heap.{Heap}
use black_diamond_os.Heap.Free.{find_gap, put_object}
use black_diamond_os.Heap.Access.{load_slab-done, load_word-done, store_word-done}
use black_diamond_os.Heap.FreeList.{FreeList}
use black_diamond_os.Heap.Chain.{Distinct}

-- the object after which `alloc` goes: the first whose successor lies above it, or the last
unfoldable pub gap : ℕ → ℕ → List ℕ → ℕ
gap alloc x [] = x
gap alloc x (y ∷ ys) = let later = gap alloc y ys in if ltb alloc y then x else later

-- the free list afterwards
unfoldable pub insert_free : ℕ → ℕ → List ℕ → List ℕ
insert_free alloc x [] = x ∷ alloc ∷ []
insert_free alloc x (y ∷ ys) =
    let later = insert_free alloc y ys in if ltb alloc y then x ∷ alloc ∷ y ∷ ys else x ∷ later

pub insert_free-perm : (alloc x : ℕ) (xs : List ℕ) → Perm (insert_free alloc x xs) (alloc ∷ x ∷ xs)
unfolding insert_free
insert_free-perm alloc x [] = Perm.swap alloc x []
insert_free-perm alloc x (y ∷ ys) = elim (Bool-cases (ltb alloc y)) [
  | inl h ↦ rw h (Perm.swap alloc x (y ∷ ys))
  | inr h ↦
      rw h (Perm.trans (Perm.cons x (insert_free-perm alloc y ys)) (Perm.swap alloc x (y ∷ ys)))
]

-- The walk ends at the gap, if the list ends at an address above the object.
find_gap-gap :
    (fuel alloc : ℕ) (s : Heap) (x : ℕ) (xs : List ℕ) (end : ℕ)
    → FreeList s.words x (x ∷ xs) end
    → alloc < end
    → length xs < fuel
    → find_gap fuel alloc x s ≡ done (gap alloc x xs) s
unfolding find_gap gap
find_gap-gap zero alloc s x xs end l high h = absurd (omega arith)
find_gap-gap (suc fuel) alloc s x [] end l high h =
    rw (load_word-done x s l.1, lt→ltb alloc (s.words x) (omega (arith, l.2)))
find_gap-gap (suc fuel) alloc s x (y ∷ ys) end l high h =
    let again : find_gap fuel alloc (s.words x) s ≡ done (gap alloc y ys) s =
      ap (λ (p : ℕ). find_gap fuel alloc p s) l.2.0
      ∙ find_gap-gap fuel alloc s y ys end (refl, l.2.1, l.2.2) high (omega arith) in
    let same : ltb alloc (s.words x) ≡ ltb alloc y = ap (λ (p : ℕ). ltb alloc p) l.2.0 in
    rw (load_word-done x s l.1, same)
      (elim (Bool-cases (ltb alloc y)) [
        | inl t ↦ rw t
        | inr t ↦ rw (t, ne→not_eqb x 0 (omega (arith, l.1))) again
      ])

-- memory afterwards, for a gap at `g`
abbrev put_words : Memory ℕ → ℕ → ℕ → Memory ℕ
put_words w alloc g = update (update w alloc (w g)) g alloc

gap-ne : (alloc z x : ℕ) (xs : List ℕ) → All (λ (y : ℕ). z ≢ y) (x ∷ xs) → z ≢ gap alloc x xs
unfolding gap
gap-ne alloc z x [] out = out.0
gap-ne alloc z x (y ∷ ys) out = elim (Bool-cases (ltb alloc y)) [
  | inl h ↦ rw h (out.0)
  | inr h ↦ rw h (gap-ne alloc z y ys out.1)
]

gap-pos :
    (w : Memory ℕ) (alloc p x : ℕ) (xs : List ℕ) (end : ℕ)
    → FreeList w p (x ∷ xs) end
    → 0 < gap alloc x xs
unfolding gap
gap-pos w alloc p x [] end l = l.1
gap-pos w alloc p x (y ∷ ys) end l = elim (Bool-cases (ltb alloc y)) [
  | inl h ↦ rw h (l.1)
  | inr h ↦ rw h (gap-pos w alloc (w x) y ys end l.2)
]

frame_words :
    (w : Memory ℕ) (alloc g p : ℕ) (xs : List ℕ) (end : ℕ)
    → FreeList w p xs end
    → All (λ (y : ℕ). alloc ≢ y) xs
    → All (λ (y : ℕ). g ≢ y) xs
    → FreeList (put_words w alloc g) p xs end
frame_words w alloc g p [] end l out apart = l
frame_words w alloc g p (x ∷ xs) end l out apart =
    let same : put_words w alloc g x ≡ w x =
      rw (ne→not_eqb x g (λ e. apart.0 (sym e)), ne→not_eqb x alloc (λ e. out.0 (sym e))) in
    (l.0, l.1, rw same (frame_words w alloc g (w x) xs end l.2 out.1 apart.1))

put_words-FreeList :
    (w : Memory ℕ) (alloc p x : ℕ) (xs : List ℕ) (end : ℕ)
    → FreeList w p (x ∷ xs) end
    → 0 < alloc
    → Distinct (x ∷ xs)
    → All (λ (y : ℕ). alloc ≢ y) (x ∷ xs)
    → FreeList (put_words w alloc (gap alloc x xs)) p (insert_free alloc x xs) end
unfolding gap insert_free
put_words-FreeList w alloc p x [] end l pos dist out = (
  l.0,
  l.1,
  (rw (eq→eqb x x refl), pos, rw (ne→not_eqb alloc x out.0, eq→eqb alloc alloc refl) (l.2)),
)
put_words-FreeList w alloc p x (y ∷ ys) end l pos dist out = elim (Bool-cases (ltb alloc y)) [
  | inl t ↦ rw t (
    l.0,
    l.1,
    (
      rw (eq→eqb x x refl),
      pos,
      rw (ne→not_eqb alloc x out.0, eq→eqb alloc alloc refl)
          (frame_words w alloc x (w x) (y ∷ ys) end l.2 out.1 dist.0),
    ),
  )
  | inr t ↦
      let g = gap alloc y ys in
      let same : put_words w alloc g x ≡ w x =
        rw (ne→not_eqb x g (gap-ne alloc x y ys dist.0), ne→not_eqb x alloc (λ e. out.0 (sym e))) in
      rw t (l.0, l.1, rw same (put_words-FreeList w alloc (w x) y ys end l.2 pos dist.1 out.1))
]

-- An object that comes back to a slab that is not full, whose free list holds distinct objects,
-- not this one, and ends above it, goes behind the first of them whose successor lies above it,
-- with fuel above their number; the list then holds the object besides what it held.
pub put_object-FreeList :
    (fuel alloc b : ℕ) (s : Heap) (x : ℕ) (xs : List ℕ) (end : ℕ)
    → 0 < b
    → 0 < alloc
    → (s.slabs b).allocated_objects ≢ (s.slabs b).max_objects
    → FreeList s.words (s.slabs b).first_free_object (x ∷ xs) end
    → Distinct (x ∷ xs)
    → All (λ (y : ℕ). alloc ≢ y) (x ∷ xs)
    → alloc < end
    → length xs < fuel
    → (s' : Heap) × (put_object fuel alloc b s ≡ done tt s')
      × FreeList s'.words (s'.slabs b).first_free_object (insert_free alloc x xs) end
      × Perm (insert_free alloc x xs) (alloc ∷ x ∷ xs)
unfolding put_object
put_object-FreeList fuel alloc b s x xs end b_pos pos more l dist out high h =
    let g = gap alloc x xs in
    let g_pos : 0 < g = gap-pos s.words alloc _ x xs end l in
    let walk : find_gap fuel alloc (s.slabs b).first_free_object s ≡ done g s =
      ap (λ (p : ℕ). find_gap fuel alloc p s) l.0
      ∙ find_gap-gap fuel alloc s x xs end (refl, l.1, l.2) high h in
    (
      record s { words = put_words s.words alloc g },
      rw (load_slab-done b s b_pos, ne→not_eqb _ _ more, walk)
          (rw (load_word-done g s g_pos)
            (rw (store_word-done alloc s pos) (rw (store_word-done g _ g_pos)))),
      put_words-FreeList s.words alloc _ x xs end l pos dist out,
      insert_free-perm alloc x xs,
    )
