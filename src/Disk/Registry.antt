-- ===== src/Disk/Registry.antt =====
-- `_make_disk` and `get_disk` of kernel/disk/disk.c: the list of disks and its identifiers.
use black_diamond_os.Prelude.{
  Bool-cases, inl, inr, eqb→eq, ℕ, zero, suc, ◌+◌, ◌-◌, ◌%◌, ◌^◌, ◌<◌, ◌≡◌, ◌≢◌, refl, sym, ap, ◌∙◌,
  List, [], ◌∷◌, ◌++◌, length, u8, ◌==◌, eq→eqb, ne→not_eqb, arith,
}
use black_diamond_os.Machine.{done, update}
use black_diamond_os.Physical.Regions.{All}
use black_diamond_os.Heap.{Heap}
use black_diamond_os.Heap.Malloc.{malloc}
use black_diamond_os.Heap.Chain.{
  Chain, Distinct, last_in, last_in-pos, last-ne, Chain-pos, Chain-snoc, Distinct-snoc,
}
use black_diamond_os.Disk.{
  Disk, Disks, disk_bytes, load_disk, store_disk, resume, new_disk, last_disk, link_disk, make_disk,
  find_disk, get_disk,
}

load_disk-done : (p : ℕ) (s : Disks) → 0 < p → load_disk p s ≡ done (s.disks p) s
unfolding load_disk
load_disk-done p s pos = rw (ne→not_eqb p 0 (omega (arith, pos)))

-- the state after a write to a disk
abbrev pub with_disk : Disks → ℕ → (Disk → Disk) → Disks
with_disk s p f = record s { disks = update s.disks p (f (s.disks p)) }

store_disk-done :
    (p : ℕ) (f : Disk → Disk) (s : Disks) → 0 < p → store_disk p f s ≡ done tt (with_disk s p f)
unfolding store_disk
store_disk-done p f s pos = rw (ne→not_eqb p 0 (omega (arith, pos)))

-- The list of disks from `first_disk` on is `ps`.
abbrev pub Holds : Disks → List ℕ → Type 0
Holds s ps = Chain (λ a. (s.disks a).next) s.first_disk ps × Distinct ps

last_disk-done :
    (fuel p i : ℕ) (s : Disks) (x : ℕ) (xs : List ℕ)
    → Chain (λ a. (s.disks a).next) p (x ∷ xs)
    → length xs < fuel
    → i < 2 ^ 8
    → last_disk fuel p i s
      ≡ done (record { prev_disk = last_in x xs; disk_id = (i + length xs) % 2 ^ 8 }) s
unfolding last_disk
last_disk-done zero p i s x xs l h small = absurd (omega (arith, h))
last_disk-done (suc fuel) p i s x [] l h small =
    let same : i ≡ (i + 0) % 2 ^ 8 = omega (arith, small) in
    rw (l.0, load_disk-done x s l.1, eq→eqb (s.disks x).next 0 l.2)
      (ap (λ (k : ℕ). done (record { prev_disk = x; disk_id = k }) s) same)
last_disk-done (suc fuel) p i s x (y ∷ ys) l h small =
    let more = Chain-pos (λ a. (s.disks a).next) _ [] y ys l.2 in
    let same : (u8 (i + 1) + length ys) % 2 ^ 8 ≡ (i + length (y ∷ ys)) % 2 ^ 8 = omega arith in
    rw (l.0, load_disk-done x s l.1, ne→not_eqb (s.disks x).next 0 (omega (arith, more)))
      (last_disk-done fuel _ (u8 (i + 1)) s y ys l.2 (omega (arith, h)) (omega arith)
        ∙ ap (λ (k : ℕ). done (record { prev_disk = last_in y ys; disk_id = k }) s) same)

new_disk-done :
    (fuel d : ℕ) (s : Disks) (h : Heap)
    → malloc fuel disk_bytes s.heap ≡ done d h
    → new_disk fuel s ≡ done d (record s { heap = h })
unfolding new_disk
new_disk-done fuel d s h runs = ap (resume s) runs

-- the state that `_make_disk` leaves when it appends the disk `d` behind the disk `last`
abbrev pub appended : Disks → Heap → ℕ → ℕ → ℕ → Disks
appended s h d last id' =
    let s₁ = with_disk (record s { heap = h }) last (λ k. record k { next = d }) in
    let s₂ = with_disk s₁ d (λ k. record k { id = id' }) in
    with_disk s₂ d (λ k. record k { next = 0 })

make_disk-appended :
    (fuel d : ℕ) (s : Disks) (h : Heap) (x : ℕ) (xs : List ℕ)
    → malloc fuel disk_bytes s.heap ≡ done d h
    → 0 < d
    → Holds s (x ∷ xs)
    → length xs < fuel
    → make_disk fuel s ≡ done d (appended s h d (last_in x xs) ((0 + length xs) % 2 ^ 8))
unfolding make_disk link_disk
make_disk-appended fuel d s h x xs runs pos v enough =
    let first = Chain-pos (λ a. (s.disks a).next) s.first_disk [] x xs v.0 in
    let last_pos = last_in-pos (λ a. (s.disks a).next) s.first_disk x xs v.0 in
    rw
      (
        new_disk-done fuel d s h runs,
        ne→not_eqb s.first_disk 0 (omega (arith, first)),
        last_disk-done fuel s.first_disk 0 (record s { heap = h }) x xs v.0 enough (omega arith),
      )
      (rw
        (store_disk-done (last_in x xs) (λ k. record k { next = d }) (record s { heap = h })
          last_pos)
        (rw (store_disk-done d _ _ pos) (rw (store_disk-done d _ _ pos))))

only_disk :
    (fuel d : ℕ) (s : Disks) (h : Heap)
    → malloc fuel disk_bytes s.heap ≡ done d h
    → 0 < d
    → s.first_disk ≡ 0
    → make_disk fuel s
      ≡ done d (
          with_disk
            (with_disk (record s { heap = h; first_disk = d }) d (λ k. record k { id = 0 }))
            d
            (λ k. record k { next = 0 }))
unfolding make_disk link_disk
only_disk fuel d s h runs pos none =
    rw (new_disk-done fuel d s h runs, none)
      (rw (store_disk-done d _ _ pos) (rw (store_disk-done d _ _ pos)))

-- the identifier that `_make_disk` gives to a disk behind `n` disks
abbrev pub id_behind : ℕ → ℕ
id_behind n = (n - 1) % 2 ^ 8

-- With memory from `malloc` at an address that holds no disk yet, and fuel above the number of
-- disks, `_make_disk` appends the disk to the list, with the number of disks before it less one as
-- its identifier, and 0 if there is none, and changes no other identifier.
pub make_disk-Holds :
    (fuel d : ℕ) (s : Disks) (h : Heap) (ps : List ℕ)
    → malloc fuel disk_bytes s.heap ≡ done d h
    → 0 < d
    → Holds s ps
    → All (λ (q : ℕ). d ≢ q) ps
    → length ps < fuel
    → (s' : Disks) × (make_disk fuel s ≡ done d s')
      × Holds s' (ps ++ (d ∷ []))
      × ((s'.disks d).id ≡ id_behind (length ps))
      × ((q : ℕ) → d ≢ q → (s'.disks q).id ≡ (s.disks q).id)
make_disk-Holds fuel d s h [] runs pos v out enough =
    let blank = record s { heap = h; first_disk = d } in
    (
      with_disk (with_disk blank d (λ k. record k { id = 0 })) d (λ k. record k { next = 0 }),
      only_disk fuel d s h runs pos v.0,
      ((refl, pos, rw (eq→eqb d d refl)), (tt, tt)),
      rw (eq→eqb d d refl) (omega arith),
      λ q ne. rw (ne→not_eqb q d (λ e. ne (sym e))),
    )
make_disk-Holds fuel d s h (x ∷ xs) runs pos v out enough =
    let last = last_in x xs in
    let i = (0 + length xs) % 2 ^ 8 in
    let next_old = λ (a : ℕ). (s.disks a).next in
    let other : d ≢ last = last-ne d x xs out.0 out.1 in
    let other' : last ≢ d = λ e. other (sym e) in
    (
      appended s h d last i,
      make_disk-appended fuel d s h x xs runs pos v (omega (arith, enough)),
      (
        Chain-snoc next_old _ d s.first_disk x xs v.0 v.1 out pos
            (rw (ne→not_eqb last d other', eq→eqb last last refl)) (rw (eq→eqb d d refl))
            (λ a n k. rw (ne→not_eqb a d (λ e. k (sym e)), ne→not_eqb a last n)),
        Distinct-snoc d (x ∷ xs) v.1 out,
      ),
      rw (eq→eqb d d refl) (omega arith),
      λ q n. rw (ne→not_eqb q d (λ e. n (sym e))) (elim (Bool-cases (q == last)) [
        | inl e ↦ rw e (ap (λ (a : ℕ). (s.disks a).id) (sym (eqb→eq q last e)))
        | inr e ↦ rw e
      ]),
    )

find_disk-done :
    (fuel i p c : ℕ) (s : Disks) (before after : List ℕ)
    → Chain (λ a. (s.disks a).next) p (before ++ (c ∷ after))
    → All (λ (q : ℕ). (s.disks q).id ≢ i) before
    → (s.disks c).id ≡ i
    → length before < fuel
    → find_disk fuel i p s ≡ done c s
unfolding find_disk
find_disk-done zero i p c s before after l others hit h = absurd (omega (arith, h))
find_disk-done (suc fuel) i p c s [] after l others hit h =
    rw (l.0, load_disk-done c s l.1, eq→eqb (s.disks c).id i hit)
find_disk-done (suc fuel) i p c s (q ∷ qs) after l others hit h =
    rw (l.0, load_disk-done q s l.1, ne→not_eqb (s.disks q).id i others.0)
      (find_disk-done fuel i _ c s qs after l.2 others.1 hit (omega (arith, h)))

-- `get_disk` returns the first disk of the list that has the identifier, with fuel above the
-- number of disks before it.
pub get_disk-first :
    (fuel i c : ℕ) (s : Disks) (before after : List ℕ)
    → Chain (λ a. (s.disks a).next) s.first_disk (before ++ (c ∷ after))
    → All (λ (q : ℕ). (s.disks q).id ≢ i) before
    → (s.disks c).id ≡ i
    → length before < fuel
    → get_disk fuel i s ≡ done c s
unfolding get_disk
get_disk-first fuel i c s before after l others hit h =
    find_disk-done fuel i s.first_disk c s before after l others hit h

-- Where one disk is in the list and has the identifier 0, the next disk that `_make_disk` makes has
-- the identifier 0 too, and `get_disk` of 0 still returns the first.
make_disk-duplicate :
    (fuel d x : ℕ) (s : Disks) (h : Heap)
    → malloc (suc (suc fuel)) disk_bytes s.heap ≡ done d h
    → 0 < d
    → Holds s (x ∷ [])
    → d ≢ x
    → (s.disks x).id ≡ 0
    → (s' : Disks) × (make_disk (suc (suc fuel)) s ≡ done d s')
      × ((s'.disks d).id ≡ 0)
      × (get_disk (suc (suc fuel)) 0 s' ≡ done x s')
make_disk-duplicate fuel d x s h runs pos v other zero_id =
    let (s', made, v', new_id, ids) =
      make_disk-Holds (suc (suc fuel)) d s h (x ∷ []) runs pos v (other, tt) (omega arith) in
    (
      s',
      made,
      new_id,
      get_disk-first (suc (suc fuel)) 0 x s' [] (d ∷ []) v'.0 tt (ids x other ∙ zero_id)
          (omega arith),
    )
