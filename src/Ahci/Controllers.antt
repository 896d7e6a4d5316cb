-- ===== src/Ahci/Controllers.antt =====
-- The list of controllers that `__make_ahci_controller` of kernel/disk/ahci.c extends.
use black_diamond_os.Prelude.{
  ℕ, zero, suc, ◌<◌, ◌≡◌, ◌≢◌, refl, sym, ap, List, [], ◌∷◌, ◌++◌, length, eq→eqb, ne→not_eqb,
  arith,
}
use black_diamond_os.Machine.{done, update}
use black_diamond_os.Physical.Regions.{All}
use black_diamond_os.Heap.{Heap}
use black_diamond_os.Heap.Malloc.{malloc}
use black_diamond_os.Heap.Chain.{
  Chain, Distinct, last_in, last_in-pos, last-ne, Chain-pos, Chain-snoc, Distinct-snoc,
}
use black_diamond_os.Ahci.{
  Ahci, Controller, controller_bytes, load_controller, store_controller, on_heap, resume_heap,
}
use black_diamond_os.Ahci.Driver.{last_controller, register_controller}

load_controller-done : (p : ℕ) (s : Ahci) → 0 < p → load_controller p s ≡ done (s.controllers p) s
unfolding load_controller
load_controller-done p s pos = rw (ne→not_eqb p 0 (omega (arith, pos)))

-- the state after a write to a controller
abbrev with_controller : Ahci → ℕ → (Controller → Controller) → Ahci
with_controller s p f = record s { controllers = update s.controllers p (f (s.controllers p)) }

store_controller-done :
    (p : ℕ) (f : Controller → Controller) (s : Ahci)
    → 0 < p
    → store_controller p f s ≡ done tt (with_controller s p f)
unfolding store_controller
store_controller-done p f s pos = rw (ne→not_eqb p 0 (omega (arith, pos)))

-- The list of controllers from `first_ahci_controller` on is `ps`.
abbrev pub Registered : Ahci → List ℕ → Type 0
Registered s ps = Chain (λ a. (s.controllers a).next) s.first_ahci_controller ps × Distinct ps

last_controller-done :
    (fuel p : ℕ) (s : Ahci) (x : ℕ) (xs : List ℕ)
    → Chain (λ a. (s.controllers a).next) p (x ∷ xs)
    → length xs < fuel
    → last_controller fuel p s ≡ done (last_in x xs) s
unfolding last_controller
last_controller-done zero p s x xs l h = absurd (omega (arith, h))
last_controller-done (suc fuel) p s x [] l h =
    rw (l.0, load_controller-done x s l.1, eq→eqb (s.controllers x).next 0 l.2)
last_controller-done (suc fuel) p s x (y ∷ ys) l h =
    let more = Chain-pos (λ a. (s.controllers a).next) _ [] y ys l.2 in
    rw
      (l.0, load_controller-done x s l.1, ne→not_eqb (s.controllers x).next 0 (omega (arith, more)))
      (last_controller-done fuel _ s y ys l.2 (omega (arith, h)))

-- the state with the new controller in memory
abbrev made : Ahci → Heap → ℕ → ℕ → Ahci
made s h d bar =
    with_controller (record s { pci = record s.pci { heap = h } }) d
      (λ c. record c { abar = bar; next = 0 })

new_controller-done :
    (fuel d : ℕ) (s : Ahci) (h : Heap)
    → malloc fuel controller_bytes s.pci.heap ≡ done d h
    → on_heap (malloc fuel controller_bytes) s
      ≡ done d (record s { pci = record s.pci { heap = h } })
unfolding on_heap
new_controller-done fuel d s h runs = ap (resume_heap s) runs

Chain-apart :
    (next next' : ℕ → ℕ) (d p : ℕ) (xs : List ℕ)
    → Chain next p xs
    → All (λ (q : ℕ). d ≢ q) xs
    → ((a : ℕ) → d ≢ a → next' a ≡ next a)
    → Chain next' p xs
Chain-apart next next' d p [] l out same = l
Chain-apart next next' d p (x ∷ xs) l out same =
    (l.0, l.1, rw (same x out.0) (Chain-apart next next' d (next x) xs l.2 out.1 same))

-- `register_controller`, the part of `__make_ahci_controller` that runs after `__init_controller`
-- answered 1 and before the ports are set up, with memory from `malloc` at an address that holds no
-- controller yet, and fuel above the number of controllers, appends the controller, with the base of
-- its registers, to the list of controllers that ends at null, whose others keep their order.
pub register_controller-Registered :
    (fuel d bar : ℕ) (s : Ahci) (h : Heap) (ps : List ℕ)
    → malloc fuel controller_bytes s.pci.heap ≡ done d h
    → 0 < d
    → Registered s ps
    → All (λ (q : ℕ). d ≢ q) ps
    → length ps < fuel
    → (s' : Ahci) × (register_controller fuel bar s ≡ done d s')
      × Registered s' (ps ++ (d ∷ []))
      × ((s'.controllers d).abar ≡ bar)
unfolding register_controller
register_controller-Registered fuel d bar s h [] runs pos v out enough =
    let s₁ = made s h d bar in
    (
      record s₁ { first_ahci_controller = d },
      rw (new_controller-done fuel d s h runs) (
          rw (store_controller-done d (λ c. record c { abar = bar; next = 0 }) _ pos)
            (rw (v.0) refl)),
      ((refl, pos, rw (eq→eqb d d refl) refl), (tt, tt)),
      rw (eq→eqb d d refl) refl,
    )
register_controller-Registered fuel d bar s h (x ∷ xs) runs pos v out enough =
    let last = last_in x xs in
    let s₁ = made s h d bar in
    let next_old = λ (a : ℕ). (s.controllers a).next in
    let next_mid = λ (a : ℕ). (s₁.controllers a).next in
    let other : d ≢ last = last-ne d x xs out.0 out.1 in
    let other' : last ≢ d = λ e. other (sym e) in
    let first = Chain-pos next_old s.first_ahci_controller [] x xs v.0 in
    let last_pos = last_in-pos next_old s.first_ahci_controller x xs v.0 in
    let mid : Chain next_mid s.first_ahci_controller (x ∷ xs) =
      Chain-apart next_old next_mid d s.first_ahci_controller (x ∷ xs) v.0 out
        (λ a n. rw (ne→not_eqb a d (λ e. n (sym e))) refl) in
    let s₂ = with_controller s₁ last (λ c. record c { next = d }) in
    (
      s₂,
      rw (new_controller-done fuel d s h runs) (
          rw (store_controller-done d (λ c. record c { abar = bar; next = 0 }) _ pos) (
            rw
              (
                ne→not_eqb s.first_ahci_controller 0 (omega (arith, first)),
                last_controller-done fuel s.first_ahci_controller s₁ x xs mid
                    (omega (arith, enough)),
              )
              (rw (store_controller-done last (λ c. record c { next = d }) s₁ last_pos) refl))),
      (
        Chain-snoc next_mid (λ a. (s₂.controllers a).next) d s.first_ahci_controller x xs mid v.1
            out pos (rw (eq→eqb last last refl) refl)
            (rw (ne→not_eqb d last other, eq→eqb d d refl) refl)
            (λ a n k. rw (ne→not_eqb a last n) refl),
        Distinct-snoc d (x ∷ xs) v.1 out,
      ),
      rw (ne→not_eqb d last other, eq→eqb d d refl) refl,
    )
