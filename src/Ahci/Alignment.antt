-- ===== src/Ahci/Alignment.antt =====
-- The aligned structures of `__init_port` of kernel/disk/ahci.c: their memory is large enough.
use black_diamond_os.Prelude.{
  ℕ, ◌+◌, ◌-◌, ◌*◌, ◌/◌, ◌%◌, ◌^◌, ◌<◌, ◌≤◌, ◌≡◌, refl, ap, ◌⊎◌, inl, inr, le→leb, lt→ltb,
  ne→not_eqb, arith,
}
use native.Mathlib.Nat.{div-add-mod', mod-lt}
use black_diamond_os.Machine.{done}
use black_diamond_os.Heap.{Heap}
use black_diamond_os.Heap.Malloc.{cmalloc}
use black_diamond_os.Utils.{align}
use black_diamond_os.Utils.Align.{align-least}
use black_diamond_os.Ahci.{
  Ahci, new_zeroed, on_heap, resume_heap, with_zeros, cmdheader_bytes, cmdtable_bytes,
}
use black_diamond_os.Ahci.Port.{new_aligned}

multiple_of : (q al : ℕ) → 0 < al → q * al % al ≡ 0
multiple_of q al pos = grind arith

-- `align` goes up by less than the alignment.
align-near : (p al : ℕ) → 0 < al → p + al ≤ 2 ^ 64 → align p al < p + al
align-near p al pos fits =
    let q = (p + (al - 1)) / al in
    let whole = div-add-mod' (p + (al - 1)) al in
    let below = mod-lt (p + (al - 1)) pos in
    let (_, _, least) = align-least p al pos fits in
    omega
      (arith, least (q * al) (multiple_of q al pos) (omega (arith, whole, below, pos)), whole, pos)

-- The memory has room for an aligned structure of `need` bytes: in any case, or because addresses
-- and the alignment are even.
abbrev pub HasRoom : ℕ → ℕ → ℕ → ℕ → Type 0
HasRoom p need size al =
    (need + al ≤ size + 1) ⊎ ((p % 2 ≡ 0) × (al % 2 ≡ 0) × (need + al ≤ size + 2))

twice : (x c : ℕ) → x * (2 * c) ≡ 2 * (x * c)
twice x c = grind arith

even_multiple : (q al : ℕ) → 0 < al → al % 2 ≡ 0 → q % al ≡ 0 → q % 2 ≡ 0
even_multiple q al pos e h =
    let x = q / al in
    let c = al / 2 in
    let whole = div-add-mod' q al in
    let halves : al ≡ 2 * c = omega (arith, e) in
    omega (arith, whole, h, ap (λ (a : ℕ). x * a) halves, twice x c)

room :
    (p need size al : ℕ)
    → HasRoom p need size al
    → 0 < al
    → p + al ≤ 2 ^ 64
    → align p al + need ≤ p + size
room p need size al (inl r) pos fits = omega (arith, r, align-near p al pos fits)
room p need size al (inr (e, e', r)) pos fits =
    let (whole, _, _) = align-least p al pos fits in
    let even = even_multiple (align p al) al pos e' whole in
    omega (arith, r, align-near p al pos fits, e, even)

new_zeroed-done :
    (fuel size p : ℕ) (s : Ahci) (h : Heap)
    → cmalloc fuel size s.pci.heap ≡ done p h
    → 0 < p
    → new_zeroed fuel size s
      ≡ done p (with_zeros (record s { pci = record s.pci { heap = h } }) p size)
unfolding new_zeroed on_heap
new_zeroed-done fuel size p s h runs pos =
    rw (ap (resume_heap s) runs) (rw (ne→not_eqb p 0 (omega (arith, pos))) refl)

-- There is room for the received frames, at an even address, for the command list, and for a
-- command table.
pub HasRoom-port :
    (p : ℕ)
    → p % 2 ≡ 0
    → HasRoom p 256 (255 + 255) 256
      × HasRoom p (cmdheader_bytes * 32) (cmdheader_bytes * 32 + 1023) 1024
      × HasRoom p cmdtable_bytes (cmdtable_bytes + 127) 128
HasRoom-port p even = (inr (even, refl, omega arith), inl (omega arith), inl (omega arith))

-- Memory from `cmalloc`, aligned, holds a structure for which it has room: the address is a
-- multiple of the alignment, the structure lies in the memory, and its bytes are zero.
pub new_aligned-HasRoom :
    (fuel size al need p : ℕ) (s : Ahci) (h : Heap)
    → cmalloc fuel size s.pci.heap ≡ done p h
    → 0 < p
    → 0 < al
    → p + al ≤ 2 ^ 64
    → HasRoom p need size al
    → (q : ℕ) × (s' : Ahci) × (new_aligned fuel size al s ≡ done q s')
      × (q % al ≡ 0)
      × (p ≤ q)
      × (q + need ≤ p + size)
      × ((a : ℕ) → q ≤ a → a < q + need → s'.bytes a ≡ 0)
unfolding new_aligned
new_aligned-HasRoom fuel size al need p s h runs pos some_al fits has_room =
    let (whole, above, _) = align-least p al some_al fits in
    let inside = room p need size al has_room some_al fits in
    (
      align p al,
      with_zeros (record s { pci = record s.pci { heap = h } }) p size,
      rw (new_zeroed-done fuel size p s h runs pos) refl,
      whole,
      above,
      inside,
      λ a l l'.
          rw (le→leb p a (omega (arith, l, above)), lt→ltb a (p + size) (omega (arith, l', inside)))
            refl,
    )
