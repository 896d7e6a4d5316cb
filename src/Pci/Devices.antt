-- ===== src/Pci/Devices.antt =====
-- The list of devices that `_enumerate_device` of kernel/core/pci.c extends.
use black_diamond_os.Prelude.{
  bit_and, ◌/◌, ◌%◌, ◌^◌, ◌+◌, ℕ, ◌<◌, ◌≡◌, ◌≢◌, refl, sym, ap, List, [], ◌∷◌, ◌++◌, eq→eqb,
  ne→not_eqb, arith,
}
use black_diamond_os.Machine.{Proc, done, update}
use black_diamond_os.Physical.Regions.{All}
use black_diamond_os.Heap.{Heap}
use black_diamond_os.Heap.Malloc.{malloc}
use black_diamond_os.Heap.Chain.{
  Chain, Distinct, last_in, last_in-pos, last-ne, Chain-pos, Chain-snoc, Distinct-snoc,
  last_in-snoc,
}
use black_diamond_os.Pci.{
  sent_address, read_field, pci_read, enumerate_device, Device, Pci, device_bytes, resume,
  new_device, store_device, append_device,
}

abbrev pub LastIs : List ℕ → ℕ → Type 0
LastIs [] l = Unit
LastIs (x ∷ xs) l = l ≡ last_in x xs

-- The devices found so far are `ps`, in this order, and the global `last_enumerated_device` is the
-- last of them.
pub record Found (s : Pci) (ps : List ℕ) : Type 0 where
  pub chain : Chain (λ a. (s.devices a).next) s.first_enumerated_device ps
  pub distinct : Distinct ps
  pub last : LastIs ps s.last_enumerated_device

new_device-done :
    (fuel d : ℕ) (s : Pci) (h : Heap)
    → malloc fuel device_bytes s.heap ≡ done d h
    → new_device fuel s ≡ done d (record s { heap = h })
unfolding new_device
new_device-done fuel d s h runs = ap (resume s) runs

-- the state after a write to a device
abbrev with_device : Pci → ℕ → (Device → Device) → Pci
with_device s p f = record s { devices = update s.devices p (f (s.devices p)) }

store_device-done :
    (p : ℕ) (f : Device → Device) (s : Pci)
    → 0 < p
    → store_device p f s ≡ done tt (with_device s p f)
unfolding store_device
store_device-done p f s pos = rw (ne→not_eqb p 0 (omega (arith, pos)))

-- the state that the first device leaves, and that another leaves behind the device `last`
abbrev first_found : Pci → Heap → ℕ → Device → Pci
first_found s h d v = record s {
  heap = h;
  devices = update s.devices d v;
  first_enumerated_device = d;
  last_enumerated_device = d;
}

abbrev next_found : Pci → Heap → ℕ → Device → ℕ → Pci
next_found s h d v last =
    record (with_device (record s { heap = h; devices = update s.devices d v }) last
      (λ l. record l { next = d })) { last_enumerated_device = d }

append_device-first :
    (fuel d : ℕ) (v : Device) (s : Pci) (h : Heap)
    → malloc fuel device_bytes s.heap ≡ done d h
    → 0 < d
    → s.first_enumerated_device ≡ 0
    → append_device fuel v s ≡ done tt (first_found s h d v)
unfolding append_device
append_device-first fuel d v s h runs pos none =
    rw (new_device-done fuel d s h runs) (rw (store_device-done d _ _ pos, none))

append_device-next :
    (fuel d last : ℕ) (v : Device) (s : Pci) (h : Heap)
    → malloc fuel device_bytes s.heap ≡ done d h
    → 0 < d
    → 0 < s.first_enumerated_device
    → s.last_enumerated_device ≡ last
    → 0 < last
    → append_device fuel v s ≡ done tt (next_found s h d v last)
unfolding append_device
append_device-next fuel d last v s h runs pos some_first is last_pos =
    rw (new_device-done fuel d s h runs) (
      rw
        (
          store_device-done d _ _ pos,
          ne→not_eqb s.first_enumerated_device 0 (omega (arith, some_first)),
          is,
        )
        (rw (store_device-done last _ _ last_pos)))

-- A device goes behind those found so far.
append_device-Found :
    (fuel d : ℕ) (v : Device) (s : Pci) (h : Heap) (ps : List ℕ)
    → malloc fuel device_bytes s.heap ≡ done d h
    → 0 < d
    → v.next ≡ 0
    → Found s ps
    → All (λ (q : ℕ). d ≢ q) ps
    → (s' : Pci) × (append_device fuel v s ≡ done tt s')
      × Found s' (ps ++ (d ∷ []))
      × (s'.devices d ≡ v)
append_device-Found fuel d v s h [] runs pos ends f out = (
  first_found s h d v,
  append_device-first fuel d v s h runs pos f.chain,
  record { chain = (refl, pos, rw (eq→eqb d d refl) ends); distinct = (tt, tt); last = refl },
  rw (eq→eqb d d refl),
)
append_device-Found fuel d v s h (x ∷ xs) runs pos ends f out =
    let last = last_in x xs in
    let next_old = λ (a : ℕ). (s.devices a).next in
    let other : d ≢ last = last-ne d x xs out.0 out.1 in
    let other' : last ≢ d = λ e. other (sym e) in
    let some_first = Chain-pos next_old s.first_enumerated_device [] x xs f.chain in
    let last_pos = last_in-pos next_old s.first_enumerated_device x xs f.chain in
    (
      next_found s h d v last,
      append_device-next fuel d last v s h runs pos some_first f.last last_pos,
      record {
        chain =
            Chain-snoc next_old _ d s.first_enumerated_device x xs f.chain f.distinct out pos
              (rw (eq→eqb last last refl)) (rw (ne→not_eqb d last other, eq→eqb d d refl) ends)
              (λ a n k. rw (ne→not_eqb a last n, ne→not_eqb a d (λ e. k (sym e))));
        distinct = Distinct-snoc d (x ∷ xs) f.distinct out;
        last = sym (last_in-snoc x xs d);
      },
      rw (ne→not_eqb d last other, eq→eqb d d refl),
    )

-- what `pci_get_header_type` reads, less the bit that tells a slot of several functions
abbrev pub header_kind : Pci → Device → ℕ
header_kind s v =
    bit_and (s.config s.config_writes (sent_address s v.bus v.slot v.function 3) / 2 ^ 16 % 2 ^ 8)
      0x7F

-- `_enumerate_device` of a device whose header is not a bridge's, with memory from `malloc` at an
-- address that holds no device yet, puts a copy of the device behind those found so far, and keeps
-- their order and the globals of the list.
pub enumerate_device-Found :
    (fuel d : ℕ) (bus : ℕ → Proc Pci (Unit {0})) (v : Device) (s : Pci) (h : Heap) (ps : List ℕ)
    → header_kind s v ≢ 1
    → malloc fuel device_bytes s.heap ≡ done d h
    → 0 < d
    → v.next ≡ 0
    → Found s ps
    → All (λ (q : ℕ). d ≢ q) ps
    → (s' : Pci) × (enumerate_device fuel bus v s ≡ done tt s')
      × Found s' (ps ++ (d ∷ []))
      × (s'.devices d ≡ v)
unfolding enumerate_device read_field pci_read
enumerate_device-Found fuel d bus v s h ps plain runs pos ends f out =
    let s₁ = record s {
      config_address = sent_address s v.bus v.slot v.function 3;
      outputs = s.outputs + 1;
    } in
    let f₁ : Found s₁ ps = record { chain = f.chain; distinct = f.distinct; last = f.last } in
    rw (ne→not_eqb (header_kind s v) 1 plain)
      (append_device-Found fuel d v s₁ h ps runs pos ends f₁ out)
