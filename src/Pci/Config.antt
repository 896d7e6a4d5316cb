-- ===== src/Pci/Config.antt =====
-- The configuration space of kernel/core/pci.c: addresses, reads after writes, and base addresses.
use black_diamond_os.Prelude.{
  ℕ, ◌+◌, ◌*◌, ◌/◌, ◌%◌, ◌^◌, ◌<◌, ◌≡◌, ◌↔◌, ◌⊎◌, inl, inr, refl, ◌∙◌, Bool-cases, u8, bit_and,
  bit_or, ◌==◌, eqb→eq, not_eqb→ne, arith,
}
use black_diamond_os.Prelude.Bits.{
  bit_or-shifted, bit_and-1, bit_and-7, bit_and-31, bit_and-fffffffc, bit_and-fffffff0,
}
use black_diamond_os.Machine.{done}
use black_diamond_os.Pci.{
  Device, Pci, output, address_of, sent_address, pci_read, pci_get_bar_address,
}

-- a function of a device that the address register can name, and a register of it
abbrev pub InRange : Device → ℕ → Type 0
InRange d reg = (d.bus < 2 ^ 8) × (d.slot < 2 ^ 5) × (d.function < 2 ^ 3) × (reg < 2 ^ 6)

-- the address register with its fields side by side
abbrev pub packed : Device → ℕ → ℕ
packed d reg = 2 ^ 31 + d.bus * 2 ^ 16 + d.slot * 2 ^ 11 + d.function * 2 ^ 8 + reg * 4

-- `_pci_write_address` puts the fields side by side, with bit 31 set.
pub address_of-packed :
    (d : Device) (reg : ℕ) → InRange d reg → address_of d.bus d.slot d.function reg ≡ packed d reg
unfolding address_of
address_of-packed d reg (b, s, f, r) =
    let off : u8 (reg * 4) ≡ reg * 4 = omega (arith, r) in
    let slot' : bit_and d.slot 31 ≡ d.slot = omega (arith, bit_and-31 d.slot, s) in
    let function' : bit_and d.function 7 ≡ d.function = omega (arith, bit_and-7 d.function, f) in
    let a₁ : bit_or (2 ^ 31) (d.bus * 2 ^ 16) ≡ (2 ^ 15 + d.bus) * 2 ^ 16 =
      bit_or-shifted 31 1 (d.bus * 2 ^ 16) (omega (arith, b)) ∙ omega arith in
    let a₂ : bit_or ((2 ^ 15 + d.bus) * 2 ^ 16) (d.slot * 2 ^ 11)
        ≡ (2 ^ 20 + d.bus * 2 ^ 5 + d.slot) * 2 ^ 11 =
      bit_or-shifted 16 (2 ^ 15 + d.bus) (d.slot * 2 ^ 11) (omega (arith, s)) ∙ omega arith in
    let a₃ : bit_or ((2 ^ 20 + d.bus * 2 ^ 5 + d.slot) * 2 ^ 11) (d.function * 2 ^ 8)
        ≡ (2 ^ 23 + d.bus * 2 ^ 8 + d.slot * 2 ^ 3 + d.function) * 2 ^ 8 =
      bit_or-shifted 11 (2 ^ 20 + d.bus * 2 ^ 5 + d.slot) (d.function * 2 ^ 8) (omega (arith, f))
      ∙ omega arith in
    let a₄ : bit_or ((2 ^ 23 + d.bus * 2 ^ 8 + d.slot * 2 ^ 3 + d.function) * 2 ^ 8) (reg * 4)
        ≡ packed d reg =
      bit_or-shifted 8 (2 ^ 23 + d.bus * 2 ^ 8 + d.slot * 2 ^ 3 + d.function) (reg * 4)
        (omega (arith, r))
      ∙ omega arith in
    rw (off, slot', function', a₁, a₂, a₃, a₄) (omega (arith, b, s, f, r))

-- the state after an access to the address register
abbrev pub addressed : Pci → Device → ℕ → Pci
addressed s d r = record s {
  config_address = sent_address s d.bus d.slot d.function r;
  outputs = s.outputs + 1;
}

-- An address in the configuration space, as the hardware decodes it.
abbrev pub Names : ℕ → Device → ℕ → Type 0
Names a d reg =
    (a / 2 ^ 31 % 2 ≡ 1)
    × (a / 2 ^ 16 % 2 ^ 8 ≡ d.bus)
    × (a / 2 ^ 11 % 2 ^ 5 ≡ d.slot)
    × (a / 2 ^ 8 % 2 ^ 3 ≡ d.function)
    × (a / 2 ^ 2 % 2 ^ 6 ≡ reg)

-- `_pci_read`, for a bus below 256, a slot below 32, a function below 8 and a register below 64,
-- ends, changes nothing but the address register, and gives what the hardware answers at an address
-- whose bits for the slot, the function and the register are those of the device. Its upper half is
-- what eax held. The address names the device's register, with the enable bit set and the bus of the
-- device, just when that half has bit 15 set and the bus in its low byte.
pub pci_read-Names :
    (d : Device) (reg : ℕ) (s : Pci)
    → InRange d reg
    → (a : ℕ) × (s' : Pci) × (pci_read d reg s ≡ done (s.config s.config_writes a) s')
      × (s' ≡ record s { config_address = a; outputs = s.outputs + 1 })
      × (a / 2 ^ 16 ≡ s.upper_halves s.outputs % 2 ^ 16)
      × (a / 2 ^ 11 % 2 ^ 5 ≡ d.slot)
      × (a / 2 ^ 8 % 2 ^ 3 ≡ d.function)
      × (a / 2 ^ 2 % 2 ^ 6 ≡ reg)
      × (Names a d reg ↔ (
          (s.upper_halves s.outputs / 2 ^ 15 % 2 ≡ 1) × (s.upper_halves s.outputs % 2 ^ 8 ≡ d.bus)))
unfolding pci_read output
pci_read-Names d reg s i =
    let (b, sl, f, r) = i in
    let packs = address_of-packed d reg i in
    let low : address_of d.bus d.slot d.function reg % 2 ^ 16
        ≡ d.slot * 2 ^ 11 + d.function * 2 ^ 8 + reg * 4 =
      omega (arith, packs, b, sl, f, r) in
    let a = sent_address s d.bus d.slot d.function reg in
    let slot : a / 2 ^ 11 % 2 ^ 5 ≡ d.slot = omega (arith, low, sl, f, r) in
    let function : a / 2 ^ 8 % 2 ^ 3 ≡ d.function = omega (arith, low, sl, f, r) in
    let register : a / 2 ^ 2 % 2 ^ 6 ≡ reg = omega (arith, low, sl, f, r) in
    (
      a,
      addressed s d reg,
      refl,
      refl,
      omega arith,
      slot,
      function,
      register,
      (
        λ n. (omega (arith, n.0), omega (arith, n.1)),
        λ h. (omega (arith, h.0), omega (arith, h.1), slot, function, register),
      ),
    )

-- the double word that the hardware answers for a register
abbrev pub register : Pci → Device → ℕ → ℕ
register s d r = s.config s.config_writes (sent_address s d.bus d.slot d.function r)

-- `pci_get_bar_address` of a register that holds 32 bits: bit 0 tells a port base, which loses its
-- two low bits, from a memory base, which loses four.
pci_get_bar_address-aligned :
    (d : Device) (bar raw : ℕ) (s : Pci)
    → register s d (u8 (4 + bar)) ≡ raw
    → raw < 2 ^ 32
    → (s' : Pci) × (a : ℕ) × (pci_get_bar_address d bar s ≡ done a s')
      × (((raw % 2 ≡ 1) × (a ≡ raw / 4 * 4)) ⊎ ((raw % 2 ≡ 0) × (a ≡ raw / 16 * 16)))
unfolding pci_get_bar_address pci_read
pci_get_bar_address-aligned d bar raw s is small = elim (Bool-cases (bit_and raw 1 == 0)) [
  | inl h ↦ (
    addressed s d (u8 (4 + bar)),
    bit_and raw 0xFFFFFFF0,
    rw (is, h) refl,
    inr (omega (arith, bit_and-1 raw, eqb→eq (bit_and raw 1) 0 h), bit_and-fffffff0 raw small),
  )
  | inr h ↦ (
    addressed s d (u8 (4 + bar)),
    bit_and raw 0xFFFFFFFC,
    rw (is, h) refl,
    inl (omega (arith, bit_and-1 raw, not_eqb→ne (bit_and raw 1) 0 h), bit_and-fffffffc raw small),
  )
]
