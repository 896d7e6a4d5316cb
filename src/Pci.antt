-- ===== src/Pci.antt =====
-- The PCI configuration space and its enumeration, kernel/core/pci.c.
pub mod Config
pub mod Devices
mod Tests
use black_diamond_os.Prelude.{
  ℕ, zero, suc, ◌+◌, ◌*◌, ◌/◌, ◌%◌, ◌^◌, Bool, true, false, not, u8, u16, u32, bit_and, bit_or, ltb,
  List, [], ◌∷◌, ◌++◌, ◌==◌, if◌then◌else◌,
}
use black_diamond_os.Machine.{
  Outcome, done, panic, fault, stuck, Proc, Memory, update, pure, crash, spin, get, modify, ◌>>=◌,
  ◌>>◌,
}
use black_diamond_os.Heap.{Heap}
use black_diamond_os.Heap.Malloc.{malloc}

-- `struct pci_device`
pub record Device : Type 0 where
  pub bus : ℕ
  pub slot : ℕ
  pub function : ℕ
  pub next : ℕ

-- a write to the configuration space
pub record ConfigWrite : Type 0 where
  pub address : ℕ
  pub value : ℕ

-- The address register at port 0xCF8; the writes to the configuration space so far, through port
-- 0xCFC, and what the hardware answers to a read of an address after some writes; what the upper
-- half of eax is at each 32-bit port write, and their number; the kernel's heap, what memory holds
-- when read as a device, and the globals of pci.c.
pub record Pci : Type 0 where
  pub config_address : ℕ
  pub config_writes : List ConfigWrite
  pub config : List ConfigWrite → ℕ → ℕ
  pub upper_halves : ℕ → ℕ
  pub outputs : ℕ
  pub heap : Heap
  pub devices : Memory Device
  pub first_enumerated_device : ℕ
  pub last_enumerated_device : ℕ

-- what `outl` of kernel/core/ports.asm writes to the port: it moves the low half of the data to ax,
-- and writes all of eax, whose upper half is what it was
unfoldable pub output : ℕ → ℕ → ℕ
output upper value = u16 upper * 2 ^ 16 + u16 value

-- what `_pci_write_address` means to write to the address register
unfoldable pub address_of : ℕ → ℕ → ℕ → ℕ → ℕ
address_of bus slot function reg =
    let offset = u8 (reg * 4) in
    let slot' = bit_and slot 31 in
    let function' = bit_and function 7 in
    u32 (
      bit_or (bit_or (bit_or (bit_or (2 ^ 31) (bus * 2 ^ 16)) (slot' * 2 ^ 11)) (function' * 2 ^ 8))
        offset)

-- the address register after `_pci_write_address`
abbrev pub sent_address : Pci → ℕ → ℕ → ℕ → ℕ → ℕ
sent_address s bus slot function reg =
    output (s.upper_halves s.outputs) (address_of bus slot function reg)

-- `_pci_write_address`
abbrev pub pci_write_address : ℕ → ℕ → ℕ → ℕ → Proc Pci (Unit {0})
pci_write_address bus slot function reg = modify (λ s. record s {
  config_address = sent_address s bus slot function reg;
  outputs = s.outputs + 1;
})

-- `_pci_read`
unfoldable pub pci_read : Device → ℕ → Proc Pci ℕ
pci_read d reg = do
  pci_write_address d.bus d.slot d.function reg
  s ← get
  pure (s.config s.config_writes s.config_address)

-- `_pci_write`
unfoldable pub pci_write : Device → ℕ → ℕ → Proc Pci (Unit {0})
pci_write d reg value = do
  pci_write_address d.bus d.slot d.function reg
  modify (λ s. record s {
    config_writes =
        s.config_writes
        ++ (record { address = s.config_address; value = output (s.upper_halves s.outputs) value }
            ∷ []);
    outputs = s.outputs + 1;
  })

-- a part of a register: `width` bits from the bit `shift` on
unfoldable pub read_field : ℕ → ℕ → ℕ → Device → Proc Pci ℕ
read_field reg shift width d = do value ← pci_read d reg; pure (value / 2 ^ shift % 2 ^ width)

abbrev pub pci_get_deviceid : Device → Proc Pci ℕ
pci_get_deviceid = read_field 0 16 16

abbrev pub pci_get_vendor : Device → Proc Pci ℕ
pci_get_vendor = read_field 0 0 16

abbrev pub pci_get_status : Device → Proc Pci ℕ
pci_get_status = read_field 1 16 16

abbrev pub pci_set_command : Device → ℕ → Proc Pci (Unit {0})
pci_set_command d command = pci_write d 1 command

abbrev pub pci_get_command : Device → Proc Pci ℕ
pci_get_command = read_field 1 0 16

abbrev pub pci_get_class : Device → Proc Pci ℕ
pci_get_class = read_field 2 24 8

abbrev pub pci_get_subclass : Device → Proc Pci ℕ
pci_get_subclass = read_field 2 16 8

abbrev pub pci_get_progif : Device → Proc Pci ℕ
pci_get_progif = read_field 2 8 8

abbrev pub pci_get_revision : Device → Proc Pci ℕ
pci_get_revision = read_field 2 0 8

abbrev pub pci_get_header_type : Device → Proc Pci ℕ
pci_get_header_type = read_field 3 16 8

abbrev pub pci_get_interrupt_pin : Device → Proc Pci ℕ
pci_get_interrupt_pin = read_field 15 8 8

abbrev pub pci_get_interrupt_line : Device → Proc Pci ℕ
pci_get_interrupt_line = read_field 15 0 8

abbrev pub pci_get_bar : Device → ℕ → Proc Pci ℕ
pci_get_bar d bar = pci_read d (u8 (4 + bar))

abbrev pub pci_set_bar : Device → ℕ → ℕ → Proc Pci (Unit {0})
pci_set_bar d bar bar_data = pci_write d (u8 (4 + bar)) bar_data

unfoldable pub pci_get_bar_address : Device → ℕ → Proc Pci ℕ
pci_get_bar_address d bar = do
  raw_bar ← pci_get_bar d bar
  if bit_and raw_bar 1 == 0
      then pure (bit_and raw_bar 0xFFFFFFF0)
      else pure (bit_and raw_bar 0xFFFFFFFC)

-- `_get_secondary_bus_number`
abbrev pub get_secondary_bus_number : Device → Proc Pci ℕ
get_secondary_bus_number = read_field 6 8 8

-- the call of `malloc`
abbrev pub resume : Pci → Outcome Heap ℕ → Outcome Pci ℕ
resume s (done a h) = done a (record s { heap = h })
resume s (panic msg) = panic msg
resume s fault = fault
resume s stuck = stuck

-- `sizeof(struct pci_device)`
abbrev pub device_bytes : ℕ
device_bytes = 16

unfoldable pub new_device : ℕ → Proc Pci ℕ
new_device fuel s = resume s (malloc fuel device_bytes s.heap)

-- a write to a device in memory, a fault at null
unfoldable pub store_device : ℕ → (Device → Device) → Proc Pci (Unit {0})
store_device p f =
    if p == 0
    then crash
    else modify (λ s. record s { devices = update s.devices p (f (s.devices p)) })

-- what `_enumerate_device` does with a device that is not a bridge
unfoldable pub append_device : ℕ → Device → Proc Pci (Unit {0})
append_device fuel d = do
  linked ← new_device fuel
  store_device linked (λ _. d)
  s ← get
  if s.first_enumerated_device == 0
      then modify (λ t. record t { first_enumerated_device = linked })
      else store_device s.last_enumerated_device (λ l. record l { next = linked })
  modify (λ t. record t { last_enumerated_device = linked })

-- `_enumerate_device`, where `enumerate_bus` enumerates the bus behind a bridge
unfoldable pub enumerate_device : ℕ → (ℕ → Proc Pci (Unit {0})) → Device → Proc Pci (Unit {0})
enumerate_device fuel enumerate_bus d = do
  header_type ← pci_get_header_type d
  if bit_and header_type 0x7F == 1
      then (do secondary ← get_secondary_bus_number d; enumerate_bus secondary)
      else append_device fuel d

-- the loop over the functions of a slot, with `rounds` rounds left
unfoldable pub enumerate_functions :
    ℕ → ℕ → (ℕ → Proc Pci (Unit {0})) → Device → Proc Pci (Unit {0})
enumerate_functions zero fuel enumerate_bus d = pure tt
enumerate_functions (suc rounds) fuel enumerate_bus d = do
  vendor ← pci_get_vendor d
  if vendor == 0xFFFF then pure tt else enumerate_device fuel enumerate_bus d
  enumerate_functions rounds fuel enumerate_bus (record d { function = d.function + 1 })

-- the loop over the slots of a bus, with `rounds` rounds left
unfoldable pub enumerate_slots : ℕ → ℕ → (ℕ → Proc Pci (Unit {0})) → ℕ → ℕ → Proc Pci (Unit {0})
enumerate_slots zero fuel enumerate_bus bus slot = pure tt
enumerate_slots (suc rounds) fuel enumerate_bus bus slot = do
  let d : Device = record { bus = bus; slot = slot; function = 0; next = 0 }
  vendor ← pci_get_vendor d
  if vendor == 0xFFFF then pure tt else do
    header_type ← pci_get_header_type d
    if bit_and header_type 0x80 == 0
        then enumerate_device fuel enumerate_bus d
        else enumerate_functions 8 fuel enumerate_bus d
  enumerate_slots rounds fuel enumerate_bus bus (slot + 1)

-- `_enumerate_bus`, through at most `depth` bridges
unfoldable pub enumerate_bus : ℕ → ℕ → ℕ → Proc Pci (Unit {0})
enumerate_bus zero fuel bus = spin
enumerate_bus (suc depth) fuel bus = enumerate_slots 32 fuel (enumerate_bus depth fuel) bus 0

abbrev pub pci_get_first_device : Proc Pci ℕ
pci_get_first_device = λ s. pure s.first_enumerated_device s

abbrev pub init_pci : ℕ → ℕ → Proc Pci (Unit {0})
init_pci depth fuel = enumerate_bus depth fuel 0
