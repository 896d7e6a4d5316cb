-- ===== src/Pci/Tests.antt =====
-- Examples of kernel/core/pci.c.
use black_diamond_os.Prelude.{ℕ, ◌/◌, ◌%◌, ◌^◌, ◌↔◌, ◌≡◌, refl, arith}
use black_diamond_os.Heap.Fixture.{empty, after_malloc, takes}
use black_diamond_os.Prelude.{[], ◌∷◌}
use black_diamond_os.Pci.{enumerate_device, enumerate_bus}
use black_diamond_os.Pci.Devices.{Found, enumerate_device-Found}
use black_diamond_os.Machine.{done}
use black_diamond_os.Pci.{Device, Pci, address_of, pci_read}
use black_diamond_os.Pci.Config.{Names, pci_read-Names}

abbrev bridge : Device
bridge = record { bus = 1; slot = 30; function = 7; next = 0 }

abbrev disk : Device
disk = record { bus = 2; slot = 30; function = 7; next = 0 }

-- A machine whose heap is empty and whose registers hold their own addresses. The upper half of
-- eax always has the enable bit, and bus 2.
abbrev pci : Pci
pci = record {
  config_address = 0;
  config_writes = [];
  config = λ writes a. a;
  upper_halves = λ n. 0x8002;
  outputs = 0;
  heap = empty;
  devices = λ _. bridge;
  first_enumerated_device = 0;
  last_enumerated_device = 0;
}

pci_read-Names_example :
    (a : ℕ) × (s' : Pci) × (pci_read disk 4 pci ≡ done a s')
    × (s' ≡ record pci { config_address = a; outputs = 1 })
    × (a / 2 ^ 16 ≡ 0x8002)
    × (a / 2 ^ 11 % 2 ^ 5 ≡ 30)
    × (a / 2 ^ 8 % 2 ^ 3 ≡ 7)
    × (a / 2 ^ 2 % 2 ^ 6 ≡ 4)
    × (Names a disk 4 ↔ ((0x8002 / 2 ^ 15 % 2 ≡ 1) × (0x8002 % 2 ^ 8 ≡ 2)))
pci_read-Names_example =
    pci_read-Names disk 4 pci (omega arith, omega arith, omega arith, omega arith)

-- one device found, at 64
abbrev one_found : Pci
one_found = record pci {
  heap = empty;
  devices = λ _. record { bus = 0; slot = 1; function = 0; next = 0 };
  first_enumerated_device = 64;
  last_enumerated_device = 64;
}

one-Found : Found one_found (64 ∷ [])
one-Found = record { chain = (refl, omega arith, refl); distinct = (tt, tt); last = refl }

enumerate_device-Found_example :
    (s' : Pci) × (enumerate_device 9 (enumerate_bus 3 9) disk one_found ≡ done tt s')
    × Found s' (64 ∷ 1112 ∷ [])
    × (s'.devices 1112 ≡ disk)
unfolding address_of black_diamond_os.Pci.output
enumerate_device-Found_example =
    enumerate_device-Found 9 1112 (enumerate_bus 3 9) disk one_found (after_malloc 16) (64 ∷ [])
      (omega arith) takes.0 (omega arith) refl one-Found (omega arith, tt)
