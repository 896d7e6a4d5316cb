-- ===== src/Acpi/Tests.antt =====
-- Examples of kernel/acpi/.
use black_diamond_os.Prelude.{
  ℕ, some, ◌+◌, ◌-◌, ◌*◌, ◌%◌, ◌^◌, ◌≡◌, ◌↔◌, inl, refl, true, leb, ◌==◌, if◌then◌else◌, List, [],
  ◌∷◌, arith,
}
use black_diamond_os.Machine.{done, Memory}
use black_diamond_os.Utils.{literal, strcmp_from}
use black_diamond_os.Utils.Strings.{SameFrom-of}
use black_diamond_os.Acpi.{
  Acpi, rsdp_signature, calc_checksum, sdt_header_size, entries_count, enumerate_madt, init_acpi,
}
use black_diamond_os.Acpi.Checksum.{sum_of, calc_checksum-sum_of}
use black_diamond_os.Acpi.Madt.{Entry, Entries, enumerate_madt-overridden}
use black_diamond_os.Acpi.Root.{in_bios, answer, init_acpi-FirstRsdp}
use black_diamond_os.Acpi.Search.{IsRsdp, NoneAmong}

-- a memory of zeros but for a root pointer of revision 0
abbrev rsdp_bytes : List ℕ
rsdp_bytes = 82 ∷ 83 ∷ 68 ∷ 32 ∷ 80 ∷ 84 ∷ 82 ∷ 32 ∷ 224 ∷ 0 ∷ 0 ∷ 0 ∷ 0 ∷ 0 ∷ 0 ∷ 0 ∷ 0 ∷ 1 ∷ []

abbrev with_rsdp : ℕ → Memory ℕ
with_rsdp base q = if leb base q then literal rsdp_bytes (q - base) else 0

abbrev acpi_on : Memory ℕ → Acpi
acpi_on m = record { bytes = m; madt = 0; lapic = 0 }

calc_checksum-sum_of_example :
    (calc_checksum (with_rsdp 16) 16 20 ≡ true)
    ↔ (sum_of (20 % 2 ^ 8) (with_rsdp 16) 16 % 0x100 ≡ 0)
calc_checksum-sum_of_example = calc_checksum-sum_of (with_rsdp 16) 16 20

IsRsdp-low : IsRsdp (with_rsdp 16) 16
unfolding strcmp_from sum_of
IsRsdp-low = (SameFrom-of 8 0 (λ k. with_rsdp 16 (16 + k)) rsdp_signature refl, refl, inl refl)

IsRsdp-high : IsRsdp (with_rsdp 0xE0000) 0xE0000
unfolding strcmp_from sum_of
IsRsdp-high =
    (SameFrom-of 8 0 (λ k. with_rsdp 0xE0000 (0xE0000 + k)) rsdp_signature refl, refl, inl refl)

-- A zero byte is no root pointer.
zero_none : (m : Memory ℕ) (p : ℕ) → m (p + (0 + 0)) ≡ 0 → ¬ IsRsdp m p
zero_none m p z r = omega (arith, z, r.0 0 (omega arith))

low_none : NoneAmong 64 0 (with_rsdp 0xE0000)
low_none k l = zero_none (with_rsdp 0xE0000) (0 + 16 * k) (ground arith)

before_none : NoneAmong 1 0 (with_rsdp 16)
before_none k l = zero_none (with_rsdp 16) (0 + 16 * k) (ground arith)

init_acpi-FirstRsdp_example :
    init_acpi 9 (acpi_on (with_rsdp 0xE0000))
    ≡ answer 9 (some 0xE0000) (acpi_on (with_rsdp 0xE0000))
init_acpi-FirstRsdp_example =
    init_acpi-FirstRsdp 9 (acpi_on (with_rsdp 0xE0000)) (some 0xE0000)
      (in_bios 0 low_none (omega arith) (λ k l. absurd (omega (arith, l))) IsRsdp-high)

-- a table at 0 with one override, of address 7
abbrev madt_bytes : Memory ℕ
madt_bytes q =
    if q == 4 then 56 else if q == 44 then 5 else if q == 45 then 12 else if q == 48 then 7 else 0

abbrev override : Entry
override = record { type = 5; size = 12; address = 7 }

override_stands : Entries madt_bytes 36 8 (override ∷ []) 20
unfolding Entries
override_stands = (refl, refl, omega arith, λ e. (refl, refl), refl)

enumerate_madt-overridden_example :
    enumerate_madt 2 0 (acpi_on madt_bytes)
    ≡ done tt (record { bytes = madt_bytes; madt = 0; lapic = 7 })
unfolding black_diamond_os.Acpi.Madt.overridden
enumerate_madt-overridden_example =
    enumerate_madt-overridden 2 0 56 (override ∷ []) (acpi_on madt_bytes) refl (omega arith)
      (omega arith) override_stands (omega arith)
