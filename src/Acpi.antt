-- ===== src/Acpi.antt =====
-- The search for the ACPI tables, kernel/acpi/acpi.c and kernel/acpi/madt.c.
pub mod Checksum
pub mod Madt
pub mod Search
pub mod Root
mod Tests
use black_diamond_os.Prelude.{
  ℕ, zero, suc, ◌+◌, ◌-◌, ◌*◌, ◌/◌, ◌%◌, ◌^◌, Bool, true, false, not, ◌&&◌, List, [], ◌∷◌, Option,
  some, none, u8, u16, u32, u64, ltb, ◌==◌, if◌then◌else◌,
}
use black_diamond_os.Machine.{
  read_u16, read_u32, read_u64, Proc, Memory, pure, spin, kpanic, get, modify, ◌>>=◌, ◌>>◌,
}
use black_diamond_os.Utils.{literal, strcmp_from}

-- The bytes of memory, and the globals of madt.c.
pub record Acpi : Type 0 where
  pub bytes : Memory ℕ
  pub madt : ℕ
  pub lapic : ℕ

-- `sizeof(struct acpi_sdt_header)` and `sizeof(struct acpi_rsdp)`
abbrev pub sdt_header_size : ℕ
sdt_header_size = 36

abbrev pub rsdp_size : ℕ
rsdp_size = 36

-- the loop of `_calc_checksum`, with `rounds` rounds left
unfoldable pub add_bytes : ℕ → ℕ → Memory ℕ → ℕ → ℕ → ℕ
add_bytes zero i m base sum = sum
add_bytes (suc rounds) i m base sum = add_bytes rounds (i + 1) m base (u64 (sum + m (base + i)))

-- `_calc_checksum`; its length is a byte.
unfoldable pub calc_checksum : Memory ℕ → ℕ → ℕ → Bool
calc_checksum m base len = add_bytes (u8 len) 0 m base 0 % 0x100 == 0

-- `__process_entry`
unfoldable pub process_entry : ℕ → Proc Acpi (Unit {0})
process_entry entry = do
  s ← get
  if s.bytes entry == 5
      then modify (λ t. record t { lapic = read_u64 s.bytes (entry + 4) })
      else pure tt

-- the loop of `__enumerate_madt`
unfoldable pub process_entries : ℕ → ℕ → ℕ → ℕ → Proc Acpi (Unit {0})
process_entries zero i length base = spin
process_entries (suc fuel) i length base =
    if ltb i length
    then (do
      process_entry (base + i)
      s ← get
      process_entries fuel (u32 (i + s.bytes (base + i + 1))) length base)
    else pure tt

-- `__enumerate_madt`; `fuel` bounds the number of entries.
unfoldable pub enumerate_madt : ℕ → ℕ → Proc Acpi (Unit {0})
enumerate_madt fuel header = do
  s ← get
  let base = header + sdt_header_size
  modify (λ t. record t { madt = header; lapic = read_u32 s.bytes base })
  process_entries fuel 8 (u32 (read_u32 s.bytes (header + 4) + 2 ^ 64 - sdt_header_size - 8)) base

-- "APIC"
abbrev pub apic_signature : ℕ → ℕ
apic_signature = literal (65 ∷ 80 ∷ 73 ∷ 67 ∷ [])

-- "RSD PTR "
abbrev pub rsdp_signature : ℕ → ℕ
rsdp_signature = literal (82 ∷ 83 ∷ 68 ∷ 32 ∷ 80 ∷ 84 ∷ 82 ∷ 32 ∷ [])

-- `_check_sig`
unfoldable pub check_sig : ℕ → ℕ → Proc Acpi (Unit {0})
check_sig fuel table = do
  s ← get
  if strcmp_from 4 0 (λ k. s.bytes (table + k)) apic_signature
      then enumerate_madt fuel table
      else pure tt

-- the address of the table that entry `i` of the RSDT or XSDT names
abbrev pub table_at : Memory ℕ → ℕ → Bool → ℕ → ℕ
table_at m entries adr_64bit i =
    if adr_64bit then read_u64 m (entries + i * 8) else read_u32 m (entries + i * 4)

-- the loop of `_enumerate_tables`, with `rounds` rounds left
unfoldable pub check_tables : ℕ → ℕ → ℕ → ℕ → Bool → Proc Acpi (Unit {0})
check_tables zero i fuel entries adr_64bit = pure tt
check_tables (suc rounds) i fuel entries adr_64bit = do
  s ← get
  let table = table_at s.bytes entries adr_64bit i
  if calc_checksum s.bytes table (read_u32 s.bytes (table + 4))
      then check_sig fuel table
      else pure tt
  check_tables rounds (i + 1) fuel entries adr_64bit

-- the number of entries that `_enumerate_tables` reads
abbrev pub entries_count : ℕ → Bool → ℕ
entries_count length adr_64bit =
    u16 (length + 2 ^ 64 - sdt_header_size) / (if adr_64bit then 8 else 4)

-- `_enumerate_tables`
unfoldable pub enumerate_tables : ℕ → ℕ → Bool → Proc Acpi (Unit {0})
enumerate_tables fuel rsdt adr_64bit = do
  s ← get
  check_tables (entries_count (read_u32 s.bytes (rsdt + 4)) adr_64bit) 0 fuel
      (rsdt + sdt_header_size) adr_64bit

-- `_check_rsdp`
unfoldable pub check_rsdp : ℕ → ℕ → Proc Acpi Bool
check_rsdp fuel ptr = do
  s ← get
  let revision = s.bytes (ptr + 15)
  if not (strcmp_from 8 0 (λ k. s.bytes (ptr + k)) rsdp_signature)
      then pure false
      else if not (calc_checksum s.bytes ptr 20)
      then pure false
      else if not (revision == 0) && not (calc_checksum s.bytes ptr rsdp_size)
      then pure false
      else (do
        if revision == 0
            then enumerate_tables fuel (read_u32 s.bytes (ptr + 16)) false
            else enumerate_tables fuel (read_u64 s.bytes (ptr + 24)) true
        pure true)

-- a search of `rounds` addresses, 16 bytes apart, for one that `_check_rsdp` accepts
unfoldable pub search_rsdp : ℕ → ℕ → ℕ → Proc Acpi Bool
search_rsdp zero ptr fuel = pure false
search_rsdp (suc rounds) ptr fuel = do
  found ← check_rsdp fuel ptr
  if found then pure true else search_rsdp rounds (ptr + 16) fuel

-- `init_acpi`: the first 1024 bytes of the EBDA, and then the addresses from 0xE0000 to 0xFFFFF
unfoldable pub init_acpi : ℕ → Proc Acpi (Unit {0})
init_acpi fuel = do
  s ← get
  in_ebda ← search_rsdp 64 (read_u16 s.bytes 0x40E * 0x10) fuel
  if in_ebda then pure tt else do
    in_bios ← search_rsdp 8192 0xE0000 fuel
    if in_bios then pure tt else kpanic "Could not find ACPI RSDP"

abbrev pub acpi_get_lapic : Proc Acpi ℕ
acpi_get_lapic = λ s. pure s.lapic s
