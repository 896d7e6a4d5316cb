-- ===== src/Acpi/Root.antt =====
-- `init_acpi` of kernel/acpi/acpi.c: which root pointer it takes.
use black_diamond_os.Prelude.{ℕ, ◌+◌, ◌*◌, ◌<◌, ◌≡◌, refl, ◌∙◌, Option, some, none}
use black_diamond_os.Machine.{
  read_u16, Outcome, done, panic, fault, stuck, and_then, Memory, Proc, pure, kpanic,
}
use black_diamond_os.Acpi.{Acpi, init_acpi}
use black_diamond_os.Acpi.Search.{
  IsRsdp, tables_of, NoneAmong, search_rsdp-none, search_rsdp-first, found_then,
}

-- where the EBDA begins
abbrev pub ebda : Memory ℕ → ℕ
ebda m = read_u16 m 0x40E * 0x10

done_tt : (o : Outcome Acpi (Unit {0})) → and_then o (λ _. pure tt) ≡ o
done_tt (done tt s) = refl
done_tt (panic msg) = refl
done_tt fault = refl
done_tt stuck = refl

-- If a root pointer stands at a multiple of 16 in the first 1024 bytes of the EBDA, `init_acpi`
-- reads the tables of the first of them, and nothing else.
init_acpi-ebda :
    (fuel j : ℕ) (s : Acpi)
    → j < 64
    → NoneAmong j (ebda s.bytes) s.bytes
    → IsRsdp s.bytes (ebda s.bytes + 16 * j)
    → init_acpi fuel s ≡ tables_of fuel (ebda s.bytes + 16 * j) s
unfolding init_acpi
init_acpi-ebda fuel j s l neither ok =
    rw (search_rsdp-first 64 (ebda s.bytes) fuel j s l neither ok) (
      found_then (tables_of fuel (ebda s.bytes + 16 * j) s) _
      ∙ done_tt (tables_of fuel (ebda s.bytes + 16 * j) s))

-- If there is none in the EBDA and one at a multiple of 16 from 0xE0000 to 0xFFFFF, `init_acpi`
-- reads the tables of the first of these.
init_acpi-bios :
    (fuel j : ℕ) (s : Acpi)
    → NoneAmong 64 (ebda s.bytes) s.bytes
    → j < 8192
    → NoneAmong j 0xE0000 s.bytes
    → IsRsdp s.bytes (0xE0000 + 16 * j)
    → init_acpi fuel s ≡ tables_of fuel (0xE0000 + 16 * j) s
unfolding init_acpi
init_acpi-bios fuel j s neither l nor ok =
    rw
      (
        search_rsdp-none 64 (ebda s.bytes) fuel s neither,
        search_rsdp-first 8192 0xE0000 fuel j s l nor ok,
      )
      (found_then (tables_of fuel (0xE0000 + 16 * j) s) _
        ∙ done_tt (tables_of fuel (0xE0000 + 16 * j) s))

-- If neither range has a root pointer at a multiple of 16, `init_acpi` panics.
init_acpi-panic :
    (fuel : ℕ) (s : Acpi)
    → NoneAmong 64 (ebda s.bytes) s.bytes
    → NoneAmong 8192 0xE0000 s.bytes
    → init_acpi fuel s ≡ panic "Could not find ACPI RSDP"
unfolding init_acpi
init_acpi-panic fuel s neither nor =
    rw (search_rsdp-none 64 (ebda s.bytes) fuel s neither, search_rsdp-none 8192 0xE0000 fuel s nor)

-- where the search finds its first root pointer, if anywhere
pub data FirstRsdp (m : Memory ℕ) : Option ℕ → Type 0 where
  in_ebda :
      (j : ℕ)
      → j < 64
      → NoneAmong j (ebda m) m
      → IsRsdp m (ebda m + 16 * j)
      → FirstRsdp m (some (ebda m + 16 * j))
  in_bios :
      (j : ℕ)
      → NoneAmong 64 (ebda m) m
      → j < 8192
      → NoneAmong j 0xE0000 m
      → IsRsdp m (0xE0000 + 16 * j)
      → FirstRsdp m (some (0xE0000 + 16 * j))
  nowhere : NoneAmong 64 (ebda m) m → NoneAmong 8192 0xE0000 m → FirstRsdp m none

-- what `init_acpi` makes of it
abbrev pub answer : ℕ → Option ℕ → Proc Acpi (Unit {0})
answer fuel (some p) = tables_of fuel p
answer fuel none = kpanic "Could not find ACPI RSDP"

-- `init_acpi` reads the tables of the first root pointer at a multiple of 16 in the first 1024
-- bytes of the EBDA, of the first from 0xE0000 to 0xFFFFF if the EBDA has none, and nothing else;
-- it panics if there is none in either range.
pub init_acpi-FirstRsdp :
    (fuel : ℕ) (s : Acpi) (r : Option ℕ) → FirstRsdp s.bytes r → init_acpi fuel s ≡ answer fuel r s
init_acpi-FirstRsdp fuel s r (in_ebda j l none' ok) = init_acpi-ebda fuel j s l none' ok
init_acpi-FirstRsdp fuel s r (in_bios j none' l none'' ok) =
    init_acpi-bios fuel j s none' l none'' ok
init_acpi-FirstRsdp fuel s r (nowhere none' none'') = init_acpi-panic fuel s none' none''
