-- ===== src/Acpi/Madt.antt =====
-- `__enumerate_madt` of kernel/acpi/madt.c.
use black_diamond_os.Prelude.{
  ℕ, zero, suc, ◌+◌, ◌-◌, ◌^◌, ◌<◌, ◌≤◌, ◌≡◌, ◌≢◌, refl, sym, ap, inl, inr, u32, ltb, lt→ltb,
  le→not_ltb, not_ltb→le, Bool-cases, ◌==◌, eqb→eq, ne→not_eqb, if◌then◌else◌, List, [], ◌∷◌,
  length, arith,
}
use black_diamond_os.Machine.{read_u32, read_u64, done, stuck, Memory}
use black_diamond_os.Acpi.{Acpi, sdt_header_size, process_entry, process_entries, enumerate_madt}

-- an entry of the table: its type, its length, and the 64-bit address that a type 5 entry holds
pub record Entry : Type 0 where
  pub type : ℕ
  pub size : ℕ
  pub address : ℕ

-- The entries stand one after another from the offset `i` of the data to the offset `end`. An
-- entry has its type and length, and one of type 5 is 12 bytes long with an address in it.
unfoldable pub Entries : Memory ℕ → ℕ → ℕ → List Entry → ℕ → Type 0
Entries m base i [] end = i ≡ end
Entries m base i (e ∷ es) end =
    (m (base + i) ≡ e.type)
    × (m (base + i + 1) ≡ e.size)
    × (2 ≤ e.size)
    × (e.type ≡ 5 → (e.size ≡ 12) × (read_u64 m (base + i + 4) ≡ e.address))
    × Entries m base (i + e.size) es end

-- the address of the LAPIC after the entries: that of the last override, if there is one
unfoldable pub overridden : List Entry → ℕ → ℕ
overridden [] lapic = lapic
overridden (e ∷ es) lapic = overridden es (if e.type == 5 then e.address else lapic)

Entries-le :
    (m : Memory ℕ) (base i : ℕ) (es : List Entry) (end : ℕ) → Entries m base i es end → i ≤ end
unfolding Entries
Entries-le m base i [] end v = omega (arith, v)
Entries-le m base i (e ∷ es) end v = omega (arith, Entries-le m base (i + e.size) es end (v.4))

-- Entries within 8 bytes are too short for an override.
overridden-short :
    (m : Memory ℕ) (base i : ℕ) (es : List Entry) (end lapic : ℕ)
    → Entries m base i es end
    → end ≤ i + 8
    → overridden es lapic ≡ lapic
unfolding Entries overridden
overridden-short m base i [] end lapic v h = refl
overridden-short m base i (e ∷ es) end lapic v h =
    let above = Entries-le m base (i + e.size) es end (v.4) in
    let other : e.type ≢ 5 = λ f. omega (arith, (v.3 f).0, above) in
    rw (ne→not_eqb e.type 5 other)
      (overridden-short m base (i + e.size) es end lapic (v.4) (omega arith))

process_entry-done :
    (s : Acpi) (p type address : ℕ)
    → s.bytes p ≡ type
    → (type ≡ 5 → read_u64 s.bytes (p + 4) ≡ address)
    → process_entry p s ≡ done tt (record s { lapic = if type == 5 then address else s.lapic })
unfolding process_entry
process_entry-done s p type address is holds = elim (Bool-cases (type == 5)) [
  | inl h ↦ rw (is, h, holds (eqb→eq type 5 h))
  | inr h ↦ rw (is, h)
]

process_entries-done :
    (fuel i end base : ℕ) (es : List Entry) (s : Acpi)
    → Entries s.bytes base i es end
    → 8 ≤ end
    → end < 2 ^ 32
    → length es < fuel
    → process_entries fuel i (end - 8) base s ≡ done tt (record s { lapic = overridden es s.lapic })
unfolding process_entries Entries overridden
process_entries-done zero i end base es s v big small h = absurd (omega (arith, h))
process_entries-done (suc fuel) i end base [] s v big small h =
    rw (le→not_ltb i (end - 8) (omega (arith, v)))
process_entries-done (suc fuel) i end base (e ∷ es) s v big small h =
    elim (Bool-cases (ltb i (end - 8))) [
      | inl h' ↦
          let above = Entries-le s.bytes base (i + e.size) es end (v.4) in
          let s' = record s { lapic = if e.type == 5 then e.address else s.lapic } in
          let step : u32 (i + e.size) ≡ i + e.size = omega (arith, above, small) in
          rw
            (h', process_entry-done s (base + i) e.type e.address (v.0) (λ f. (v.3 f).1), v.1, step)
            (process_entries-done fuel (i + e.size) end base es s' (v.4) big small
              (omega (arith, h)))
      | inr h' ↦ rw h' (
          ap (λ (l : ℕ). done tt (record s { lapic = l }))
            (sym (
              overridden-short s.bytes base i (e ∷ es) end s.lapic v
                (omega (arith, not_ltb→le i (end - 8) h')))))
    ]

-- On a table that is at least 44 bytes long with well-formed entries up to its end,
-- `__enumerate_madt` ends, with fuel above the number of entries, and leaves the table's LAPIC
-- address or that of the last override among all entries, although its bound leaves out the last 8
-- bytes.
pub enumerate_madt-overridden :
    (fuel header length' : ℕ) (es : List Entry) (s : Acpi)
    → read_u32 s.bytes (header + 4) ≡ length'
    → 44 ≤ length'
    → length' < 2 ^ 32
    → Entries s.bytes (header + sdt_header_size) 8 es (length' - sdt_header_size)
    → length es < fuel
    → enumerate_madt fuel header s
      ≡ done tt (record s {
        madt = header;
        lapic = overridden es (read_u32 s.bytes (header + sdt_header_size));
      })
unfolding enumerate_madt
enumerate_madt-overridden fuel header length' es s is big small v h =
    let bound : u32 (length' + 2 ^ 64 - sdt_header_size - 8) ≡ length' - sdt_header_size - 8 =
      omega (arith, big, small) in
    rw (is, bound)
      (process_entries-done fuel 8 (length' - sdt_header_size) (header + sdt_header_size) es
        (record s { madt = header; lapic = read_u32 s.bytes (header + sdt_header_size) }) v
        (omega arith) (omega arith) h)

entry-stuck :
    (fuel i length' base : ℕ) (s : Acpi)
    → i < length'
    → i < 2 ^ 32
    → s.bytes (base + i + 1) ≡ 0
    → process_entries fuel i length' base s ≡ stuck
unfolding process_entries
entry-stuck zero i length' base s below small none = refl
entry-stuck (suc fuel) i length' base s below small none =
    let kind = s.bytes (base + i) in
    let address = read_u64 s.bytes (base + i + 4) in
    let stays : u32 (i + 0) ≡ i = omega (arith, small) in
    rw
      (
        lt→ltb i length' below,
        process_entry-done s (base + i) kind address refl (λ _. refl),
        none,
        stays,
      )
      (entry-stuck fuel i length' base (record s { lapic = if kind == 5 then address else s.lapic })
        below small none)

-- If the first entry of a table longer than 52 bytes has length 0, `__enumerate_madt` never ends.
enumerate_madt-stuck :
    (fuel header length' : ℕ) (s : Acpi)
    → read_u32 s.bytes (header + 4) ≡ length'
    → 52 < length'
    → length' < 2 ^ 32
    → s.bytes (header + sdt_header_size + 8 + 1) ≡ 0
    → enumerate_madt fuel header s ≡ stuck
unfolding enumerate_madt
enumerate_madt-stuck fuel header length' s is big small none =
    let bound : u32 (length' + 2 ^ 64 - sdt_header_size - 8) ≡ length' - sdt_header_size - 8 =
      omega (arith, big, small) in
    rw (is, bound)
      (entry-stuck fuel 8 (length' - sdt_header_size - 8) (header + sdt_header_size)
        (record s { madt = header; lapic = read_u32 s.bytes (header + sdt_header_size) })
        (omega arith) (omega arith) none)
