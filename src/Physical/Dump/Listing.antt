-- ===== src/Physical/Dump/Listing.antt =====
-- What the dumps of kernel/mem/physical.c print, in terms of the regions and of the memory map.
use black_diamond_os.Prelude.{
  ℕ, zero, suc, ◌+◌, ◌^◌, ◌<◌, ◌≡◌, refl, ap, ◌∙◌, subst, ◌||◌, true, List, [], ◌∷◌, ◌++◌, length,
  u64, ◌==◌, if◌then◌else◌, ne→not_eqb, inl, inr, Bool-cases, arith,
}
use black_diamond_os.Machine.{Output, text, hex, dec, done}
use black_diamond_os.Physical.{Phys, header_size}
use black_diamond_os.Physical.Access.{load-done}
use black_diamond_os.Physical.Regions.{Region, Spaced, end_of}
use black_diamond_os.Physical.Chain.{Linked, Represents, first_of, Spaced-lt}
use black_diamond_os.Physical.Prepare.{MmapEntry}
use black_diamond_os.Physical.Prepare.Ascending.{has_end}
use black_diamond_os.Physical.Dump.{
  print_entry, dump_entries, dump_mem_info, dump_blocks, dump_phys_mem,
}

-- the lines for a region: its allocation, and its free bytes if there are any
abbrev pub region_lines : Region → List Output
region_lines r =
    text "Physical memory entry: type=allocated size=0x"
      ∷ hex r.size
      ∷ text " addr=0x"
      ∷ hex (r.addr + header_size)
      ∷ (if r.free == 0
          then []
          else text "\r\nPhysical memory entry: type=free size=0x" ∷ hex r.free ∷ [])
    ++ (text "\r\n" ∷ [])

unfoldable pub listing : List Region → List Output
listing [] = []
listing (r ∷ rs) = region_lines r ++ listing rs

dump_blocks-listing :
    (fuel prev lo : ℕ) (s : Phys) (rs : List Region)
    → Linked s.blocks prev rs 0
    → Spaced lo rs
    → length rs < fuel
    → dump_blocks fuel (first_of rs 0) s ≡ done (listing rs) s
unfolding dump_blocks listing
dump_blocks-listing zero prev lo s rs l sp h = absurd (omega arith)
dump_blocks-listing (suc fuel) prev lo s [] l sp h = refl
dump_blocks-listing (suc fuel) prev lo s (r ∷ rs) l sp h =
    let bound = Spaced-lt (end_of r) rs sp.2 in
    let here : u64 (r.addr + header_size) ≡ r.addr + header_size = omega (arith, bound) in
    rw (
      ne→not_eqb r.addr 0 (omega arith),
      load-done r.addr s sp.1,
      l.0,
      dump_blocks-listing fuel r.addr (end_of r) s rs l.1 sp.2 (omega arith),
      here,
    )

-- On memory that represents regions and with fuel above their number, `dump_phys_mem` ends, changes
-- nothing, and prints for every region, in the order of the addresses, the size and the address of
-- its allocation, and the free bytes behind it if there are any.
pub dump_phys_mem-listing :
    (fuel : ℕ) (s : Phys) (rs : List Region)
    → Represents s rs
    → length rs < fuel
    → dump_phys_mem fuel s ≡ done (listing rs) s
unfolding dump_phys_mem
dump_phys_mem-listing fuel s rs v h =
    ap (λ (a : ℕ). dump_blocks fuel a s) v.first
    ∙ dump_blocks-listing fuel 0 0 s rs v.linked v.spaced h

-- the lines of the entries before the end mark
unfoldable pub entry_lines : List MmapEntry → List Output
entry_lines [] = []
entry_lines (e ∷ es) =
    let rest = entry_lines es in if e.address == 0x55AA then [] else print_entry e ++ rest

-- the bytes of the usable entries before the end mark
unfoldable pub usable_bytes : List MmapEntry → ℕ
usable_bytes [] = 0
usable_bytes (e ∷ es) =
    let rest = usable_bytes es in
    if e.address == 0x55AA then 0 else if e.type == 1 then e.length + rest else rest

dump_entries-lines :
    (total_mem : ℕ) (mmap : List MmapEntry) (s : Phys)
    → has_end mmap ≡ true
    → total_mem < 2 ^ 64
    → dump_entries total_mem mmap s ≡ done (entry_lines mmap, u64 (total_mem + usable_bytes mmap)) s
unfolding dump_entries entry_lines usable_bytes has_end
dump_entries-lines total_mem [] s ends small = absurd (ground (arith, ends))
dump_entries-lines total_mem (e ∷ es) s ends small = elim (Bool-cases (e.address == 0x55AA)) [
  | inl last ↦ rw last (ap (λ (a : ℕ). done ([], a) s) (omega arith))
  | inr more ↦
      let later : has_end es ≡ true = subst (λ b. (b || has_end es) ≡ true) more ends in
      elim (Bool-cases (e.type == 1)) [
        | inl one ↦
            rw (more, one, dump_entries-lines (u64 (total_mem + e.length)) es s later (omega arith))
              (ap (λ (a : ℕ). done (print_entry e ++ entry_lines es, a) s) (omega arith))
        | inr other ↦ rw (more, other, dump_entries-lines total_mem es s later small) refl
      ]
]

-- On a map that ends, `dump_mem_info` ends, changes nothing, and prints every entry before the end
-- mark and then the number of bytes of the usable ones, modulo 2^64.
pub dump_mem_info-lines :
    (mmap : List MmapEntry) (s : Phys)
    → has_end mmap ≡ true
    → dump_mem_info mmap s
      ≡ done
          (entry_lines mmap
            ++ (text "Total usable memory = "
                ∷ dec (u64 (usable_bytes mmap))
                ∷ text " bytes\n\r"
                ∷ []))
          s
unfolding dump_mem_info
dump_mem_info-lines mmap s ends =
    let whole : 0 + usable_bytes mmap ≡ usable_bytes mmap = omega arith in
    rw (dump_entries-lines 0 mmap s ends (omega arith), whole) refl
