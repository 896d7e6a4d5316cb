-- ===== src/Physical/Dump.antt =====
-- `dump_mem_info` and `dump_phys_mem` of kernel/mem/physical.c. What they print is a list of pieces,
-- one for each call of `debug`, `debug_hex` and `debug_dec`.
pub mod Listing
use Prim.Native.String.{String}
use black_diamond_os.Prelude.{
  ℕ, zero, suc, ◌+◌, ◌||◌, List, [], ◌∷◌, ◌++◌, u64, ◌==◌, if◌then◌else◌,
}
use black_diamond_os.Machine.{Proc, Output, text, hex, dec, pure, spin, get, ◌>>=◌}
use black_diamond_os.Physical.{Phys, Block, header_size, load}
use black_diamond_os.Physical.Prepare.{MmapEntry}

-- the word for a type of memory
unfoldable pub type_name : ℕ → String
type_name type =
    if type == 1
    then "usable"
    else if type == 2 || type == 4
    then "unusable"
    else if type == 3
    then "reclaimable"
    else if type == 5
    then "bad"
    else "unknown"

-- `_print_entry`
unfoldable pub print_entry : MmapEntry → List Output
print_entry entry =
    text "E820 entry: addr=0x"
    ∷ hex entry.address
    ∷ text " len=0x"
    ∷ hex entry.length
    ∷ text " type="
    ∷ text (type_name entry.type)
    ∷ text ";\n\r"
    ∷ []

abbrev pub added : ℕ → MmapEntry → ℕ
added total_mem entry = if entry.type == 1 then u64 (total_mem + entry.length) else total_mem

-- the loop of `dump_mem_info`, which also gives the total; a map that lacks its end mark is read
-- past its end
unfoldable pub dump_entries : ℕ → List MmapEntry → Proc Phys (List Output × ℕ)
dump_entries total_mem [] = spin
dump_entries total_mem (entry ∷ entries) =
    if entry.address == 0x55AA then pure ([], total_mem) else (do
      rest ← dump_entries (added total_mem entry) entries
      pure (print_entry entry ++ rest.0, rest.1))

unfoldable pub dump_mem_info : List MmapEntry → Proc Phys (List Output)
dump_mem_info mmap = do
  printed ← dump_entries 0 mmap
  pure (printed.0 ++ (text "Total usable memory = " ∷ dec printed.1 ∷ text " bytes\n\r" ∷ []))

-- the second line of a block, if there is free memory behind it
abbrev pub print_free : Block → List Output
print_free b =
    if b.free_mem_following == 0
    then []
    else text "\r\nPhysical memory entry: type=free size=0x" ∷ hex b.free_mem_following ∷ []

abbrev pub print_block : ℕ → Block → List Output
print_block block b =
    text "Physical memory entry: type=allocated size=0x"
      ∷ hex b.size
      ∷ text " addr=0x"
      ∷ hex (u64 (block + header_size))
      ∷ print_free b
    ++ (text "\r\n" ∷ [])

-- the loop of `dump_phys_mem`
unfoldable pub dump_blocks : ℕ → ℕ → Proc Phys (List Output)
dump_blocks zero block = spin
dump_blocks (suc fuel) block =
    if block == 0
    then pure []
    else (do b ← load block; rest ← dump_blocks fuel b.next; pure (print_block block b ++ rest))

-- `dump_phys_mem`; `fuel` bounds the number of blocks.
unfoldable pub dump_phys_mem : ℕ → Proc Phys (List Output)
dump_phys_mem fuel = do s ← get; dump_blocks fuel s.first_block
