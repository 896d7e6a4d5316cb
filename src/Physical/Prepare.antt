-- ===== src/Physical/Prepare.antt =====
-- `prep_mem` of kernel/mem/physical.c: a block of size 0 at the start of each usable region of the
-- E820 map, and the block of the kernel.
pub mod Ascending
pub mod Build
pub mod Boot
pub mod Descending
mod Tests
use black_diamond_os.Prelude.{
  ℕ, zero, suc, ◌+◌, ◌-◌, ◌*◌, ◌%◌, ◌^◌, Bool, ◌&&◌, List, [], ◌∷◌, not, u64, ltb, leb, ◌==◌,
  if◌then◌else◌,
}
use black_diamond_os.Machine.{Proc, pure, spin, kpanic, get, ◌>>=◌, ◌>>◌}
use black_diamond_os.Physical.{
  Phys, Block, lead_sig_value, trail_sig_value, header_size, load, store, set_first, set_final,
  make_new_block,
}

-- `struct mmap_entry`
pub record MmapEntry : Type 0 where
  pub address : ℕ
  pub length : ℕ
  pub type : ℕ
  pub attributes : ℕ

-- the distance from the start of a region to the next multiple of 16
abbrev pub alignment_of : ℕ → ℕ
alignment_of address = if address % 16 == 0 then 0 else 16 - address % 16

-- the test of the loop over the map
abbrev pub usable : MmapEntry → Bool
usable e =
    e.type == 1 && leb 0x100000 e.address && ltb (header_size + alignment_of e.address) e.length

-- `while (prev_block->next && prev_block->next < block) prev_block = prev_block->next`
unfoldable pub find_before : ℕ → ℕ → ℕ → Proc Phys ℕ
find_before zero block prev = spin
find_before (suc fuel) block prev = do
  p ← load prev
  if not (p.next == 0) && ltb p.next block then find_before fuel block p.next else pure prev

-- where the new block is linked into the list
unfoldable pub link : ℕ → ℕ → Proc Phys (Unit {0})
link fuel block = do
  s ← get
  if s.first_block == 0
      then (do set_first block; set_final block; store block (λ b. record b { next = 0; prev = 0 }))
      else if ltb block s.first_block
      then (do store block (λ b. record b { next = s.first_block; prev = 0 }); set_first block)
      else (do
        before ← find_before fuel block s.first_block
        store block (λ b. record b { prev = before })
        if before == s.final_block
            then (store block (λ b. record b { next = 0 }) >> set_final block)
            else (do p ← load before; store block (λ b. record b { next = p.next }))
        store before (λ p. record p { next = block }))

-- what the loop of `prep_mem` does with an entry
unfoldable pub add_region : ℕ → MmapEntry → Proc Phys (Unit {0})
add_region fuel e =
    if usable e
    then (do
      let alignment = alignment_of e.address
      let block = u64 (e.address + alignment)
      link fuel block
      store block (λ b. record b {
        lead_sig = lead_sig_value;
        trail_sig = trail_sig_value;
        size = 0;
        free_mem_following = u64 (e.length + 2 ^ 64 - header_size + 2 ^ 64 - alignment);
      }))
    else pure tt

-- the loop; a map that lacks its end mark is read past its end
unfoldable pub add_regions : ℕ → List MmapEntry → Proc Phys (Unit {0})
add_regions fuel [] = spin
add_regions fuel (e ∷ es) =
    if e.address == 0x55AA then pure tt else (add_region fuel e >> add_regions fuel es)

-- the search for the block whose region holds the kernel
unfoldable pub find_kernel : ℕ → ℕ → ℕ → Proc Phys ℕ
find_kernel zero kernel block = spin
find_kernel (suc fuel) kernel block =
    if block == 0
    then pure 0
    else if u64 (block + header_size * 2) == kernel
    then pure block
    else (do b ← load block; find_kernel fuel kernel b.next)

-- `prep_mem`, less its debug output; `fuel` bounds the number of blocks.
unfoldable pub prep_mem : ℕ → List MmapEntry → ℕ → ℕ → Proc Phys (Unit {0})
prep_mem fuel mmap kernel kernel_size = do
  add_regions fuel mmap
  s ← get
  block ← find_kernel fuel kernel s.first_block
  if block == 0
      then kpanic "invalid kernel location (must be 64 bytes after start of memory region)"
      else (do new ← make_new_block kernel_size block; pure tt)
