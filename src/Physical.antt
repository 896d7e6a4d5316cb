-- ===== src/Physical.antt =====
-- The physical memory manager, kernel/mem/physical.c: a doubly linked list of block headers in
-- memory, each followed by its allocation and then by free bytes.
pub mod Prepare
pub mod Dump
mod Tests
pub mod Regions
pub mod Chain
pub mod Access
pub mod Best
pub mod Split
pub mod Alloc
pub mod Free
pub mod Contract
pub mod Invariant
pub mod Client
pub mod Integrity
use black_diamond_os.Prelude.{
  ℕ, zero, suc, ◌+◌, ◌-◌, ◌%◌, ◌^◌, Bool, ◌&&◌, ◌||◌, u64, ltb, leb, ◌==◌, if◌then◌else◌,
}
use black_diamond_os.Machine.{
  Proc, Memory, update, pure, crash, spin, kpanic, get, modify, ◌>>=◌, ◌>>◌,
}

-- `LEAD_SIG` and `TRAIL_SIG`
abbrev pub lead_sig_value : ℕ
lead_sig_value = 0x5EA90516AABBCC01

abbrev pub trail_sig_value : ℕ
trail_sig_value = 0x5EA90516AABBCC02

-- `struct phys_mem_block`; a pointer is an address, 0 is null.
pub record Block : Type 0 where
  pub lead_sig : ℕ
  pub next : ℕ
  pub prev : ℕ
  pub size : ℕ
  pub free_mem_following : ℕ
  pub trail_sig : ℕ

-- `sizeof(struct phys_mem_block)`
abbrev pub header_size : ℕ
header_size = 48

-- What memory holds when read as a header at each address, with the two globals
-- `phys_first_block` and `phys_final_block`.
pub record Phys : Type 0 where
  pub blocks : Memory Block
  pub first_block : ℕ
  pub final_block : ℕ

-- `*block`, a fault at null
unfoldable pub load : ℕ → Proc Phys Block
load p = if p == 0 then crash else λ s. pure (s.blocks p) s

-- a write to the fields of `*block`
unfoldable pub store : ℕ → (Block → Block) → Proc Phys (Unit {0})
store p f =
    if p == 0 then crash else modify (λ s. record s { blocks = update s.blocks p (f (s.blocks p)) })

abbrev pub set_final : ℕ → Proc Phys (Unit {0})
set_final p = modify (λ s. record s { final_block = p })

abbrev pub set_first : ℕ → Proc Phys (Unit {0})
set_first p = modify (λ s. record s { first_block = p })

-- the test of `_check_phys_block`
abbrev pub intact : Block → Bool
intact b = b.lead_sig == lead_sig_value && b.trail_sig == trail_sig_value

unfoldable pub check_phys_block : ℕ → Proc Phys (Unit {0})
check_phys_block p = do
  b ← load p
  if intact b
      then pure tt
      else kpanic "physical memory integrity validation failed - an overflow has occured"

unfoldable pub make_new_block : ℕ → ℕ → Proc Phys ℕ
make_new_block size selected = do
  b ← load selected
  let new = u64 (selected + b.size + header_size)
  store new (λ _. record {
    lead_sig = lead_sig_value;
    next = b.next;
    prev = selected;
    size = u64 (size + 2 ^ 64 - header_size);
    free_mem_following = u64 (b.free_mem_following + 2 ^ 64 - size);
    trail_sig = trail_sig_value;
  })
  s ← get
  if selected == s.final_block then set_final new else store b.next (λ n. record n { prev = new })
  store selected (λ c. record c { next = new; free_mem_following = 0 })
  pure new

-- the test of the loop in `phys_alloc`, on the block and the selection so far
unfoldable pub better : ℕ → ℕ → ℕ → ℕ → Bool
better size free selected selected_free = leb size free && (selected == 0 || ltb free selected_free)

-- the `while (block)` loop of `phys_alloc`
unfoldable pub scan : ℕ → ℕ → ℕ → ℕ → Proc Phys ℕ
scan zero size block selected = spin
scan (suc fuel) size block selected = if block == 0 then pure selected else do
  check_phys_block block
  b ← load block
  s ← get
  let selected_free = (s.blocks selected).free_mem_following
  scan fuel size b.next
      (if better size b.free_mem_following selected selected_free then block else selected)

-- how `phys_alloc` rounds a request: at least 16, a multiple of 16, with the header
unfoldable pub round_size : ℕ → ℕ
round_size size =
    let at_least = if ltb size 16 then 16 else size in
    let aligned = if at_least % 16 == 0 then at_least else u64 (at_least + (16 - at_least % 16)) in
    u64 (aligned + header_size)

-- `phys_alloc`; `fuel` bounds the number of blocks.
unfoldable pub phys_alloc : ℕ → ℕ → Proc Phys ℕ
phys_alloc fuel size = do
  s ← get
  selected ← scan fuel (round_size size) s.first_block 0
  if selected == 0
      then pure 0
      else do new ← make_new_block (round_size size) selected; pure (u64 (new + header_size))

unfoldable pub phys_free : ℕ → Proc Phys (Unit {0})
phys_free ptr = do
  let block = u64 (ptr + 2 ^ 64 - header_size)
  check_phys_block block
  b ← load block
  s ← get
  if block == s.final_block
      then set_final b.prev
      else store b.next (λ n. record n { prev = b.prev })
  b' ← load block
  store b'.prev (λ p. record p { next = b'.next })
  b'' ← load block
  store b''.prev (λ p. record p {
    free_mem_following =
        u64 (p.free_mem_following + (b''.size + header_size + b''.free_mem_following));
  })
