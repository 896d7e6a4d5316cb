-- ===== src/Disk.antt =====
-- The list of disks, kernel/disk/disk.c.
pub mod Registry
mod Tests
use black_diamond_os.Prelude.{ℕ, zero, suc, ◌+◌, u8, ◌==◌, if◌then◌else◌}
use black_diamond_os.Machine.{
  Outcome, done, panic, fault, stuck, Proc, Memory, update, pure, crash, spin, get, modify, ◌>>=◌,
  ◌>>◌,
}
use black_diamond_os.Heap.{Heap}
use black_diamond_os.Heap.Malloc.{malloc}

-- `struct disk`; its field `data` is the driver's.
pub record Disk : Type 0 where
  pub id : ℕ
  pub type : ℕ
  pub size : ℕ
  pub driver_data : ℕ
  pub next : ℕ

-- The kernel's heap, what memory holds when read as a disk, and the global `first_disk`.
pub record Disks : Type 0 where
  pub heap : Heap
  pub disks : Memory Disk
  pub first_disk : ℕ

-- `sizeof(struct disk)`
abbrev pub disk_bytes : ℕ
disk_bytes = 32

-- Reads and writes through a pointer to a disk fault at null.
unfoldable pub load_disk : ℕ → Proc Disks Disk
load_disk p = if p == 0 then crash else λ s. pure (s.disks p) s

unfoldable pub store_disk : ℕ → (Disk → Disk) → Proc Disks (Unit {0})
store_disk p f =
    if p == 0 then crash else modify (λ s. record s { disks = update s.disks p (f (s.disks p)) })

-- the call of `malloc`
abbrev pub resume : Disks → Outcome Heap ℕ → Outcome Disks ℕ
resume s (done a h) = done a (record s { heap = h })
resume s (panic msg) = panic msg
resume s fault = fault
resume s stuck = stuck

unfoldable pub new_disk : ℕ → Proc Disks ℕ
new_disk fuel s = resume s (malloc fuel disk_bytes s.heap)

-- where the loop of `_make_disk` ends
pub record Last : Type 0 where
  pub prev_disk : ℕ
  pub disk_id : ℕ

-- `while (prev_disk->next) {prev_disk = prev_disk->next; disk_id++;}`
unfoldable pub last_disk : ℕ → ℕ → ℕ → Proc Disks Last
last_disk zero prev_disk disk_id = spin
last_disk (suc fuel) prev_disk disk_id = do
  d ← load_disk prev_disk
  if d.next == 0
      then pure (record { prev_disk = prev_disk; disk_id = disk_id })
      else last_disk fuel d.next (u8 (disk_id + 1))

-- how `_make_disk` links the new disk; the identifier for it
unfoldable pub link_disk : ℕ → ℕ → Proc Disks ℕ
link_disk fuel disk = do
  s ← get
  if s.first_disk == 0 then (do modify (λ t. record t { first_disk = disk }); pure 0) else (do
    last ← last_disk fuel s.first_disk 0
    store_disk last.prev_disk (λ d. record d { next = disk })
    pure last.disk_id)

-- `_make_disk`; `fuel` bounds the number of disks and the lists of the heap.
unfoldable pub make_disk : ℕ → Proc Disks ℕ
make_disk fuel = do
  disk ← new_disk fuel
  disk_id ← link_disk fuel disk
  store_disk disk (λ d. record d { id = disk_id })
  store_disk disk (λ d. record d { next = 0 })
  pure disk

-- the loop of `get_disk`
unfoldable pub find_disk : ℕ → ℕ → ℕ → Proc Disks ℕ
find_disk zero disk_id disk = spin
find_disk (suc fuel) disk_id disk = do
  d ← load_disk disk
  if d.id == disk_id then pure disk else find_disk fuel disk_id d.next

unfoldable pub get_disk : ℕ → ℕ → Proc Disks ℕ
get_disk fuel disk_id = do s ← get; find_disk fuel disk_id s.first_disk
