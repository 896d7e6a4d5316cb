-- ===== src/Interrupts.antt =====
-- Interrupts, kernel/core/interrupts.c: the descriptor table, the exceptions and the two
-- interrupt controllers.
pub mod Table
pub mod Masks
pub mod Exceptions
mod Tests
use Prim.Native.String.{String}
use black_diamond_os.Prelude.{
  ℕ, zero, suc, ◌+◌, ◌-◌, ◌/◌, ◌^◌, List, [], ◌∷◌, ◌++◌, u8, u16, u32, ltb, ◌==◌, if◌then◌else◌,
  bit_and,
}
use black_diamond_os.Machine.{
  copy_bytes, Outcome, done, panic, fault, stuck, PortWrite, Proc, Memory, update, pure, crash,
  kpanic, get, modify, ◌>>=◌, ◌>>◌,
}
use black_diamond_os.Heap.{Heap}
use black_diamond_os.Heap.Malloc.{malloc}

-- `struct idt_entry`
pub record IdtEntry : Type 0 where
  pub isr_low : ℕ
  pub cs_selector : ℕ
  pub ist : ℕ
  pub attributes : ℕ
  pub isr_mid : ℕ
  pub isr_high : ℕ
  pub reserved : ℕ

-- The kernel's heap, the bytes of memory, the global `idt` with the entries behind it, what a read
-- of each port gives, and the writes to ports so far. The controllers give back the mask that was
-- last written to their data port.
pub record Interrupts : Type 0 where
  pub heap : Heap
  pub bytes : Memory ℕ
  pub idt : ℕ
  pub entries : Memory IdtEntry
  pub ports : Memory ℕ
  pub writes : List PortWrite
  pub idtr_size : ℕ
  pub idtr_offset : ℕ

-- Where the linker puts the assembly wrappers and the C handler, which are read as addresses, and
-- the size of the exception wrapper.
pub record Layout : Type 0 where
  pub exception_wrapper : ℕ
  pub exception_wrapper_size : ℕ
  pub exception_handler : ℕ
  pub unhandled_int_wrapper : ℕ

abbrev pub pic1_cmd : ℕ
pic1_cmd = 0x20

abbrev pub pic1_dat : ℕ
pic1_dat = 0x21

abbrev pub pic2_cmd : ℕ
pic2_cmd = 0xA0

abbrev pub pic2_dat : ℕ
pic2_dat = 0xA1

unfoldable pub outb : ℕ → ℕ → Proc Interrupts (Unit {0})
outb port value = modify (λ s. record s {
  ports = update s.ports port value;
  writes = s.writes ++ (record { port = port; value = value } ∷ []);
})

abbrev pub inb : ℕ → Proc Interrupts ℕ
inb port = λ s. pure (s.ports port) s

-- `pwait`: a write to an unused port
abbrev pub pwait : Proc Interrupts (Unit {0})
pwait = outb 0x80 0

-- `exception_handler`
unfoldable pub exception_handler : ℕ → Proc Interrupts ℕ
exception_handler i =
    if i == 0
    then kpanic "exception caught: division error"
    else if i == 1
    then pure 0
    else if i == 2
    then kpanic "exception caught: NMI (fatal hardware faliure"
    else if i == 3
    then kpanic "exception caught: breakpoint"
    else if i == 4
    then kpanic "exception caught: overflow"
    else if i == 5
    then kpanic "exception caught: bound checks failed"
    else if i == 6
    then kpanic "exception caught: invalid opcode"
    else if i == 7
    then kpanic "exception caught: CPU extention unavaliable"
    else if i == 8
    then kpanic "exception caught: double fault"
    else if i == 11
    then kpanic "exception caught: segment does not exist"
    else if i == 12
    then kpanic "exception caught: segment does not exist"
    else if i == 13
    then kpanic "exception caught: general protection fault"
    else if i == 14
    then kpanic "exception caught: page fault (attempted to access memory >64GB)"
    else if i == 16
    then kpanic "exception caught: floating point maths error"
    else if i == 19
    then kpanic "exception caught: floating point maths error"
    else kpanic "unhandled exception caught"

-- what `add_interrupt` writes
abbrev pub entry_for : ℕ → ℕ → IdtEntry
entry_for trap isr = record {
  isr_low = u16 isr;
  cs_selector = 0x28;
  ist = 0;
  attributes = if trap == 0 then 0x8E else 0x8F;
  isr_mid = u16 (isr / 2 ^ 16);
  isr_high = u32 (isr / 2 ^ 32);
  reserved = 0;
}

unfoldable pub add_interrupt : ℕ → ℕ → ℕ → Proc Interrupts (Unit {0})
add_interrupt vector trap isr s =
    if s.idt == 0
    then fault
    else done tt (record s { entries = update s.entries vector (entry_for trap isr) })

unfoldable pub irq_eoi : ℕ → Proc Interrupts (Unit {0})
irq_eoi irq = do if ltb irq 8 then pure tt else outb pic2_cmd 0x20; outb pic1_cmd 0x20

-- `mask & ~(1<<irq)`
unfoldable pub cleared : ℕ → ℕ → ℕ
cleared mask irq = u8 (bit_and mask (2 ^ 32 - 1 - 2 ^ irq))

unfoldable pub irq_unmask : ℕ → Proc Interrupts (Unit {0})
irq_unmask irq =
    if ltb irq 8
    then (do mask ← inb pic1_dat; outb pic1_dat (cleared mask irq))
    else (do mask ← inb pic2_dat; outb pic2_dat (cleared mask (irq - 8)))

-- `_program_pic`
unfoldable pub program_pic : Proc Interrupts (Unit {0})
program_pic = do
  outb pic1_cmd 0x11
  pwait
  outb pic2_cmd 0x11
  pwait
  outb pic1_dat 32
  pwait
  outb pic2_dat 40
  pwait
  outb pic1_dat 4
  pwait
  outb pic2_dat 2
  pwait
  outb pic1_dat 1
  pwait
  outb pic2_dat 1
  pwait
  outb pic1_dat 0xFF
  outb pic2_dat 0xFF

-- a call of `malloc`
abbrev pub resume : Interrupts → Outcome Heap ℕ → Outcome Interrupts ℕ
resume s (done a h) = done a (record s { heap = h })
resume s (panic msg) = panic msg
resume s fault = fault
resume s stuck = stuck

unfoldable pub new_memory : ℕ → ℕ → Proc Interrupts ℕ
new_memory fuel size s = resume s (malloc fuel size s.heap)

-- a 64-bit write, byte by byte, with `rounds` bytes left
unfoldable pub write_bytes : ℕ → ℕ → ℕ → Memory ℕ → Memory ℕ
write_bytes zero p value m = m
write_bytes (suc rounds) p value m =
    write_bytes rounds (p + 1) (value / 2 ^ 8) (update m p (u8 value))

-- the copy of the exception wrapper at `exception`, for vector `i`
unfoldable pub wrapper_for : Layout → ℕ → ℕ → ℕ → Memory ℕ → Memory ℕ
wrapper_for l kernel i exception m =
    let copied = copy_bytes l.exception_wrapper_size 0 exception (l.exception_wrapper + kernel) m in
    write_bytes 8 (exception + 31) l.exception_handler (update copied (exception + 25) i)

-- the loop over the exceptions, with `rounds` rounds left
unfoldable pub add_exceptions : ℕ → ℕ → Layout → ℕ → ℕ → Proc Interrupts (Unit {0})
add_exceptions zero i l kernel fuel = pure tt
add_exceptions (suc rounds) i l kernel fuel = do
  exception ← new_memory fuel l.exception_wrapper_size
  if exception == 0 then kpanic "could not set up exception" else do
    modify (λ s. record s { bytes = wrapper_for l kernel i exception s.bytes })
    add_interrupt i 1 exception
  add_exceptions rounds (i + 1) l kernel fuel

-- the loop over the other vectors, with `rounds` rounds left
unfoldable pub add_unhandled : ℕ → ℕ → ℕ → Proc Interrupts (Unit {0})
add_unhandled zero i isr = pure tt
add_unhandled (suc rounds) i isr = do add_interrupt i 0 isr; add_unhandled rounds (i + 1) isr

-- the last loop of `init_interrupts`: the vectors from 48 to 254
unfoldable pub add_unhandled_ints : ℕ → Proc Interrupts (Unit {0})
add_unhandled_ints isr = add_unhandled 207 48 isr

-- `sizeof(*idt)`
abbrev pub idt_bytes : ℕ
idt_bytes = 4096

-- `init_interrupts`, less the instructions that enable interrupts and load the table
unfoldable pub init_interrupts : Layout → ℕ → ℕ → Proc Interrupts (Unit {0})
init_interrupts l fuel kernel = do
  program_pic
  irq_unmask 2
  table ← new_memory fuel idt_bytes
  modify (λ s. record s { idt = table; idtr_size = idt_bytes - 1; idtr_offset = table })
  add_exceptions 32 0 l kernel fuel
  add_unhandled_ints (kernel + l.unhandled_int_wrapper)
