-- ===== src/Ahci.antt =====
-- The AHCI driver, kernel/disk/ahci.c: its structures, the registers of the hardware, and the calls
-- of the other parts.
pub mod Command
pub mod Port
pub mod Driver
pub mod Access
pub mod Slots
pub mod Issue
pub mod Alignment
pub mod Waiting
pub mod Controllers
mod Tests
use black_diamond_os.Prelude.{
  ℕ, ◌+◌, ◌-◌, ◌*◌, ◌/◌, ◌%◌, ◌^◌, ◌&&◌, ◌||◌, leb, ltb, List, [], ◌∷◌, ◌++◌, ◌==◌, if◌then◌else◌,
}
use black_diamond_os.Machine.{
  Outcome, done, panic, fault, stuck, PortWrite, Proc, Memory, update, copy_bytes, pure, crash, get,
  modify, ◌>>=◌, ◌>>◌,
}
use black_diamond_os.Heap.{Heap}
use black_diamond_os.Heap.Malloc.{malloc, cmalloc}
use black_diamond_os.Heap.Free.{free}
use black_diamond_os.Pci.{Pci, Device}
use black_diamond_os.Disk.{Disk, Disks}

-- `struct ahci_hba_port_prdt_entry`
pub record PrdtEntry : Type 0 where
  pub data_base : ℕ
  pub byte_count : ℕ
  pub interrupt : ℕ

-- `struct ahci_hba_port_cmdheader`, less its reserved bits
pub record CmdHeader : Type 0 where
  pub command_fis_length : ℕ
  pub atapi : ℕ
  pub write : ℕ
  pub prefetchable : ℕ
  pub reset : ℕ
  pub bist : ℕ
  pub clear_busy : ℕ
  pub port_multiplier_port : ℕ
  pub prdt_length : ℕ
  pub prd_byte_count : ℕ
  pub command_table_base : ℕ

-- `struct ahci_hba_port_regs`, less its reserved and vendor registers
pub record PortRegs : Type 0 where
  pub command_list_base : ℕ
  pub recieved_fis_base : ℕ
  pub interrupt_status : ℕ
  pub interrupt_enable : ℕ
  pub command_status : ℕ
  pub task_file_data : ℕ
  pub signature : ℕ
  pub sata_status : ℕ
  pub sata_control : ℕ
  pub sata_error : ℕ
  pub sata_active : ℕ
  pub command_issue : ℕ
  pub sata_notification : ℕ
  pub fis_switching_control : ℕ
  pub device_sleep : ℕ

-- `struct ahci_hba_generic_host_ctrl`, less its reserved and vendor registers and its ports
pub record HostCtrl : Type 0 where
  pub capabilities : ℕ
  pub global_control : ℕ
  pub interrupt_status : ℕ
  pub ports_implemented : ℕ
  pub version : ℕ
  pub command_completion_coalescing_control : ℕ
  pub command_completion_coalescing_ports : ℕ
  pub enclosure_management_location : ℕ
  pub enclosure_management_control : ℕ
  pub extended_capabilities : ℕ
  pub bios_os_handoff : ℕ

-- `struct ahci_data`
pub record AhciData : Type 0 where
  pub controller : ℕ
  pub port : ℕ

-- `struct ahci_controller`
pub record Controller : Type 0 where
  pub abar : ℕ
  pub ports : ℕ
  pub next : ℕ

-- The sizes of the structures, and the places of parts in them.
abbrev pub cmdheader_bytes : ℕ
cmdheader_bytes = 32

abbrev pub cmdtable_bytes : ℕ
cmdtable_bytes = 144

abbrev pub prdt_bytes : ℕ
prdt_bytes = 16

abbrev pub prdt_offset : ℕ
prdt_offset = 128

abbrev pub port_regs_bytes : ℕ
port_regs_bytes = 128

abbrev pub ports_offset : ℕ
ports_offset = 0x100

abbrev pub ahci_data_bytes : ℕ
ahci_data_bytes = 16

abbrev pub controller_bytes : ℕ
controller_bytes = 24

abbrev pub fis_bytes : ℕ
fis_bytes = 20

-- The PCI bus with the kernel's heap, the disks, what memory holds at each address when read as a
-- structure of each kind or as a byte, the registers of the controllers and of their ports, the
-- writes to I/O ports so far, and the global `first_ahci_controller`. While the code waits, the
-- hardware changes its registers: `host_answers` and `port_answers` say how, at each of the times
-- that `time` counts.
pub record Ahci : Type 0 where
  pub pci : Pci
  pub disks : Memory Disk
  pub first_disk : ℕ
  pub bytes : Memory ℕ
  pub headers : Memory CmdHeader
  pub prdts : Memory PrdtEntry
  pub ahci_data : Memory AhciData
  pub controllers : Memory Controller
  pub hosts : Memory HostCtrl
  pub port_regs : Memory PortRegs
  pub io_writes : List PortWrite
  pub first_ahci_controller : ℕ
  pub host_answers : ℕ → Memory HostCtrl → Memory HostCtrl
  pub port_answers : ℕ → Memory PortRegs → Memory PortRegs
  pub time : ℕ

-- Reads and writes through pointers fault at null.
unfoldable pub load_port : ℕ → Proc Ahci PortRegs
load_port p = if p == 0 then crash else λ s. pure (s.port_regs p) s

unfoldable pub store_port : ℕ → (PortRegs → PortRegs) → Proc Ahci (Unit {0})
store_port p f =
    if p == 0
    then crash
    else modify (λ s. record s { port_regs = update s.port_regs p (f (s.port_regs p)) })

unfoldable pub load_host : ℕ → Proc Ahci HostCtrl
load_host p = if p == 0 then crash else λ s. pure (s.hosts p) s

unfoldable pub store_host : ℕ → (HostCtrl → HostCtrl) → Proc Ahci (Unit {0})
store_host p f =
    if p == 0 then crash else modify (λ s. record s { hosts = update s.hosts p (f (s.hosts p)) })

unfoldable pub load_header : ℕ → Proc Ahci CmdHeader
load_header p = if p == 0 then crash else λ s. pure (s.headers p) s

unfoldable pub store_header : ℕ → (CmdHeader → CmdHeader) → Proc Ahci (Unit {0})
store_header p f =
    if p == 0
    then crash
    else modify (λ s. record s { headers = update s.headers p (f (s.headers p)) })

-- the bytes of memory with a region descriptor at `p`, whose reserved bits stay
abbrev pub descriptor_bytes : Memory ℕ → ℕ → PrdtEntry → Memory ℕ
descriptor_bytes m p v q =
    if leb p q && ltb q (p + 8)
    then v.data_base / 2 ^ (8 * (q - p)) % 2 ^ 8
    else if q == p + 12
    then v.byte_count % 2 ^ 8
    else if q == p + 13
    then v.byte_count / 2 ^ 8 % 2 ^ 8
    else if q == p + 14
    then v.byte_count / 2 ^ 16 % 2 ^ 6 + m q / 2 ^ 6 * 2 ^ 6
    else if q == p + 15
    then m q % 2 ^ 7 + v.interrupt * 2 ^ 7
    else m q

-- A descriptor lies behind the bytes of a command, so both views of it change.
unfoldable pub store_prdt : ℕ → PrdtEntry → Proc Ahci (Unit {0})
store_prdt p v =
    if p == 0
    then crash
    else modify (λ s. record s { prdts = update s.prdts p v; bytes = descriptor_bytes s.bytes p v })

unfoldable pub store_data : ℕ → AhciData → Proc Ahci (Unit {0})
store_data p v =
    if p == 0 then crash else modify (λ s. record s { ahci_data = update s.ahci_data p v })

unfoldable pub load_controller : ℕ → Proc Ahci Controller
load_controller p = if p == 0 then crash else λ s. pure (s.controllers p) s

unfoldable pub store_controller : ℕ → (Controller → Controller) → Proc Ahci (Unit {0})
store_controller p f =
    if p == 0
    then crash
    else modify (λ s. record s { controllers = update s.controllers p (f (s.controllers p)) })

unfoldable pub store_byte : ℕ → ℕ → Proc Ahci (Unit {0})
store_byte p v = if p == 0 then crash else modify (λ s. record s { bytes = update s.bytes p v })

-- `memcpy` of `n` bytes
unfoldable pub memcpy : ℕ → ℕ → ℕ → Proc Ahci (Unit {0})
memcpy dest src n =
    if n == 0
    then pure tt
    else if dest == 0 || src == 0
    then crash
    else modify (λ s. record s { bytes = copy_bytes n 0 dest src s.bytes })

-- calls of the other parts
abbrev pub resume_pci : {A : Type 0} → Ahci → Outcome Pci A → Outcome Ahci A
resume_pci s (done a p) = done a (record s { pci = p })
resume_pci s (panic msg) = panic msg
resume_pci s fault = fault
resume_pci s stuck = stuck

unfoldable pub on_pci : {A : Type 0} → Proc Pci A → Proc Ahci A
on_pci m s = resume_pci s (m s.pci)

abbrev pub resume_disks : {A : Type 0} → Ahci → Outcome Disks A → Outcome Ahci A
resume_disks s (done a d) =
    done a (record s {
      pci = record s.pci { heap = d.heap };
      disks = d.disks;
      first_disk = d.first_disk;
    })
resume_disks s (panic msg) = panic msg
resume_disks s fault = fault
resume_disks s stuck = stuck

unfoldable pub on_disks : {A : Type 0} → Proc Disks A → Proc Ahci A
on_disks m s =
    resume_disks s (m (record { heap = s.pci.heap; disks = s.disks; first_disk = s.first_disk }))

abbrev pub resume_heap : {A : Type 0} → Ahci → Outcome Heap A → Outcome Ahci A
resume_heap s (done a h) = done a (record s { pci = record s.pci { heap = h } })
resume_heap s (panic msg) = panic msg
resume_heap s fault = fault
resume_heap s stuck = stuck

unfoldable pub on_heap : {A : Type 0} → Proc Heap A → Proc Ahci A
on_heap m s = resume_heap s (m s.pci.heap)

-- the part of a memory at the `size` addresses from `p` on, cleared
abbrev pub zeroed : {A : Type 0} → Memory A → A → ℕ → ℕ → Memory A
zeroed m z p size q = if leb p q && ltb q (p + size) then z else m q

-- a command header and a region descriptor of zeros
abbrev pub no_header : CmdHeader
no_header = record {
  command_fis_length = 0;
  atapi = 0;
  write = 0;
  prefetchable = 0;
  reset = 0;
  bist = 0;
  clear_busy = 0;
  port_multiplier_port = 0;
  prdt_length = 0;
  prd_byte_count = 0;
  command_table_base = 0;
}

abbrev pub no_prdt : PrdtEntry
no_prdt = record { data_base = 0; byte_count = 0; interrupt = 0 }

-- what `cmalloc` clears, besides the words of the heap
abbrev pub with_zeros : Ahci → ℕ → ℕ → Ahci
with_zeros s p size = record s {
  bytes = zeroed s.bytes 0 p size;
  headers = zeroed s.headers no_header p size;
  prdts = zeroed s.prdts no_prdt p size;
}

-- the call of `cmalloc`
unfoldable pub new_zeroed : ℕ → ℕ → Proc Ahci ℕ
new_zeroed fuel size = do
  p ← on_heap (cmalloc fuel size)
  if p == 0 then pure 0 else do modify (λ s. with_zeros s p size); pure p
