-- ===== src/Ahci/Port.antt =====
-- `__init_port` of kernel/disk/ahci.c.
use black_diamond_os.Prelude.{
  ℕ, zero, suc, ◌+◌, ◌-◌, ◌*◌, ◌^◌, Bool, not, bit_and, bit_or, [], ◌∷◌, ◌++◌, ◌==◌, if◌then◌else◌,
}
use black_diamond_os.Machine.{Proc, pure, spin, modify, ◌>>=◌, ◌>>◌}
use black_diamond_os.Utils.{align}
use black_diamond_os.Ahci.{
  Ahci, PortRegs, cmdheader_bytes, cmdtable_bytes, load_port, store_port, store_header, new_zeroed,
}

-- the answer of the hardware to a wait
unfoldable pub port_time : Proc Ahci (Unit {0})
port_time =
    modify (λ s. record s { port_regs = s.port_answers s.time s.port_regs; time = s.time + 1 })

-- `while (busy) {}` on the registers of a port; `wait` bounds the reads
unfoldable pub wait_port : ℕ → ℕ → (PortRegs → Bool) → Proc Ahci (Unit {0})
wait_port zero port_ptr busy = spin
wait_port (suc wait) port_ptr busy = do
  port ← load_port port_ptr
  if busy port then (do port_time; wait_port wait port_ptr busy) else pure tt

-- the bits of the command and status register
abbrev pub executes : PortRegs → Bool
executes port = not (bit_and port.command_status 0x8000 == 0)

abbrev pub recieves : PortRegs → Bool
recieves port = not (bit_and port.command_status 0x4000 == 0)

-- Execution of commands and the receipt of frames are disabled.
unfoldable pub stop_port : ℕ → ℕ → Proc Ahci (Unit {0})
stop_port wait port_ptr = do
  store_port port_ptr (λ r. record r { command_status = bit_and r.command_status (2 ^ 32 - 2) })
  wait_port wait port_ptr executes
  store_port port_ptr (λ r. record r { command_status = bit_and r.command_status (2 ^ 32 - 17) })
  wait_port wait port_ptr recieves

-- `cmalloc` and `align`
unfoldable pub new_aligned : ℕ → ℕ → ℕ → Proc Ahci ℕ
new_aligned fuel size alignment = do
  unaligned ← new_zeroed fuel size
  pure (align unaligned alignment)

-- the loop over the command headers, with `rounds` rounds left
unfoldable pub init_headers : ℕ → ℕ → ℕ → Proc Ahci (Unit {0})
init_headers zero fuel header_ptr = pure tt
init_headers (suc rounds) fuel header_ptr = do
  table ← new_aligned fuel (cmdtable_bytes + 127) 128
  store_header header_ptr (λ h. record h { command_table_base = table })
  store_header header_ptr (λ h. record h { prdt_length = 1 })
  store_header header_ptr (λ h. record h { clear_busy = 1 })
  init_headers rounds fuel (header_ptr + cmdheader_bytes)

-- the structures of the port and their registers
unfoldable pub setup_port : ℕ → ℕ → Proc Ahci (Unit {0})
setup_port fuel port_ptr = do
  recieved_fis ← new_aligned fuel (255 + 255) 256
  command_list ← new_aligned fuel (cmdheader_bytes * 32 + 1023) 1024
  init_headers 32 fuel command_list
  store_port port_ptr (λ r. record r { recieved_fis_base = recieved_fis })
  store_port port_ptr (λ r. record r { command_list_base = command_list })

-- `pwait`
unfoldable pub pwait : Proc Ahci (Unit {0})
pwait =
    modify (λ s. record s { io_writes = s.io_writes ++ (record { port = 0x80; value = 0 } ∷ []) })

-- The port is reset.
unfoldable pub reset_port : ℕ → Proc Ahci (Unit {0})
reset_port port_ptr = do
  port ← load_port port_ptr
  store_port port_ptr
      (λ r. record r { sata_control = bit_or (bit_and port.sata_control (2 ^ 32 - 16)) 1 })
  pwait

-- Execution of commands and the receipt of frames are enabled, and the port's interrupts.
unfoldable pub start_port : ℕ → ℕ → Proc Ahci (Unit {0})
start_port wait port_ptr = do
  store_port port_ptr (λ r. record r { command_status = bit_or r.command_status 16 })
  wait_port wait port_ptr (λ r. not (recieves r))
  store_port port_ptr (λ r. record r { command_status = bit_or r.command_status 1 })
  wait_port wait port_ptr (λ r. not (executes r))
  store_port port_ptr (λ r. record r { interrupt_enable = 0x7D800037 })

-- `__init_port`; `fuel` bounds the lists of the heap, and `wait` the reads of each wait
unfoldable pub init_port : ℕ → ℕ → ℕ → Proc Ahci (Unit {0})
init_port fuel wait port_ptr = do
  stop_port wait port_ptr
  setup_port fuel port_ptr
  reset_port port_ptr
  start_port wait port_ptr
