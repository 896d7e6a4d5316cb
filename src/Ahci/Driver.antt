-- ===== src/Ahci/Driver.antt =====
-- The controllers, their ports and disks, and the entry points of kernel/disk/ahci.c, with the
-- functions of kernel/disk/disk.c that call them.
use black_diamond_os.Prelude.{
  ℕ, zero, suc, ◌+◌, ◌-◌, ◌*◌, ◌/◌, ◌^◌, Bool, ◌&&◌, not, bit_and, bit_or, ◌==◌, if◌then◌else◌,
}
use black_diamond_os.Machine.{Proc, pure, spin, kpanic, get, modify, ◌>>=◌, ◌>>◌}
use black_diamond_os.Heap.Malloc.{malloc}
use black_diamond_os.Heap.Free.{free}
use black_diamond_os.Pci.{
  Device, pci_get_command, pci_set_command, pci_get_bar_address, pci_get_class, pci_get_subclass,
  pci_get_first_device,
}
use black_diamond_os.Disk.{Disk, make_disk, store_disk, load_disk, get_disk}
use black_diamond_os.Ahci.{
  Ahci, HostCtrl, ports_offset, port_regs_bytes, ahci_data_bytes, controller_bytes, fis_bytes,
  load_port, load_host, store_host, store_data, load_controller, store_controller, store_byte,
  on_pci, on_disks, on_heap, new_zeroed,
}
use black_diamond_os.Ahci.Command.{send_cmd}
use black_diamond_os.Ahci.Port.{init_port}

-- the IDENTIFY command for a new disk, and the endless wait for its interrupt
unfoldable pub identify : ℕ → ℕ → Proc Ahci (Unit {0})
identify fuel port_ptr = do
  cfis ← new_zeroed fuel fis_bytes
  buf ← new_zeroed fuel 512
  store_byte cfis 0x27
  s ← get
  store_byte (cfis + 1) (bit_or (s.bytes (cfis + 1)) 0x80)
  store_byte (cfis + 2) 0xEC
  _ ← send_cmd port_ptr 0 0 5 cfis buf 512
  on_heap (free fuel cfis)
  spin

-- `__register_ahci_disk`
unfoldable pub register_ahci_disk : ℕ → ℕ → ℕ → ℕ → Proc Ahci (Unit {0})
register_ahci_disk fuel controller port_no port_ptr = do
  port ← load_port port_ptr
  if port.signature == 0xEB140101
      then pure tt
      else (if not (port.signature == 0x101)
          then kpanic "Unrecognised AHCI disk type connected"
          else do
            disk ← on_disks (make_disk fuel)
            disk_data ← on_heap (malloc fuel ahci_data_bytes)
            store_data disk_data (record { controller = controller; port = port_no })
            on_disks (store_disk disk (λ d. record d { driver_data = disk_data; type = 0 }))
            identify fuel port_ptr)

-- Is a device there, with communication established and its interface powered?
abbrev pub is_present : ℕ → Bool
is_present status = bit_and status 0xF == 3 && bit_and (status / 2 ^ 8) 0xF == 1

-- the loop of `__setup_ports`, with `rounds` rounds left
unfoldable pub setup_ports : ℕ → ℕ → ℕ → ℕ → ℕ → ℕ → ℕ → Proc Ahci (Unit {0})
setup_ports zero i fuel wait ports hba controller = pure tt
setup_ports (suc rounds) i fuel wait ports hba controller = do
  if bit_and ports (2 ^ i) == 0 then pure tt else (do
    init_port fuel wait (hba + ports_offset + port_regs_bytes * i)
    port ← load_port (hba + ports_offset + port_regs_bytes * i)
    if is_present port.sata_status
        then register_ahci_disk fuel controller i (hba + ports_offset + port_regs_bytes * i)
        else pure tt)
  setup_ports rounds (i + 1) fuel wait ports hba controller

-- the answer of the hardware to a wait
unfoldable pub host_time : Proc Ahci (Unit {0})
host_time = modify (λ s. record s { hosts = s.host_answers s.time s.hosts; time = s.time + 1 })

-- `while (busy) {}` on the registers of a controller; `wait` bounds the reads
unfoldable pub wait_host : ℕ → ℕ → (HostCtrl → Bool) → Proc Ahci (Unit {0})
wait_host zero hba busy = spin
wait_host (suc wait) hba busy = do
  host ← load_host hba
  if busy host then (do host_time; wait_host wait hba busy) else pure tt

-- The controller is claimed from the BIOS, where that is supported.
unfoldable pub claim_host : ℕ → ℕ → Proc Ahci (Unit {0})
claim_host wait hba = do
  host ← load_host hba
  if bit_and host.extended_capabilities 1 == 0 then pure tt else (do
    store_host hba (λ h. record h { bios_os_handoff = bit_or h.bios_os_handoff 2 })
    wait_host wait hba (λ h. not (bit_and h.bios_os_handoff 1 == 0))
    wait_host wait hba (λ h. not (bit_and h.bios_os_handoff 16 == 0)))

-- `__init_controller`
unfoldable pub init_controller : ℕ → Device → ℕ → Proc Ahci ℕ
init_controller wait device hba = do
  pci_cmd ← on_pci (pci_get_command device)
  on_pci (pci_set_command device (bit_or (bit_and pci_cmd (2 ^ 16 - 1 - 2 ^ 10)) 6))
  claim_host wait hba
  store_host hba (λ h. record h { global_control = bit_or h.global_control 1 })
  wait_host wait hba (λ h. not (bit_and h.global_control 1 == 0))
  host ← load_host hba
  if bit_and host.capabilities 0x40000 == 0
      then store_host hba (λ h. record h { global_control = bit_or h.global_control 0x80000000 })
      else pure tt
  store_host hba (λ h. record h { global_control = bit_or h.global_control 2 })
  ready ← load_host hba
  if bit_and ready.capabilities 0x80000000 == 0 then pure 0 else pure 1

-- `while (prev_controller->next) {prev_controller = prev_controller->next;}`
unfoldable pub last_controller : ℕ → ℕ → Proc Ahci ℕ
last_controller zero prev_controller = spin
last_controller (suc fuel) prev_controller = do
  c ← load_controller prev_controller
  if c.next == 0 then pure prev_controller else last_controller fuel c.next

-- how `__make_ahci_controller` registers the controller
unfoldable pub register_controller : ℕ → ℕ → Proc Ahci ℕ
register_controller fuel abar = do
  controller ← on_heap (malloc fuel controller_bytes)
  store_controller controller (λ c. record c { abar = abar; next = 0 })
  s ← get
  if s.first_ahci_controller == 0
      then modify (λ t. record t { first_ahci_controller = controller })
      else (do
        prev_controller ← last_controller fuel s.first_ahci_controller
        store_controller prev_controller (λ c. record c { next = controller }))
  pure controller

-- `__make_ahci_controller`
unfoldable pub make_ahci_controller : ℕ → ℕ → Device → Proc Ahci (Unit {0})
make_ahci_controller fuel wait device = do
  abar ← on_pci (pci_get_bar_address device 5)
  ok ← init_controller wait device abar
  if ok == 0 then pure tt else (do
    controller ← register_controller fuel abar
    host ← load_host abar
    store_controller controller (λ c. record c { ports = host.ports_implemented })
    setup_ports 32 0 fuel wait host.ports_implemented abar controller)

-- the loop of `_ahci_init`; `devices` bounds the list of devices
unfoldable pub init_devices : ℕ → ℕ → ℕ → ℕ → Proc Ahci (Unit {0})
init_devices zero fuel wait device = spin
init_devices (suc devices) fuel wait device = if device == 0 then pure tt else (do
  s ← get
  class ← on_pci (pci_get_class (s.pci.devices device))
  subclass ← on_pci (pci_get_subclass (s.pci.devices device))
  if class == 1 && subclass == 6
      then make_ahci_controller fuel wait (s.pci.devices device)
      else pure tt
  t ← get
  init_devices devices fuel wait (t.pci.devices device).next)

-- `_ahci_init`
unfoldable pub ahci_init : ℕ → ℕ → ℕ → Proc Ahci (Unit {0})
ahci_init devices fuel wait = do
  device ← on_pci pci_get_first_device
  init_devices devices fuel wait device

abbrev pub init_disk : ℕ → ℕ → ℕ → Proc Ahci (Unit {0})
init_disk = ahci_init

-- `_ahci_read` and `_ahci_write`, which do nothing yet
abbrev pub ahci_read : Disk → ℕ → ℕ → ℕ → Proc Ahci (Unit {0})
ahci_read disk lba count buf = pure tt

abbrev pub ahci_write : Disk → ℕ → ℕ → ℕ → Proc Ahci (Unit {0})
ahci_write disk lba count buf = pure tt

unfoldable pub disk_read : ℕ → ℕ → ℕ → ℕ → ℕ → Proc Ahci (Unit {0})
disk_read fuel disk lba count buf = do
  p ← on_disks (get_disk fuel disk)
  disk_desc ← on_disks (load_disk p)
  if disk_desc.type == 0 then ahci_read disk_desc lba count buf else pure tt

unfoldable pub disk_write : ℕ → ℕ → ℕ → ℕ → ℕ → Proc Ahci (Unit {0})
disk_write fuel disk lba count buf = do
  p ← on_disks (get_disk fuel disk)
  disk_desc ← on_disks (load_disk p)
  if disk_desc.type == 0 then ahci_write disk_desc lba count buf else pure tt
