-- ===== src/Ahci/Tests.antt =====
-- Examples of kernel/disk/ahci.c: a controller at 100000 whose first port has its first two slots
-- in use.
use black_diamond_os.Prelude.{ℕ, ◌+◌, ◌<◌, ◌≤◌, ◌≡◌, ◌%◌, ◌-◌, ◌^◌, refl, inl, [], ◌∷◌, arith}
use black_diamond_os.Machine.{done, Memory}
use black_diamond_os.Heap.Fixture.{empty, after_malloc, after_cmalloc, takes}
use black_diamond_os.Ahci.{Ahci, PortRegs, no_header, no_prdt}
use black_diamond_os.Ahci.Port.{new_aligned, stop_port}
use black_diamond_os.Ahci.Driver.{register_controller}
use black_diamond_os.Ahci.Alignment.{new_aligned-HasRoom}
use black_diamond_os.Ahci.Waiting.{
  masked, masked-bit, masked-kept, Obeys, Stopped, stop_port-Stopped,
}
use black_diamond_os.Ahci.Controllers.{Registered, register_controller-Registered}

abbrev port : PortRegs
port = record {
  command_list_base = 8192;
  recieved_fis_base = 0;
  interrupt_status = 0;
  interrupt_enable = 0;
  command_status = 0x8001;
  task_file_data = 0;
  signature = 0x101;
  sata_status = 0x103;
  sata_control = 0;
  sata_error = 0;
  sata_active = 1;
  command_issue = 2;
  sata_notification = 0;
  fis_switching_control = 0;
  device_sleep = 0;
}

-- Each command table is at 65536.
abbrev ahci : Ahci
ahci = record {
  pci = record {
    config_address = 0;
    config_writes = [];
    config = λ writes a. a;
    upper_halves = λ n. 0x8000;
    outputs = 0;
    heap = empty;
    devices = λ _. record { bus = 0; slot = 0; function = 0; next = 0 };
    first_enumerated_device = 0;
    last_enumerated_device = 0;
  };
  disks = λ _. record { id = 0; type = 0; size = 0; driver_data = 0; next = 0 };
  first_disk = 0;
  bytes = λ q. q;
  headers = λ _. record no_header { command_table_base = 65536 };
  prdts = λ _. no_prdt;
  ahci_data = λ _. record { controller = 0; port = 0 };
  controllers = λ _. record { abar = 0; ports = 0; next = 0 };
  hosts = λ _. record {
    capabilities = 0;
    global_control = 0;
    interrupt_status = 0;
    ports_implemented = 1;
    version = 0;
    command_completion_coalescing_control = 0;
    command_completion_coalescing_ports = 0;
    enclosure_management_location = 0;
    enclosure_management_control = 0;
    extended_capabilities = 0;
    bios_os_handoff = 0;
  };
  port_regs = λ _. port;
  io_writes = [];
  first_ahci_controller = 64;
  host_answers = λ t hosts. hosts;
  port_answers = λ t ports. ports;
  time = 0;
}

-- The same machine, whose hardware stops both engines of a port at each answer.
abbrev obedient : Ahci
obedient = record ahci { port_answers = λ t ports q. masked (2 ^ 32 - 1 - 0xC000) (ports q) }

obedient-Obeys : Obeys 2 100256 obedient
obedient-Obeys = record {
  start_kept = λ t m. masked-kept 0 (2 ^ 32 - 1 - 0xC000) (m 100256);
  recieve_kept = λ t m. masked-kept 4 (2 ^ 32 - 1 - 0xC000) (m 100256);
  stays_stopped = λ t m _. masked-kept 15 (2 ^ 32 - 1 - 0xC000) (m 100256);
  stops = λ t m _. (1, omega arith, masked-bit 15 (2 ^ 32 - 1 - 0xC000) (m 100256) refl);
  stops_recieving = λ t m _. (1, omega arith, masked-bit 14 (2 ^ 32 - 1 - 0xC000) (m 100256) refl);
}

stop_port-Stopped_example :
    (m : Memory PortRegs) × (t : ℕ) × (stop_port 5 100256 obedient
      ≡ done tt (record obedient { port_regs = m; time = t }))
    × Stopped (m 100256)
stop_port-Stopped_example =
    stop_port-Stopped 5 2 100256 obedient (omega arith) (omega arith) obedient-Obeys

new_aligned-HasRoom_example :
    (q : ℕ) × (s' : Ahci) × (new_aligned 9 271 128 ahci ≡ done q s')
    × (q % 128 ≡ 0)
    × (1112 ≤ q)
    × (q + 144 ≤ 1112 + 271)
    × ((a : ℕ) → q ≤ a → a < q + 144 → s'.bytes a ≡ 0)
new_aligned-HasRoom_example =
    new_aligned-HasRoom 9 271 128 144 1112 ahci (after_cmalloc 271) takes.3 (omega arith)
      (omega arith) (omega arith) (inl (omega arith))

register_controller-Registered_example :
    (s' : Ahci) × (register_controller 9 100000 ahci ≡ done 1112 s')
    × Registered s' (64 ∷ 1112 ∷ [])
    × ((s'.controllers 1112).abar ≡ 100000)
register_controller-Registered_example =
    register_controller-Registered 9 1112 100000 ahci (after_malloc 24) (64 ∷ []) takes.1
      (omega arith) ((refl, omega arith, refl), (tt, tt)) ((omega arith), tt) (omega arith)
