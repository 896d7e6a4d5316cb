-- ===== src/Ahci/Command.antt =====
-- `__send_cmd` of kernel/disk/ahci.c.
use black_diamond_os.Prelude.{
  ℕ, zero, suc, ◌+◌, ◌-◌, ◌*◌, ◌%◌, ◌^◌, Bool, ◌&&◌, ◌||◌, not, bit_and, bit_or, ltb, ◌==◌,
  if◌then◌else◌,
}
use black_diamond_os.Machine.{Proc, pure, ◌>>=◌, ◌>>◌}
use black_diamond_os.Ahci.{
  Ahci, PortRegs, cmdheader_bytes, prdt_offset, load_port, store_port, load_header, store_header,
  store_prdt, memcpy,
}

-- `byte_count && (byte_count % 2 || byte_count > 4194304)`
abbrev pub is_bad_count : ℕ → Bool
is_bad_count byte_count =
    not (byte_count == 0) && (not (byte_count % 2 == 0) || ltb 4194304 byte_count)

-- Is a command slot of a port empty?
abbrev pub is_free : PortRegs → ℕ → Bool
is_free port i = bit_and port.sata_active (2 ^ i) == 0 && bit_and port.command_issue (2 ^ i) == 0

-- the search for an empty slot, with `rounds` rounds left; 32 if there is none
unfoldable pub find_slot : ℕ → ℕ → PortRegs → ℕ
find_slot zero i port = 32
find_slot (suc rounds) i port =
    let rest = find_slot rounds (i + 1) port in if is_free port i then i else rest

-- the command header and the command table of a slot, and the region descriptor in the table
unfoldable pub build_command : ℕ → ℕ → ℕ → ℕ → ℕ → ℕ → ℕ → Proc Ahci (Unit {0})
build_command header_ptr write atapi fis_dword_count cmd data_ptr byte_count = do
  store_header header_ptr (λ h. record h {
    command_fis_length = fis_dword_count % 2 ^ 5;
    atapi = atapi % 2;
    write = write % 2;
  })
  header ← load_header header_ptr
  memcpy header.command_table_base cmd
      (if atapi == 0 then fis_dword_count * 4 else fis_dword_count * 4 + 16)
  store_prdt (header.command_table_base + prdt_offset) (record {
    data_base = data_ptr;
    byte_count = (byte_count + (2 ^ 32 - 1)) % 2 ^ 22;
    interrupt = 1;
  })

-- the end of `__send_cmd`: the slot is marked in both registers
unfoldable pub issue : ℕ → ℕ → Proc Ahci (Unit {0})
issue port_ptr slot = do
  store_port port_ptr (λ r. record r { sata_active = bit_or r.sata_active (2 ^ slot) })
  store_port port_ptr (λ r. record r { command_issue = bit_or r.command_issue (2 ^ slot) })

-- `__send_cmd`
unfoldable pub send_cmd : ℕ → ℕ → ℕ → ℕ → ℕ → ℕ → ℕ → Proc Ahci ℕ
send_cmd port_ptr write atapi fis_dword_count cmd data_ptr byte_count =
    if is_bad_count byte_count then pure 0 else (do
      port ← load_port port_ptr
      if find_slot 32 0 port == 32 then pure 0 else (do
        build_command (port.command_list_base + cmdheader_bytes * find_slot 32 0 port) write atapi
            fis_dword_count cmd data_ptr byte_count
        issue port_ptr (find_slot 32 0 port)
        pure 1))
