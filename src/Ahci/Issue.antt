-- ===== src/Ahci/Issue.antt =====
-- `__send_cmd` of kernel/disk/ahci.c: what a command leaves in memory and in the port.
use black_diamond_os.Prelude.{
  ℕ, zero, suc, ◌+◌, ◌-◌, ◌*◌, ◌%◌, ◌^◌, ◌<◌, ◌≤◌, ◌≡◌, ◌≢◌, refl, sym, ap, ◌∙◌, ◌⊎◌, inl, inr,
  Bool, Bool-cases, ◌==◌, eqb→eq, not_eqb→ne, eq→eqb, ne→not_eqb, bit_or, if◌then◌else◌, arith,
}
use black_diamond_os.Prelude.BitAt.{bit}
use black_diamond_os.Machine.{Memory, update, copy_bytes}
use black_diamond_os.Ahci.{
  Ahci, PortRegs, PrdtEntry, descriptor_bytes, cmdheader_bytes, prdt_offset, prdt_bytes,
}

-- From the bytes `m` to `m'`: the `n` bytes at `src` were copied to `dest`, and no others changed.
pub record Copied (m m' : Memory ℕ) (dest src n : ℕ) : Type 0 where
  pub copied : (k : ℕ) → k < n → m' (dest + k) ≡ m (src + k)
  pub kept : (q : ℕ) → (q < dest) ⊎ (dest + n ≤ q) → m' q ≡ m q

-- An address outside the `n` addresses from `a` on.
abbrev pub Outside : ℕ → ℕ → ℕ → Type 0
Outside q a n = (q < a) ⊎ (a + n ≤ q)

-- Two ranges of `n` addresses do not meet.
abbrev pub Disjoint : ℕ → ℕ → ℕ → Type 0
Disjoint a b n = (a + n ≤ b) ⊎ (b + n ≤ a)

copy_bytes-from :
    (rounds j dest src n : ℕ) (m : Memory ℕ)
    → j + rounds ≡ n
    → Disjoint dest src n
    → ((k : ℕ) → j ≤ k → k < n → copy_bytes rounds j dest src m (dest + k) ≡ m (src + k))
      × ((q : ℕ) → (q < dest + j) ⊎ (dest + n ≤ q) → copy_bytes rounds j dest src m q ≡ m q)
unfolding copy_bytes
copy_bytes-from zero j dest src n m whole apart =
    (λ k l l'. absurd (omega (arith, whole, l, l')), λ q o. refl)
copy_bytes-from (suc rounds) j dest src n m whole apart =
    let m₁ = update m (dest + j) (m (src + j)) in
    let (copied, kept) =
      copy_bytes-from rounds (j + 1) dest src n m₁ (omega (arith, whole)) apart in
    (
      λ k l l'. elim (Bool-cases (k == j)) [
        | inl same ↦
            let e = eqb→eq k j same in
            kept (dest + k) (inl (omega (arith, e)))
            ∙ rw (eq→eqb (dest + k) (dest + j) (omega (arith, e)))
                (ap (λ (a : ℕ). m (src + a)) (sym e))
        | inr other ↦
            copied k (omega (arith, l, not_eqb→ne k j other)) l'
            ∙ rw (ne→not_eqb (src + k) (dest + j) (away k j apart l' whole))
      ],
      λ q o. kept q (wider q o) ∙ rw (ne→not_eqb q (dest + j) (outside q o)),
    )
  where
    away : (k j : ℕ) → Disjoint dest src n → k < n → j + suc rounds ≡ n → src + k ≢ dest + j
    away k j (inl o) l w e = omega (arith, o, l, w, e)
    away k j (inr o) l w e = omega (arith, o, l, w, e)

    wider : (q : ℕ) → (q < dest + j) ⊎ (dest + n ≤ q) → (q < dest + (j + 1)) ⊎ (dest + n ≤ q)
    wider q (inl o) = inl (omega (arith, o))
    wider q (inr o) = inr o

    outside : (q : ℕ) → (q < dest + j) ⊎ (dest + n ≤ q) → q ≢ dest + j
    outside q (inl o) e = omega (arith, o, e)
    outside q (inr o) e = omega (arith, o, e, whole)

pub copy_bytes-Copied :
    (dest src n : ℕ) (m : Memory ℕ)
    → Disjoint dest src n
    → Copied m (copy_bytes n 0 dest src m) dest src n
copy_bytes-Copied dest src n m apart =
    let (copied, kept) = copy_bytes-from n 0 dest src n m (omega arith) apart in
    record { copied = λ k l. copied k (omega arith) l; kept = λ q o. kept q (at_start q o) }
  where
    at_start : (q : ℕ) → (q < dest) ⊎ (dest + n ≤ q) → (q < dest + 0) ⊎ (dest + n ≤ q)
    at_start q (inl o) = inl (omega (arith, o))
    at_start q (inr o) = inr o

-- the bytes of a command
abbrev pub command_bytes : ℕ → ℕ → ℕ
command_bytes atapi dwords = if atapi == 0 then dwords * 4 else dwords * 4 + 16

-- the header of a slot of a port
abbrev pub slot_header : Ahci → ℕ → ℕ → ℕ
slot_header s port_ptr k = (s.port_regs port_ptr).command_list_base + cmdheader_bytes * k

-- the descriptor of a region
abbrev pub descriptor : ℕ → ℕ → PrdtEntry
descriptor buf count = record {
  data_base = buf;
  byte_count = (count + (2 ^ 32 - 1)) % 2 ^ 22;
  interrupt = 1;
}

-- the memory after a command was built in the header at `p`, whose table is at `table`
abbrev pub built : ℕ → ℕ → ℕ → ℕ → ℕ → ℕ → ℕ → ℕ → Ahci → Ahci
built p table write atapi dwords cmd buf count s = record s {
  headers = update s.headers p (record (s.headers p) {
    command_fis_length = dwords % 2 ^ 5;
    atapi = atapi % 2;
    write = write % 2;
  });
  bytes =
      descriptor_bytes (copy_bytes (command_bytes atapi dwords) 0 table cmd s.bytes)
        (table + prdt_offset) (descriptor buf count);
  prdts = update s.prdts (table + prdt_offset) (descriptor buf count);
}

-- the registers of a port with the slot `k` marked
abbrev pub marked : PortRegs → ℕ → PortRegs
marked r k = record r {
  sata_active = bit_or r.sata_active (2 ^ k);
  command_issue = bit_or r.command_issue (2 ^ k);
}

-- A command of `n` bytes at `cmd` can go into any slot of a port: there are a command list and a
-- table for each slot, which do not overlap the command.
pub record Ready (s : Ahci) (port_ptr cmd n : ℕ) : Type 0 where
  pub some_port : 0 < port_ptr
  pub some_list : 0 < (s.port_regs port_ptr).command_list_base
  pub some_command : 0 < cmd
  pub some_table : (k : ℕ) → k < 32 → 0 < (s.headers (slot_header s port_ptr k)).command_table_base
  pub apart :
      (k : ℕ) → k < 32 → Disjoint (s.headers (slot_header s port_ptr k)).command_table_base cmd n

-- The command was issued in slot `k`: the slot's bits are set and no others, its header and its
-- region descriptor describe the command and the buffer, and the command is in its table.
pub record Issued (s s' : Ahci) (port_ptr k write atapi dwords cmd buf count : ℕ) : Type 0 where
  pub active :
      (j : ℕ)
      → bit j (s'.port_regs port_ptr).sata_active
        ≡ (if j == k then 1 else bit j (s.port_regs port_ptr).sata_active)
  pub issues :
      (j : ℕ)
      → bit j (s'.port_regs port_ptr).command_issue
        ≡ (if j == k then 1 else bit j (s.port_regs port_ptr).command_issue)
  pub header :
      s'.headers (slot_header s port_ptr k) ≡ record (s.headers (slot_header s port_ptr k)) {
        command_fis_length = dwords % 2 ^ 5;
        atapi = atapi % 2;
        write = write % 2;
      }
  pub command :
      (i : ℕ)
      → i < command_bytes atapi dwords
      → s'.bytes ((s.headers (slot_header s port_ptr k)).command_table_base + i) ≡ s.bytes (cmd + i)
  pub other_bytes :
      (q : ℕ)
      → Outside q
          (s.headers (slot_header s port_ptr k)).command_table_base
          (command_bytes atapi dwords)
      → Outside q
          ((s.headers (slot_header s port_ptr k)).command_table_base + prdt_offset)
          prdt_bytes
      → s'.bytes q ≡ s.bytes q
  pub region :
      s'.prdts ((s.headers (slot_header s port_ptr k)).command_table_base + prdt_offset) ≡ record {
        data_base = buf;
        byte_count = if count == 0 then 2 ^ 22 - 1 else count - 1;
        interrupt = 1;
      }
  pub other_ports : (q : ℕ) → q ≢ port_ptr → s'.port_regs q ≡ s.port_regs q
  pub other_headers : (q : ℕ) → q ≢ slot_header s port_ptr k → s'.headers q ≡ s.headers q
