-- ===== src/Ahci/Access.antt =====
-- Writes to the registers of a port that is not at null, kernel/disk/ahci.c.
use black_diamond_os.Prelude.{ℕ, ◌<◌, ◌≡◌, ne→not_eqb, arith}
use black_diamond_os.Machine.{done, update}
use black_diamond_os.Ahci.{Ahci, PortRegs, store_port}

pub store_port-done :
    (p : ℕ) (f : PortRegs → PortRegs) (s : Ahci)
    → 0 < p
    → store_port p f s ≡ done tt (record s { port_regs = update s.port_regs p (f (s.port_regs p)) })
unfolding store_port
store_port-done p f s some_port = rw (ne→not_eqb p 0 (omega (arith, some_port)))
