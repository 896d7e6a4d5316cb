-- ===== src/Ahci/Waiting.antt =====
-- The waits of `__init_port` of kernel/disk/ahci.c for the hardware.
use black_diamond_os.Prelude.{
  bit_and, ◌-◌, ◌^◌, ◌≤◌, refl, eq→eqb, ℕ, zero, suc, ◌+◌, ◌<◌, ◌≡◌, ap, ◌∙◌, inl, inr, Bool-cases,
  Bool, false, ne→not_eqb, arith,
}
use black_diamond_os.Prelude.BitAt.{bit, bit-bit_and}
use black_diamond_os.Prelude.BitTest.{bit-clear, clear-bit}
use black_diamond_os.Machine.{done, Memory, update}
use black_diamond_os.Ahci.{Ahci, PortRegs, load_port}
use black_diamond_os.Ahci.Access.{store_port-done}
use black_diamond_os.Ahci.Port.{port_time, wait_port, executes, recieves, stop_port}

-- the registers of the ports after `k` answers of the hardware
abbrev pub answered : ℕ → Ahci → Memory PortRegs
answered zero s = s.port_regs
answered (suc k) s =
    answered k (record s { port_regs = s.port_answers s.time s.port_regs; time = s.time + 1 })

abbrev pub after_answers : ℕ → Ahci → Ahci
after_answers k s = record s { port_regs = answered k s; time = s.time + k }

-- A wait, with more reads than answers until the port is not busy, ends at the first answer at which
-- it is not, and changes nothing that the hardware did not change.
wait_port-answered :
    (wait k p : ℕ) (busy : PortRegs → Bool) (s : Ahci)
    → 0 < p
    → k < wait
    → busy (answered k s p) ≡ false
    → (j : ℕ) × (wait_port wait p busy s ≡ done tt (after_answers j s))
      × (busy (answered j s p) ≡ false)
unfolding wait_port port_time load_port
wait_port-answered zero k p busy s pos l free = absurd (omega (arith, l))
wait_port-answered (suc wait) zero p busy s pos l free = (
  0,
  rw (ne→not_eqb p 0 (omega (arith, pos)))
      (rw free (ap (λ (t : ℕ). done tt (record s { time = t })) (omega arith))),
  free,
)
wait_port-answered (suc wait) (suc k) p busy s pos l free =
    elim (Bool-cases (busy (s.port_regs p))) [
      | inr now ↦ (
        0,
        rw (ne→not_eqb p 0 (omega (arith, pos)))
            (rw now (ap (λ (t : ℕ). done tt (record s { time = t })) (omega arith))),
        now,
      )
      | inl later ↦
          let s₁ = record s { port_regs = s.port_answers s.time s.port_regs; time = s.time + 1 } in
          let (j, runs, ends) = wait_port-answered wait k p busy s₁ pos (omega (arith, l)) free in
          (
            suc j,
            rw (ne→not_eqb p 0 (omega (arith, pos))) (
                rw later (
                  runs
                  ∙ ap (λ (t : ℕ). done tt (record s { port_regs = answered j s₁; time = t }))
                      (omega arith))),
            ends,
          )
    ]

-- What holds of the registers of a port and outlives each answer of the hardware still holds later.
answered-keeps :
    (P : PortRegs → Type 0) (k p : ℕ) (s : Ahci)
    → ((t : ℕ) (m : Memory PortRegs) → P (m p) → P (s.port_answers t m p))
    → P (s.port_regs p)
    → P (answered k s p)
answered-keeps P zero p s keeps now = now
answered-keeps P (suc k) p s keeps now =
    answered-keeps P k p
      (record s { port_regs = s.port_answers s.time s.port_regs; time = s.time + 1 }) keeps
      (keeps s.time s.port_regs now)

-- a bit of the command and status register
abbrev pub status_bit : ℕ → PortRegs → ℕ
status_bit k r = bit k r.command_status

-- The hardware behind the port at `p`, as the specification of AHCI has it: it leaves the bits 0 and
-- 4, by which the software starts the two engines, stays stopped while they are clear, and stops an
-- engine within `delay` answers after its bit was cleared. The bits 15 and 14 tell that they run.
pub record Obeys (delay p : ℕ) (s : Ahci) : Type 0 where
  pub start_kept :
      (t : ℕ) (m : Memory PortRegs)
      → status_bit 0 (m p) ≡ 0
      → status_bit 0 (s.port_answers t m p) ≡ 0
  pub recieve_kept :
      (t : ℕ) (m : Memory PortRegs)
      → status_bit 4 (m p) ≡ 0
      → status_bit 4 (s.port_answers t m p) ≡ 0
  pub stays_stopped :
      (t : ℕ) (m : Memory PortRegs)
      → status_bit 0 (m p) ≡ 0
      → status_bit 15 (m p) ≡ 0
      → status_bit 15 (s.port_answers t m p) ≡ 0
  pub stops :
      (t : ℕ) (m : Memory PortRegs)
      → status_bit 0 (m p) ≡ 0
      → (k : ℕ) × (k < delay)
        × (status_bit 15 (answered k (record s { port_regs = m; time = t }) p) ≡ 0)
  pub stops_recieving :
      (t : ℕ) (m : Memory PortRegs)
      → status_bit 4 (m p) ≡ 0
      → (k : ℕ) × (k < delay)
        × (status_bit 14 (answered k (record s { port_regs = m; time = t }) p) ≡ 0)

-- a port with both engines stopped and not to start
abbrev pub Stopped : PortRegs → Type 0
Stopped r =
    (status_bit 0 r ≡ 0) × (status_bit 15 r ≡ 0) × (status_bit 4 r ≡ 0) × (status_bit 14 r ≡ 0)

-- the register after the two writes of `stop_port`
abbrev pub masked : ℕ → PortRegs → PortRegs
masked mask r = record r { command_status = bit_and r.command_status mask }

pub masked-bit : (k mask : ℕ) (r : PortRegs) → bit k mask ≡ 0 → status_bit k (masked mask r) ≡ 0
masked-bit k mask r e = omega (arith, bit-bit_and k r.command_status mask, e)

pub masked-kept :
    (k mask : ℕ) (r : PortRegs) → status_bit k r ≡ 0 → status_bit k (masked mask r) ≡ 0
masked-kept k mask r e = omega (arith, bit-bit_and k r.command_status mask, e)

-- a write to the register of the port
abbrev masked_at : ℕ → ℕ → Ahci → Ahci
masked_at p mask s = record s { port_regs = update s.port_regs p (masked mask (s.port_regs p)) }

masked_at-here :
    (p mask : ℕ) (s : Ahci) → (masked_at p mask s).port_regs p ≡ masked mask (s.port_regs p)
masked_at-here p mask s = rw (eq→eqb p p refl)

-- the first engine
stop_start :
    (wait delay p : ℕ) (s : Ahci)
    → 0 < p
    → delay ≤ wait
    → Obeys delay p s
    → (j : ℕ) × (wait_port wait p executes (masked_at p (2 ^ 32 - 2) s)
        ≡ done tt (after_answers j (masked_at p (2 ^ 32 - 2) s)))
      × (status_bit 0 (answered j (masked_at p (2 ^ 32 - 2) s) p) ≡ 0)
      × (status_bit 15 (answered j (masked_at p (2 ^ 32 - 2) s) p) ≡ 0)
stop_start wait delay p s pos enough obeys =
    let s₁ = masked_at p (2 ^ 32 - 2) s in
    let start : status_bit 0 (s₁.port_regs p) ≡ 0 =
      ap (status_bit 0) (masked_at-here p (2 ^ 32 - 2) s)
      ∙ masked-bit 0 (2 ^ 32 - 2) (s.port_regs p) refl in
    let (k, l, free) = obeys.stops s.time s₁.port_regs start in
    let (j, runs, ends) =
      wait_port-answered wait k p executes s₁ pos (omega (arith, l, enough))
        (clear-bit 15 _ free) in
    (
      j,
      runs,
      answered-keeps (λ r. status_bit 0 r ≡ 0) j p s₁ obeys.start_kept start,
      bit-clear 15 _ ends,
    )

-- `stop_port`, the part of `__init_port` that disables a port, on hardware that obeys the
-- specification of AHCI within `delay` answers, with as many reads for each wait, and a port that is
-- not at null, ends, and leaves the port with both engines stopped and not to start. Only the
-- registers of ports and the time change.
pub stop_port-Stopped :
    (wait delay p : ℕ) (s : Ahci)
    → 0 < p
    → delay ≤ wait
    → Obeys delay p s
    → (m : Memory PortRegs) × (t : ℕ) × (stop_port wait p s
        ≡ done tt (record s { port_regs = m; time = t }))
      × Stopped (m p)
unfolding stop_port
stop_port-Stopped wait delay p s pos enough obeys =
    let s₁ = masked_at p (2 ^ 32 - 2) s in
    let (j, runs, start, stopped) = stop_start wait delay p s pos enough obeys in
    let s₂ = after_answers j s₁ in
    let s₃ = masked_at p (2 ^ 32 - 17) s₂ in
    let here = masked_at-here p (2 ^ 32 - 17) s₂ in
    let start' : status_bit 0 (s₃.port_regs p) ≡ 0 =
      ap (status_bit 0) here ∙ masked-kept 0 (2 ^ 32 - 17) (s₂.port_regs p) start in
    let stopped' : status_bit 15 (s₃.port_regs p) ≡ 0 =
      ap (status_bit 15) here ∙ masked-kept 15 (2 ^ 32 - 17) (s₂.port_regs p) stopped in
    let recieve : status_bit 4 (s₃.port_regs p) ≡ 0 =
      ap (status_bit 4) here ∙ masked-bit 4 (2 ^ 32 - 17) (s₂.port_regs p) refl in
    let (k, l, free) = obeys.stops_recieving s₂.time s₃.port_regs recieve in
    let (i, runs', ends) =
      wait_port-answered wait k p recieves s₃ pos (omega (arith, l, enough))
        (clear-bit 14 _ free) in
    let (start_last, stopped_last) =
      answered-keeps (λ r. (status_bit 0 r ≡ 0) × (status_bit 15 r ≡ 0)) i p s₃
        (λ t m h. (obeys.start_kept t m h.0, obeys.stays_stopped t m h.0 h.1)) (start', stopped') in
    (
      answered i s₃,
      s₃.time + i,
      rw (store_port-done p (masked (2 ^ 32 - 2)) s pos)
          (rw runs (rw (store_port-done p (masked (2 ^ 32 - 17)) s₂ pos) runs')),
      (
        start_last,
        stopped_last,
        answered-keeps (λ r. status_bit 4 r ≡ 0) i p s₃ obeys.recieve_kept recieve,
        bit-clear 14 _ ends,
      ),
    )
