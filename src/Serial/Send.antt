-- ===== src/Serial/Send.antt =====
-- `debug` of kernel/core/serial.c: it transmits a string, byte by byte.
use mathlib.Core.List.{append-nil, append_assoc}
use black_diamond_os.Prelude.{
  ℕ, zero, suc, ◌+◌, ◌<◌, ◌≡◌, ◌≢◌, sym, ap, ◌∙◌, subst, List, [], ◌∷◌, ◌++◌, inl, inr, Bool-cases,
  bit_and, ◌==◌, eq→eqb, ne→not_eqb, arith,
}
use black_diamond_os.Machine.{done, PortWrite, Memory}
use black_diamond_os.Serial.{
  Serial, serial_port, outb, read_line_status, wait_empty, serial_put_char, debug,
}

-- From any read of the line status on, the transmitter is empty at one of the next `wait` reads.
abbrev pub IsReady : ℕ → Serial → Type 0
IsReady wait s = (t : ℕ) → (k : ℕ) × (k < wait) × (bit_and (s.line_status (t + k)) 0x20 ≢ 0)

wait_empty-done :
    (wait k : ℕ) (s : Serial)
    → k < wait
    → bit_and (s.line_status (s.reads + k)) 0x20 ≢ 0
    → (r : ℕ) × (wait_empty wait s ≡ done tt (record s { reads = r }))
unfolding wait_empty read_line_status
wait_empty-done zero k s l h = absurd (omega (arith, l))
wait_empty-done (suc wait) zero s l h =
    let now : bit_and (s.line_status s.reads) 0x20 ≢ 0 =
      subst (λ (a : ℕ). bit_and (s.line_status a) 0x20 ≢ 0) (omega arith) h in
    (s.reads + 1, rw (ne→not_eqb _ 0 now))
wait_empty-done (suc wait) (suc k) s l h =
    let s₁ = record s { reads = s.reads + 1 } in
    let later : bit_and (s.line_status (s.reads + 1 + k)) 0x20 ≢ 0 =
      subst (λ (a : ℕ). bit_and (s.line_status a) 0x20 ≢ 0) (omega arith) h in
    let (r, runs) = wait_empty-done wait k s₁ (omega (arith, l)) later in
    elim (Bool-cases (bit_and (s.line_status s.reads) 0x20 == 0)) [
      | inl busy ↦ (r, rw busy runs)
      | inr empty ↦ (s.reads + 1, rw empty)
    ]

-- the writes that transmit characters
abbrev pub transmit : List ℕ → List PortWrite
transmit [] = []
transmit (c ∷ cs) = record { port = serial_port; value = c } ∷ transmit cs

-- the `n` bytes from `p` on
abbrev pub bytes_at : Memory ℕ → ℕ → ℕ → List ℕ
bytes_at m p zero = []
bytes_at m p (suc n) = m p ∷ bytes_at m (p + 1) n

-- the state after characters were transmitted, with `r` reads of the line status
abbrev pub sent : Serial → List ℕ → ℕ → Serial
sent s cs r = record s { writes = s.writes ++ transmit cs; reads = r }

serial_put_char-sent :
    (wait c : ℕ) (s : Serial)
    → IsReady wait s
    → (r : ℕ) × (serial_put_char wait c s ≡ done tt (sent s (c ∷ []) r))
unfolding serial_put_char outb
serial_put_char-sent wait c s ready =
    let (k, l, empty) = ready s.reads in
    let (r, runs) = wait_empty-done wait k s l empty in (r, rw runs)

-- `debug` of a string that ends at its first zero byte, with fuel above its length, on a port whose
-- transmitter is empty again and again, transmits the string's bytes in order, and neither its
-- terminator nor anything else.
pub debug-sent :
    (wait fuel p n : ℕ) (s : Serial)
    → IsReady wait s
    → ((k : ℕ) → k < n → s.bytes (p + k) ≢ 0)
    → s.bytes (p + n) ≡ 0
    → n < fuel
    → (r : ℕ) × (debug wait fuel p s ≡ done tt (sent s (bytes_at s.bytes p n) r))
unfolding debug
debug-sent wait zero p n s ready inside ends h = absurd (omega (arith, h))
debug-sent wait (suc fuel) p zero s ready inside ends h =
    let now : s.bytes p ≡ 0 = subst (λ (a : ℕ). s.bytes a ≡ 0) (omega arith) ends in
    (
      s.reads,
      rw (eq→eqb (s.bytes p) 0 now) (
          ap (λ (w : List PortWrite). done tt (record s { writes = w }))
            (sym (append-nil s.writes))),
    )
debug-sent wait (suc fuel) p (suc n) s ready inside ends h =
    let c = s.bytes p in
    let more : c ≢ 0 = subst (λ (a : ℕ). s.bytes a ≢ 0) (omega arith) (inside 0 (omega arith)) in
    let (r₁, runs₁) = serial_put_char-sent wait c s ready in
    let (r, runs) =
      debug-sent wait fuel (p + 1) n (sent s (c ∷ []) r₁) ready
        (λ k l. subst (λ (a : ℕ). s.bytes a ≢ 0) (omega arith) (inside (k + 1) (omega (arith, l))))
        (subst (λ (a : ℕ). s.bytes a ≡ 0) (omega arith) ends) (omega (arith, h)) in
    (
      r,
      rw (ne→not_eqb c 0 more, runs₁)
          (runs
            ∙ ap (λ (w : List PortWrite). done tt (record s { writes = w; reads = r }))
                (append_assoc s.writes (transmit (c ∷ []))
                  (transmit (bytes_at s.bytes (p + 1) n)))),
    )
