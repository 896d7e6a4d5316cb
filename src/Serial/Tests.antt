-- ===== src/Serial/Tests.antt =====
-- Examples of kernel/core/serial.c: a port whose transmitter is empty at every second read.
use black_diamond_os.Prelude.{
  ℕ, ◌+◌, ◌≡◌, ◌≢◌, List, [], bit_and, Bool-cases, subst, inl, inr, eqb→eq, not_eqb→ne, ne→not_eqb,
  ◌%◌, ◌==◌, if◌then◌else◌, arith,
}
use black_diamond_os.Machine.{done}
use black_diamond_os.Serial.{Serial, debug_hex}
use black_diamond_os.Serial.Send.{IsReady}
use black_diamond_os.Serial.Numbers.{Transmits, debug_hex-Transmits}

abbrev serial : Serial
serial = record {
  bytes = λ q. q;
  writes = [];
  line_status = λ t. if t % 2 == 0 then 0 else 0x60;
  reads = 0;
}

serial-IsReady : IsReady 2 serial
serial-IsReady t = elim (Bool-cases (t % 2 == 0)) [
  | inl even ↦ (1, omega arith, empty (t + 1) (not_even t (eqb→eq (t % 2) 0 even)))
  | inr odd ↦ (
    0,
    omega arith,
    subst (λ (a : ℕ). bit_and (serial.line_status a) 0x20 ≢ 0) (omega arith)
        (empty t (not_eqb→ne (t % 2) 0 odd)),
  )
]
  where
    not_even : (t : ℕ) → t % 2 ≡ 0 → (t + 1) % 2 ≢ 0
    not_even t h e = omega (arith, h, e)

    empty : (a : ℕ) → a % 2 ≢ 0 → bit_and (serial.line_status a) 0x20 ≢ 0
    empty a h e = ground (arith, ne→not_eqb (a % 2) 0 h)

debug_hex-Transmits_example :
    (s' : Serial) × (cs : List ℕ) × (debug_hex 2 5000 0xBEEF serial ≡ done tt s')
    × Transmits 16 5000 17 0xBEEF serial s' cs
debug_hex-Transmits_example = debug_hex-Transmits 2 5000 0xBEEF serial (omega arith) serial-IsReady
