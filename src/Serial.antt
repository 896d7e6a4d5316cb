-- ===== src/Serial.antt =====
-- The serial port for debug output, kernel/core/serial.c.
pub mod Send
pub mod Numbers
mod Tests
use black_diamond_os.Prelude.{
  ℕ, zero, suc, ◌+◌, List, [], ◌∷◌, ◌++◌, Option, none, some, bit_and, ◌==◌, if◌then◌else◌,
}
use black_diamond_os.Machine.{
  Outcome, done, stuck, PortWrite, Proc, Memory, pure, spin, get, modify, ◌>>=◌, ◌>>◌,
}
use black_diamond_os.Utils.{itoa}

-- The bytes of memory, the writes to ports so far, what each read of the line status gives, and the
-- number of those reads so far.
pub record Serial : Type 0 where
  pub bytes : Memory ℕ
  pub writes : List PortWrite
  pub line_status : ℕ → ℕ
  pub reads : ℕ

-- `SERIAL_PORT`
abbrev pub serial_port : ℕ
serial_port = 0x3F8

unfoldable pub outb : ℕ → ℕ → Proc Serial (Unit {0})
outb port value =
    modify (λ s. record s { writes = s.writes ++ (record { port = port; value = value } ∷ []) })

-- `inb(SERIAL_PORT + 5)`
unfoldable pub read_line_status : Proc Serial ℕ
read_line_status = do
  s ← get
  modify (λ t. record t { reads = s.reads + 1 })
  pure (s.line_status s.reads)

unfoldable pub serial_init : Proc Serial (Unit {0})
serial_init = do
  outb (serial_port + 1) 0
  outb (serial_port + 3) 0x80
  outb serial_port 1
  outb (serial_port + 1) 0
  outb (serial_port + 3) 0x03
  outb (serial_port + 2) 0xC7
  outb (serial_port + 4) 0x03

-- `while (!(inb(SERIAL_PORT + 5) & 0x20)) {}`, where `wait` bounds the reads
unfoldable pub wait_empty : ℕ → Proc Serial (Unit {0})
wait_empty zero = spin
wait_empty (suc wait) = do
  status ← read_line_status
  if bit_and status 0x20 == 0 then wait_empty wait else pure tt

unfoldable pub serial_put_char : ℕ → ℕ → Proc Serial (Unit {0})
serial_put_char wait c = do wait_empty wait; outb serial_port c

-- `debug`; `fuel` bounds the length of the string.
unfoldable pub debug : ℕ → ℕ → ℕ → Proc Serial (Unit {0})
debug wait zero str = spin
debug wait (suc fuel) str = do
  s ← get
  if s.bytes str == 0
      then pure tt
      else do serial_put_char wait (s.bytes str); debug wait fuel (str + 1)

-- the memory after a call of `itoa`
abbrev pub printed : Serial → Option (Memory ℕ) → Outcome Serial (Unit {0})
printed s none = stuck
printed s (some m) = done tt (record s { bytes = m })

-- the call of `itoa` on the buffer at `buf`
unfoldable pub print_number : ℕ → ℕ → ℕ → Proc Serial (Unit {0})
print_number val buf base = λ s. printed s (itoa val buf base s.bytes)

-- `debug_hex`, where `buf` is the place of its 17 bytes on the stack
unfoldable pub debug_hex : ℕ → ℕ → ℕ → Proc Serial (Unit {0})
debug_hex wait buf val = do print_number val buf 16; debug wait 17 buf

-- `debug_dec`, where `buf` is the place of its 21 bytes on the stack
unfoldable pub debug_dec : ℕ → ℕ → ℕ → Proc Serial (Unit {0})
debug_dec wait buf val = do print_number val buf 10; debug wait 21 buf
