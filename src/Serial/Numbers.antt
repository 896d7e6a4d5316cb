-- ===== src/Serial/Numbers.antt =====
-- `debug_hex` and `debug_dec` of kernel/core/serial.c: what they transmit, and that their buffers
-- are large enough.
use black_diamond_os.Prelude.{
  ℕ, zero, suc, ◌+◌, ◌*◌, ◌^◌, ◌<◌, ◌≤◌, ◌≡◌, ◌⊎◌, inl, inr, refl, ap, ◌∙◌, subst, List, [], ◌∷◌,
  ◌++◌, length, some, arith,
}
use black_diamond_os.Machine.{done, Memory, ◌>>◌}
use black_diamond_os.Physical.Regions.{All}
use black_diamond_os.Utils.{itoa}
use black_diamond_os.Utils.Digits.{digit_of, IsDigit, IsDigit-ne}
use black_diamond_os.Utils.Itoa.{read_digits, itoa-Printed}
use black_diamond_os.Serial.{Serial, print_number, printed, debug, debug_hex, debug_dec}
use black_diamond_os.Serial.Send.{IsReady, transmit, bytes_at, sent, debug-sent}

-- the number that characters spell, behind digits that spell `number`
abbrev pub spelled : ℕ → List ℕ → ℕ → ℕ
spelled base [] number = number
spelled base (c ∷ cs) number = spelled base cs (number * base + digit_of c)

spelled-bytes_at :
    (base n p number : ℕ) (m : Memory ℕ)
    → spelled base (bytes_at m p n) number ≡ read_digits n base m p number
unfolding read_digits
spelled-bytes_at base zero p number m = refl
spelled-bytes_at base (suc n) p number m =
    spelled-bytes_at base n (p + 1) (number * base + digit_of (m p)) m

length-bytes_at : (m : Memory ℕ) (p n : ℕ) → length (bytes_at m p n) ≡ n
length-bytes_at m p zero = refl
length-bytes_at m p (suc n) = ap (λ (k : ℕ). suc k) (length-bytes_at m (p + 1) n)

All-bytes_at :
    (P : ℕ → Type 0) (m : Memory ℕ) (p n : ℕ)
    → ((k : ℕ) → k < n → P (m (p + k)))
    → All P (bytes_at m p n)
All-bytes_at P m p zero each = tt
All-bytes_at P m p (suc n) each = (
  subst (λ (a : ℕ). P (m a)) (omega arith) (each 0 (omega arith)),
  All-bytes_at P m (p + 1) n
      (λ k l. subst (λ (a : ℕ). P (m a)) (omega arith) (each (k + 1) (omega (arith, l)))),
)

-- The digits of `val` in the base went out and nothing else, and only the `room` bytes at `buf` and what is
-- behind the port changed.
pub record Transmits (base buf room val : ℕ) (s s' : Serial) (cs : List ℕ) : Type 0 where
  pub writes : s'.writes ≡ s.writes ++ transmit cs
  pub digits : All (IsDigit base) cs
  pub spells : spelled base cs 0 ≡ val
  pub some_digit : 0 < length cs
  pub fits : length cs < room
  pub kept : (q : ℕ) → (q < buf) ⊎ (buf + room ≤ q) → s'.bytes q ≡ s.bytes q

print_number-printed :
    (val buf base : ℕ) (s : Serial) (m : Memory ℕ)
    → itoa val buf base s.bytes ≡ some m
    → print_number val buf base s ≡ done tt (record s { bytes = m })
unfolding print_number
print_number-printed val buf base s m runs = ap (printed s) runs

print-Transmits :
    (wait buf base places val : ℕ) (s : Serial)
    → 2 ≤ base
    → base ≤ 16
    → 0 < places
    → val < 2 ^ 64
    → val < base ^ places
    → IsReady wait s
    → (s' : Serial) × (cs : List ℕ) × ((print_number val buf base >> debug wait (suc places) buf) s
        ≡ done tt s')
      × Transmits base buf (suc places) val s s' cs
print-Transmits wait buf base places val s low high some_place small fits ready =
    let (n, m, runs, some_digit, bound, v) = itoa-Printed val buf base s.bytes low high small in
    let s₁ = record s { bytes = m } in
    let short = bound places some_place fits in
    let (r, sends) =
      debug-sent wait (suc places) buf n s₁ ready (λ k l. IsDigit-ne base _ (v.characters k l))
        v.ends (omega (arith, short)) in
    let count = length-bytes_at m buf n in
    (
      sent s₁ (bytes_at m buf n) r,
      bytes_at m buf n,
      rw (print_number-printed val buf base s m runs) sends,
      record {
        writes = refl;
        digits = All-bytes_at (IsDigit base) m buf n v.characters;
        spells = spelled-bytes_at base n buf 0 m ∙ v.spells;
        some_digit = omega (arith, count, some_digit);
        fits = omega (arith, count, short);
        kept = λ q o. v.kept q (outside q n o short);
      },
    )
  where
    outside :
        (q n : ℕ) → (q < buf) ⊎ (buf + suc places ≤ q) → n ≤ places → (q < buf) ⊎ (buf + n + 1 ≤ q)
    outside q n (inl l) h = inl l
    outside q n (inr l) h = inr (omega (arith, l, h))

-- `debug_hex` of a 64-bit number, on a port whose transmitter is empty again and again, transmits
-- characters from `0` to `9` and `A` to `F` that spell the number in base 16, at least one, and changes no memory but the 17 bytes of
-- its buffer.
pub debug_hex-Transmits :
    (wait buf val : ℕ) (s : Serial)
    → val < 2 ^ 64
    → IsReady wait s
    → (s' : Serial) × (cs : List ℕ) × (debug_hex wait buf val s ≡ done tt s')
      × Transmits 16 buf 17 val s s' cs
unfolding debug_hex
debug_hex-Transmits wait buf val s small ready =
    print-Transmits wait buf 16 16 val s (omega arith) (omega arith) (omega arith) small
      (omega (arith, small)) ready

-- `debug_dec` of a 64-bit number, on such a port, transmits decimal digits that spell the number,
-- at least one, and changes no memory but the 21 bytes of its buffer.
pub debug_dec-Transmits :
    (wait buf val : ℕ) (s : Serial)
    → val < 2 ^ 64
    → IsReady wait s
    → (s' : Serial) × (cs : List ℕ) × (debug_dec wait buf val s ≡ done tt s')
      × Transmits 10 buf 21 val s s' cs
unfolding debug_dec
debug_dec-Transmits wait buf val s small ready =
    print-Transmits wait buf 10 20 val s (omega arith) (omega arith) (omega arith) small
      (omega (arith, small)) ready
