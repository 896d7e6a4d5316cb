-- ===== src/Interrupts/Masks.antt =====
-- `irq_unmask` of kernel/core/interrupts.c: the bit of the line is cleared and no other.
use black_diamond_os.Prelude.{
  every, every-holds, ltb→lt, not_ltb→le, ℕ, zero, suc, ◌-◌, ◌^◌, ◌<◌, ◌≡◌, ◌≢◌, inl, inr, refl, ap,
  ◌∙◌, Bool, true, false, ltb, ◌==◌, eqb→eq, ne→not_eqb, Bool-cases, if◌then◌else◌, bit_and, u8,
  arith,
}
use Prim.Native.Nat.{min}
use black_diamond_os.Prelude.BitAt.{bit, bit-bit_and, bit-le}
use black_diamond_os.Machine.{done}
use black_diamond_os.Interrupts.{Interrupts, pic1_dat, pic2_dat, outb, cleared, irq_unmask}

-- A byte has the low bits of the number that it was cut from.
bit-u8 : (k n : ℕ) → k < 8 → bit k (u8 n) ≡ bit k n
bit-u8 zero n l = omega arith
bit-u8 (suc zero) n l = omega arith
bit-u8 (suc (suc zero)) n l = omega arith
bit-u8 (suc (suc (suc zero))) n l = omega arith
bit-u8 (suc (suc (suc (suc zero)))) n l = omega arith
bit-u8 (suc (suc (suc (suc (suc zero))))) n l = omega arith
bit-u8 (suc (suc (suc (suc (suc (suc zero)))))) n l = omega arith
bit-u8 (suc (suc (suc (suc (suc (suc (suc zero))))))) n l = omega arith
bit-u8 (suc (suc (suc (suc (suc (suc (suc (suc k)))))))) n l = absurd (omega (arith, l))

-- the bits of `~(1<<irq)`, checked one by one
abbrev other_bit : ℕ → ℕ → Bool
other_bit irq k = bit k (2 ^ 32 - 1 - 2 ^ irq) == (if k == irq then 0 else 1)

other_bits : every 8 (λ irq. every 8 (other_bit irq)) ≡ true
other_bits = refl

bit-cleared :
    (mask irq k : ℕ)
    → irq < 8
    → k < 8
    → bit k (cleared mask irq) ≡ (if k == irq then 0 else bit k mask)
unfolding cleared
bit-cleared mask irq k low l =
    let inverse = 2 ^ 32 - 1 - 2 ^ irq in
    let table : bit k inverse ≡ (if k == irq then 0 else 1) =
      eqb→eq (bit k inverse) (if k == irq then 0 else 1) (
        every-holds 8 (other_bit irq) k
          (every-holds 8 (λ r. every 8 (other_bit r)) irq other_bits low) l) in
    bit-u8 k (bit_and mask inverse) l
    ∙ bit-bit_and k mask inverse
    ∙ ap (λ (c : ℕ). min (bit k mask) c) table
    ∙ choose (k == irq)
  where
    choose : (t : Bool) → min (bit k mask) (if t then 0 else 1) ≡ (if t then 0 else bit k mask)
    choose true = omega arith
    choose false = omega (arith, bit-le k mask)

-- the data port of the controller that serves a line, and the line's number there
abbrev pub data_port : ℕ → ℕ
data_port irq = if ltb irq 8 then pic1_dat else pic2_dat

abbrev pub line_of : ℕ → ℕ
line_of irq = if ltb irq 8 then irq else irq - 8

-- `irq_unmask` of a line below 16 clears the line's bit in the mask of the controller that serves
-- it, and changes neither another bit of that mask nor what another port gives.
pub irq_unmask-bit :
    (irq : ℕ) (s : Interrupts)
    → irq < 16
    → (s' : Interrupts) × (irq_unmask irq s ≡ done tt s')
      × ((k : ℕ)
          → k < 8
          → bit k (s'.ports (data_port irq))
            ≡ (if k == line_of irq then 0 else bit k (s.ports (data_port irq))))
      × ((p : ℕ) → p ≢ data_port irq → s'.ports p ≡ s.ports p)
unfolding irq_unmask outb
irq_unmask-bit irq s small = elim (Bool-cases (ltb irq 8)) [
  | inl h ↦ rw h (
    _,
    refl,
    λ k l. bit-cleared (s.ports pic1_dat) irq k (ltb→lt irq 8 h) l,
    λ p n. rw (ne→not_eqb p pic1_dat n),
  )
  | inr h ↦ rw h (
    _,
    refl,
    λ k l. bit-cleared (s.ports pic2_dat) (irq - 8) k (omega (arith, small, not_ltb→le irq 8 h)) l,
    λ p n. rw (ne→not_eqb p pic2_dat n),
  )
]
