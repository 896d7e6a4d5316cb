-- ===== src/Utils/Align.antt =====
-- `align` of kernel/core/utils.c.
use native.Mathlib.Nat.{mod-lt, div-add-mod', mul-mod_left, mul-le-mul_right}
use black_diamond_os.Prelude.{
  ℕ, ◌+◌, ◌-◌, ◌*◌, ◌/◌, ◌^◌, ◌%◌, ◌<◌, ◌≤◌, ◌≡◌, ◌≢◌, ◌==◌, ltb, Bool-cases, eqb→eq, not_eqb→ne,
  ltb→lt, not_ltb→le, inl, inr, u64, arith,
}
use black_diamond_os.Utils.{align}

-- a multiple of `al` at or above a number between two multiples is at or above the second
next_multiple :
    (q al b address : ℕ) → b % al ≡ 0 → q * al < address → address ≤ b → (q + 1) * al ≤ b
next_multiple q al b address m low l =
    let whole = div-add-mod' b al in
    elim (Bool-cases (ltb q (b / al))) [
      | inl h ↦ grind (arith, mul-le-mul_right al (ltb→lt q (b / al) h), whole, m)
      | inr h ↦ absurd (grind (arith, mul-le-mul_right al (not_ltb→le q (b / al) h), whole, m))
    ]

next_above : (q address al r : ℕ) → q * al + r ≡ address → r < al → address ≤ (q + 1) * al
next_above q address al r whole below = grind (arith, whole, below)

one_more : (q al : ℕ) → (q + 1) * al ≡ q * al + al
one_more q al = grind arith

multiple :
    (address al r q : ℕ)
    → q * al + r ≡ address
    → r < al
    → r ≢ 0
    → address + al ≤ 2 ^ 64
    → u64 (address + (al - r)) ≡ (q + 1) * al
multiple address al r q whole below some_left fits =
    omega (arith, whole, below, some_left, fits, one_more q al)

-- `align` to a positive alignment, of an address that stays within 64 bits, gives the least
-- multiple of the alignment that is not below the address.
pub align-least :
    (address alignment : ℕ)
    → 0 < alignment
    → address + alignment ≤ 2 ^ 64
    → (align address alignment % alignment ≡ 0)
      × (address ≤ align address alignment)
      × ((b : ℕ) → b % alignment ≡ 0 → address ≤ b → align address alignment ≤ b)
unfolding align
align-least address alignment pos fits = elim (Bool-cases (address % alignment == 0)) [
  | inl h ↦ rw h (eqb→eq (address % alignment) 0 h, omega arith, λ b m l. l)
  | inr h ↦
      let q = address / alignment in
      let whole = div-add-mod' address alignment in
      let below = mod-lt address pos in
      let some_left = not_eqb→ne (address % alignment) 0 h in
      let up : u64 (address + (alignment - address % alignment)) ≡ (q + 1) * alignment =
        multiple address alignment (address % alignment) q whole below some_left fits in
      let low : q * alignment < address = omega (arith, whole, some_left) in
      rw (h, up)
        (
          mul-mod_left (q + 1) alignment,
          next_above q address alignment (address % alignment) whole below,
          λ b m l. next_multiple q alignment b address m low l,
        )
]
