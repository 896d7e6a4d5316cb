-- ===== src/Acpi/Checksum.antt =====
-- `_calc_checksum` of kernel/acpi/acpi.c.
use black_diamond_os.Prelude.{
  ℕ, zero, suc, ◌+◌, ◌*◌, ◌%◌, ◌^◌, ◌≡◌, ◌↔◌, refl, sym, ap, ◌∙◌, subst, true, u8, u64, eqb→eq,
  eq→eqb, arith,
}
use black_diamond_os.Machine.{Memory}
use black_diamond_os.Acpi.{add_bytes, calc_checksum}

-- the sum of `n` bytes
unfoldable pub sum_of : ℕ → Memory ℕ → ℕ → ℕ
sum_of zero m base = 0
sum_of (suc n) m base = m base + sum_of n m (base + 1)

-- The 64-bit sum of the loop agrees with the true sum on the low byte.
low_byte : (a b c : ℕ) → (u64 (a + b) + c) % 0x100 ≡ (a + (b + c)) % 0x100
low_byte a b c = omega arith

add_bytes-mod :
    (n i : ℕ) (m : Memory ℕ) (base sum : ℕ)
    → add_bytes n i m base sum % 0x100 ≡ (sum + sum_of n m (base + i)) % 0x100
unfolding add_bytes sum_of
add_bytes-mod zero i m base sum = omega arith
add_bytes-mod (suc n) i m base sum =
    add_bytes-mod n (i + 1) m base (u64 (sum + m (base + i)))
    ∙ ap (λ (a : ℕ). (u64 (sum + m (base + i)) + sum_of n m a) % 0x100) (omega arith)
    ∙ low_byte sum (m (base + i)) (sum_of n m (base + i + 1))
    ∙ refl

-- `_calc_checksum` accepts exactly if the bytes that it reads, as many as the low byte of the
-- length says, add up to a multiple of 256.
pub calc_checksum-sum_of :
    (m : Memory ℕ) (base len : ℕ)
    → (calc_checksum m base len ≡ true) ↔ (sum_of (len % 2 ^ 8) m base % 0x100 ≡ 0)
unfolding calc_checksum
calc_checksum-sum_of m base len =
    let same : add_bytes (u8 len) 0 m base 0 % 0x100 ≡ sum_of (len % 2 ^ 8) m base % 0x100 =
      add_bytes-mod (u8 len) 0 m base 0
      ∙ subst (λ (a : ℕ). (0 + sum_of (u8 len) m a) % 0x100 ≡ sum_of (u8 len) m base % 0x100)
          {x = base} (omega arith) (omega arith) in
    (
      λ e. sym same ∙ eqb→eq (add_bytes (u8 len) 0 m base 0 % 0x100) 0 e,
      λ e. eq→eqb (add_bytes (u8 len) 0 m base 0 % 0x100) 0 (same ∙ e),
    )

-- A table whose length is a multiple of 256 passes `_calc_checksum`, whatever its bytes are.
pub calc_checksum-blind : (m : Memory ℕ) (base n : ℕ) → calc_checksum m base (n * 256) ≡ true
unfolding calc_checksum add_bytes
calc_checksum-blind m base n = let none : u8 (n * 256) ≡ 0 = omega arith in rw none
