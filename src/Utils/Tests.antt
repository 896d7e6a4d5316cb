-- ===== src/Utils/Tests.antt =====
-- Examples of kernel/core/utils.c.
use black_diamond_os.Prelude.{ℕ, ◌^◌, ◌<◌, ◌≤◌, ◌≡◌, ◌≢◌, refl, some, ◌==◌, if◌then◌else◌, arith}
use black_diamond_os.Utils.{itoa, write_digits, flip, digit_characters, align}
use black_diamond_os.Utils.Itoa.{Printed, itoa-Printed}
use mathlib.Core.List.{[], ◌∷◌}
use mathlib.Core.Option.{none}

aligned : align 1000 128 ≡ 1024
unfolding align
aligned = refl

-- "ab", and then "ac" with other bytes behind
abbrev ab : ℕ → ℕ
ab k = if k == 0 then 97 else if k == 1 then 98 else 0

abbrev ac : ℕ → ℕ
ac k = if k == 0 then 97 else if k == 1 then 99 else 7

ab_inside : (k : ℕ) → k < 2 → ab k ≢ 0
ab_inside k l = ground arith

itoa-Printed_example :
    (n : ℕ) × (m' : ℕ → ℕ) × (itoa 2026 100 16 (λ q. q) ≡ some m')
    × (0 < n)
    × ((w : ℕ) → 0 < w → 2026 < 16 ^ w → n ≤ w)
    × Printed 2026 100 16 n (λ q. q) m'
itoa-Printed_example = itoa-Printed 2026 100 16 (λ q. q) (omega arith) (omega arith) (omega arith)

-- "7EA" and its terminator
abbrev printed : ℕ → ℕ
printed = elim (itoa 2026 100 16 (λ q. q)) [ none ↦ (λ _. 1) | some m ↦ m ]

prints_hex : printed 100 ∷ printed 101 ∷ printed 102 ∷ printed 103 ∷ [] ≡ 55 ∷ 69 ∷ 65 ∷ 0 ∷ []
unfolding itoa write_digits flip digit_characters
prints_hex = refl
