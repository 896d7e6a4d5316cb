-- ===== src/Ahci/Slots.antt =====
-- The command slots of a port, as `__send_cmd` of kernel/disk/ahci.c searches and marks them.
use black_diamond_os.Prelude.{
  ℕ, zero, suc, ◌+◌, ◌*◌, ◌^◌, ◌<◌, ◌≤◌, ◌≡◌, refl, sym, ap, ◌∙◌, subst, ◌⊎◌, inl, inr, true, false,
  Bool-cases, ◌==◌, eqb→eq, not_eqb→ne, eq→eqb, bit_and, bit_or, if◌then◌else◌, arith,
}
use mathlib.Core.Bool.{false≢true}
use native.Mathlib.Nat.{one-le-pow}
use black_diamond_os.Prelude.BitAt.{
  bit, bit-le, bit-bit_or, bit-power_same, bit-power_other, bit_and-power,
}
use black_diamond_os.Ahci.{PortRegs}
use black_diamond_os.Ahci.Command.{is_free, find_slot}

-- The bit of a slot is clear in both registers.
abbrev pub FreeSlot : PortRegs → ℕ → Type 0
FreeSlot port k = (bit k port.sata_active ≡ 0) × (bit k port.command_issue ≡ 0)

clear_test : (a k : ℕ) → bit k a ≡ 0 → (bit_and a (2 ^ k) == 0) ≡ true
clear_test a k e =
    eq→eqb (bit_and a (2 ^ k)) 0 (bit_and-power k a ∙ ap (λ (b : ℕ). b * 2 ^ k) e ∙ omega arith)

set_test : (a k : ℕ) → (bit_and a (2 ^ k) == 0) ≡ true → bit k a ≡ 0
set_test a k e =
    no_bit (bit k a) (2 ^ k) (bit-le k a) (one-le-pow k 2 (omega arith))
      (sym (bit_and-power k a) ∙ eqb→eq (bit_and a (2 ^ k)) 0 e)
  where
    no_bit : (b p : ℕ) → b ≤ 1 → 1 ≤ p → b * p ≡ 0 → b ≡ 0
    no_bit zero p l l' z = refl
    no_bit (suc b) p l l' z = grind arith

is_free-FreeSlot : (port : PortRegs) (k : ℕ) → is_free port k ≡ true → FreeSlot port k
is_free-FreeSlot port k e = elim (Bool-cases (bit_and port.sata_active (2 ^ k) == 0)) [
  | inl a ↦ (set_test port.sata_active k a, set_test port.command_issue k (rw a at e))
  | inr a ↦ absurd (false≢true (rw a at e))
]

FreeSlot-is_free : (port : PortRegs) (k : ℕ) → FreeSlot port k → is_free port k ≡ true
FreeSlot-is_free port k (a, b) =
    rw (clear_test port.sata_active k a, clear_test port.command_issue k b)

-- the lowest empty slot, if any
abbrev pub LowestFree : PortRegs → ℕ → Type 0
LowestFree port k = (k < 32) × FreeSlot port k × ((j : ℕ) → j < k → ¬ FreeSlot port j)

abbrev pub NoneFree : PortRegs → Type 0
NoneFree port = (j : ℕ) → j < 32 → ¬ FreeSlot port j

find_slot-cases :
    (rounds i : ℕ) (port : PortRegs)
    → i + rounds ≡ 32
    → ((j : ℕ) → j < i → ¬ FreeSlot port j)
    → ((k : ℕ) × (find_slot rounds i port ≡ k) × LowestFree port k)
      ⊎ ((find_slot rounds i port ≡ 32) × NoneFree port)
unfolding find_slot
find_slot-cases zero i port whole below = inr (refl, λ j l. below j (omega (arith, whole, l)))
find_slot-cases (suc rounds) i port whole below = elim (Bool-cases (is_free port i)) [
  | inl free ↦ inl (i, rw free, (omega (arith, whole), is_free-FreeSlot port i free, below))
  | inr busy ↦ elim (find_slot-cases rounds (i + 1) port (omega (arith, whole)) (further busy)) [
    | inl (k, runs, lowest) ↦ inl (k, rw busy runs, lowest)
    | inr (runs, none_free) ↦ inr (rw busy runs, none_free)
  ]
]
  where
    further : is_free port i ≡ false → (j : ℕ) → j < i + 1 → ¬ FreeSlot port j
    further busy j l free = elim (Bool-cases (j == i)) [
      | inl same ↦ absurd (
          false≢true
            (sym busy ∙ FreeSlot-is_free port i (subst (FreeSlot port) (eqb→eq j i same) free)))
      | inr other ↦ below j (omega (arith, l, not_eqb→ne j i other)) free
    ]

-- The search finds the lowest empty slot, or answers 32 when there is none.
pub find_slot-LowestFree :
    (port : PortRegs)
    → ((k : ℕ) × (find_slot 32 0 port ≡ k) × LowestFree port k)
      ⊎ ((find_slot 32 0 port ≡ 32) × NoneFree port)
find_slot-LowestFree port = find_slot-cases 32 0 port refl (λ j l. absurd (omega (arith, l)))

-- A mark sets its bit and no other.
pub bit-marked : (j k a : ℕ) → bit j (bit_or a (2 ^ k)) ≡ (if j == k then 1 else bit j a)
bit-marked j k a = elim (Bool-cases (j == k)) [
  | inl same ↦
      let e = eqb→eq j k same in
      rw same (
        bit-bit_or j a (2 ^ k)
        ∙ omega (arith, bit-le j a, ap (λ (c : ℕ). bit c (2 ^ k)) e, bit-power_same k))
  | inr other ↦
      rw other (bit-bit_or j a (2 ^ k) ∙ omega (arith, bit-power_other j k (not_eqb→ne j k other)))
]
