-- ===== src/Interrupts/Table.antt =====
-- `add_interrupt` and the last loop of `init_interrupts` of kernel/core/interrupts.c: what the
-- descriptor table holds.
use black_diamond_os.Prelude.{
  ℕ, zero, suc, ◌+◌, ◌*◌, ◌^◌, ◌<◌, ◌≤◌, ◌≡◌, ◌≢◌, ◌⊎◌, inl, inr, refl, sym, ap, subst, ltb, ltb→lt,
  not_ltb→le, ◌∙◌, ◌==◌, eqb→eq, eq→eqb, ne→not_eqb, not_eqb→ne, Bool-cases, arith,
}
use black_diamond_os.Machine.{done, Memory, update}
use black_diamond_os.Interrupts.{
  Interrupts, IdtEntry, entry_for, add_interrupt, add_unhandled, add_unhandled_ints,
}

-- the address that the processor reads out of a descriptor
abbrev pub handler_of : IdtEntry → ℕ
handler_of e = e.isr_low + 2 ^ 16 * e.isr_mid + 2 ^ 32 * e.isr_high

-- A 64-bit gate of the kernel's code segment: present, of privilege 0, and either a trap gate,
-- which leaves interrupts on, or an interrupt gate.
abbrev pub IsGate : ℕ → IdtEntry → Type 0
IsGate trap e =
    (e.cs_selector ≡ 0x28)
    × (e.ist ≡ 0)
    × (e.reserved ≡ 0)
    × (((trap ≡ 0) × (e.attributes ≡ 0x80 + 0xE)) ⊎ ((0 < trap) × (e.attributes ≡ 0x80 + 0xF)))

entry_for-handler : (trap isr : ℕ) → isr < 2 ^ 64 → handler_of (entry_for trap isr) ≡ isr
entry_for-handler trap isr small = omega (arith, small)

entry_for-IsGate : (trap isr : ℕ) → IsGate trap (entry_for trap isr)
entry_for-IsGate trap isr = elim (Bool-cases (trap == 0)) [
  | inl h ↦ rw h (refl, refl, refl, inl (eqb→eq trap 0 h, refl))
  | inr h ↦ rw h (refl, refl, refl, inr (omega (arith, not_eqb→ne trap 0 h), refl))
]

-- `add_interrupt` of a 64-bit address, once there is a table, makes the vector a gate of the asked
-- type from which the processor reads the handler's address, and leaves all other vectors.
pub add_interrupt-IsGate :
    (vector trap isr : ℕ) (s : Interrupts)
    → 0 < s.idt
    → isr < 2 ^ 64
    → (s' : Interrupts) × (add_interrupt vector trap isr s ≡ done tt s')
      × (handler_of (s'.entries vector) ≡ isr)
      × IsGate trap (s'.entries vector)
      × ((q : ℕ) → q ≢ vector → s'.entries q ≡ s.entries q)
unfolding add_interrupt
add_interrupt-IsGate vector trap isr s there small = (
  record s { entries = update s.entries vector (entry_for trap isr) },
  rw (ne→not_eqb s.idt 0 (omega (arith, there))),
  rw (eq→eqb vector vector refl) (entry_for-handler trap isr small),
  rw (eq→eqb vector vector refl) (entry_for-IsGate trap isr),
  λ q n. rw (ne→not_eqb q vector n),
)

-- `n` vectors from `i` on go to one handler, and the others stay
pub record Filled (n i isr : ℕ) (m m' : Memory IdtEntry) : Type 0 where
  pub inside : (q : ℕ) → i ≤ q → q < i + n → m' q ≡ entry_for 0 isr
  pub outside : (q : ℕ) → (q < i) ⊎ (i + n ≤ q) → m' q ≡ m q

-- the loop from any vector
add_unhandled-Filled :
    (n i isr : ℕ) (s : Interrupts)
    → 0 < s.idt
    → (m : Memory IdtEntry) × (add_unhandled n i isr s ≡ done tt (record s { entries = m }))
      × Filled n i isr s.entries m
unfolding add_unhandled add_interrupt
add_unhandled-Filled zero i isr s there = (
  s.entries,
  refl,
  record { inside = λ q l h. absurd (omega (arith, l, h)); outside = λ q o. refl },
)
add_unhandled-Filled (suc n) i isr s there =
    let e = entry_for 0 isr in
    let (m, runs, v) =
      add_unhandled-Filled n (i + 1) isr (record s { entries = update s.entries i e }) there in
    (
      m,
      rw (ne→not_eqb s.idt 0 (omega (arith, there))) runs,
      record {
        inside = λ q l h. elim (Bool-cases (q == i)) [
          | inl t ↦ v.outside q (inl (omega (arith, eqb→eq q i t))) ∙ rw t
          | inr t ↦ v.inside q (omega (arith, l, not_eqb→ne q i t)) (omega (arith, h))
        ];
        outside = λ q o. v.outside q (further q i n o) ∙ rw (ne→not_eqb q i (apart q i n o));
      },
    )
  where
    further : (q i n : ℕ) → (q < i) ⊎ (i + suc n ≤ q) → (q < i + 1) ⊎ (i + 1 + n ≤ q)
    further q i n (inl l) = inl (omega (arith, l))
    further q i n (inr h) = inr (omega (arith, h))

    apart : (q i n : ℕ) → (q < i) ⊎ (i + suc n ≤ q) → q ≢ i
    apart q i n (inl l) = omega (arith, l)
    apart q i n (inr h) = omega (arith, h)

-- a vector that the last loop of `init_interrupts` fills
abbrev pub IsUnhandled : ℕ → Type 0
IsUnhandled q = (48 ≤ q) × (q < 255)

-- The last loop of `init_interrupts`, once there is a table, for a handler at a 64-bit address, ends
-- and makes each vector from 48 to 254 a present interrupt gate of the kernel's code segment from
-- which the processor reads the handler's address. No other vector changes, the exceptions, the
-- vectors of the interrupt controllers and vector 255 among them.
pub add_unhandled_ints-Gates :
    (isr : ℕ) (s : Interrupts)
    → 0 < s.idt
    → isr < 2 ^ 64
    → (m : Memory IdtEntry) × (add_unhandled_ints isr s ≡ done tt (record s { entries = m }))
      × ((q : ℕ) → IsUnhandled q → (handler_of (m q) ≡ isr) × IsGate 0 (m q))
      × ((q : ℕ) → ¬ IsUnhandled q → m q ≡ s.entries q)
unfolding add_unhandled_ints
add_unhandled_ints-Gates isr s there small =
    let (m, runs, v) = add_unhandled-Filled 207 48 isr s there in
    (
      m,
      runs,
      λ q (l, h).
          let at : m q ≡ entry_for 0 isr = v.inside q l (omega (arith, h)) in
          (
            ap handler_of at ∙ entry_for-handler 0 isr small,
            subst (IsGate 0) (sym at) (entry_for-IsGate 0 isr),
          ),
      λ q n. v.outside q (elsewhere q n),
    )
  where
    elsewhere : (q : ℕ) → ¬ IsUnhandled q → (q < 48) ⊎ (48 + 207 ≤ q)
    elsewhere q n = elim (Bool-cases (ltb q 48)) [
      | inl h ↦ inl (ltb→lt q 48 h)
      | inr h ↦ elim (Bool-cases (ltb q 255)) [
        | inl k ↦ absurd (n (not_ltb→le q 48 h, ltb→lt q 255 k))
        | inr k ↦ inr (omega (arith, not_ltb→le q 255 k))
      ]
    ]
