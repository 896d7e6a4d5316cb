-- ===== src/Utils/Digits.antt =====
-- The first loop of `itoa` of kernel/core/utils.c: the digits, the lowest first.
use native.Mathlib.Nat.{mul-le-mul_left, mod-lt, div-add-mod', mul-le-mul_right, two-pow-succ}
use native.Mathlib.Omega.{pow_step}
use native.Mathlib.Numerals.{unary_clauses}
use black_diamond_os.Prelude.{
  ltb→lt, not_ltb→le, ℕ, zero, suc, ◌+◌, ◌-◌, ◌*◌, ◌/◌, ◌^◌, ◌<◌, ◌≤◌, ◌≡◌, ◌≢◌, ◌⊎◌, inl, inr,
  refl, sym, ap, ◌∙◌, subst, true, false, ◌==◌, ltb, Bool-cases, eqb→eq, not_eqb→ne, eq→eqb,
  ne→not_eqb, every, every-holds, if◌then◌else◌, some, arith, split_first,
}
use black_diamond_os.Machine.{Memory, update}
use black_diamond_os.Utils.{digit_characters, write_digits}

-- the digit that a character stands for
abbrev pub digit_of : ℕ → ℕ
digit_of c = if ltb c 65 then c - 48 else c - 55

digit_table : every 16 (λ d. digit_of (digit_characters d) == d) ≡ true
unfolding digit_characters
digit_table = refl

pub digit_of-digit_characters : (d : ℕ) → d < 16 → digit_of (digit_characters d) ≡ d
digit_of-digit_characters d l =
    eqb→eq (digit_of (digit_characters d)) d
      (every-holds 16 (λ d. digit_of (digit_characters d) == d) d digit_table l)

-- A digit of a base: one of the characters `0` to `9` and `A` to `F`, of a value below the base.
abbrev pub IsDigit : ℕ → ℕ → Type 0
IsDigit base c = (((48 ≤ c) × (c < 58)) ⊎ ((65 ≤ c) × (c < 71))) × (digit_of c < base)

pub IsDigit-ne : (base c : ℕ) → IsDigit base c → c ≢ 0
IsDigit-ne base c (inl h, l) e = omega (arith, h.0, e)
IsDigit-ne base c (inr h, l) e = omega (arith, h.0, e)

character_table : every 16 (λ d. digit_characters d == (if ltb d 10 then 48 + d else 55 + d)) ≡ true
unfolding digit_characters
character_table = refl

digit_characters-IsDigit : (base d : ℕ) → d < 16 → d < base → IsDigit base (digit_characters d)
digit_characters-IsDigit base d l below =
    let at : digit_characters d ≡ (if ltb d 10 then 48 + d else 55 + d) = eqb→eq _ _ (
      every-holds 16 (λ d. digit_characters d == (if ltb d 10 then 48 + d else 55 + d)) d
        character_table l) in
    let value : digit_of (digit_characters d) < base =
      subst (λ (v : ℕ). v < base) (sym (digit_of-digit_characters d l)) below in
    elim (Bool-cases (ltb d 10)) [
      | inl h ↦
          let is : digit_characters d ≡ 48 + d = at ∙ rw h refl in
          (inl (omega (arith, is), omega (arith, is, ltb→lt d 10 h)), value)
      | inr h ↦
          let is : digit_characters d ≡ 55 + d = at ∙ rw h refl in
          (inr (omega (arith, is, not_ltb→le d 10 h), omega (arith, is, l)), value)
    ]

-- the number whose `n` digits stand at `p`, the lowest first
unfoldable pub little : ℕ → ℕ → Memory ℕ → ℕ → ℕ
little zero base m p = 0
little (suc n) base m p = digit_of (m p) + base * little n base m (p + 1)

-- What the loop leaves: `n` digits of `i` at `p`, the lowest first, and no other change.
pub record Digits (i p base n : ℕ) (m m' : Memory ℕ) : Type 0 where
  pub value : little n base m' p ≡ i
  pub printed : (k : ℕ) → k < n → IsDigit base (m' (p + k))
  pub kept : (q : ℕ) → (q < p) ⊎ (p + n ≤ q) → m' q ≡ m q

-- The digit that the loop takes off is the remainder.
remainder :
    (i base : ℕ)
    → 0 < base
    → (i - i / base * base < base) × (i - i / base * base + base * (i / base) ≡ i)
remainder i base pos =
    let whole = div-add-mod' i base in
    let small = mod-lt i pos in (omega (arith, whole, small), grind (arith, whole))

-- one digit more in front
Digits-cons :
    (i p base n : ℕ) (m m' : Memory ℕ)
    → 2 ≤ base
    → base ≤ 16
    → Digits (i / base) (p + 1) base n (update m p (digit_characters (i - i / base * base))) m'
    → Digits i p base (suc n) m m'
unfolding little
Digits-cons i p base n m m' low high v =
    let d = i - i / base * base in
    let (below, whole) = remainder i base (omega (arith, low)) in
    let small : d < 16 = omega (arith, below, high) in
    let first : m' p ≡ digit_characters d = v.kept p (inl (omega arith)) ∙ rw (eq→eqb p p refl) in
    record {
      value = rw (first, digit_of-digit_characters d small, v.value) whole;
      printed = λ k l. elim (split_first k n l) [
        | inl z ↦
            subst (λ (q : ℕ). IsDigit base (m' q)) (omega (arith, z))
              (subst (IsDigit base) (sym first) (digit_characters-IsDigit base d small below))
        | inr (k', z, h) ↦
            subst (λ (q : ℕ). IsDigit base (m' q)) (omega (arith, z)) (v.printed k' h)
      ];
      kept = λ q o. v.kept q (further q o) ∙ rw (ne→not_eqb q p (apart q o));
    }
  where
    further : (q : ℕ) → (q < p) ⊎ (p + suc n ≤ q) → (q < p + 1) ⊎ (p + 1 + n ≤ q)
    further q (inl l) = inl (omega (arith, l))
    further q (inr h) = inr (omega (arith, h))

    apart : (q : ℕ) → (q < p) ⊎ (p + suc n ≤ q) → q ≢ p
    apart q (inl l) = omega (arith, l)
    apart q (inr h) = omega (arith, h)

-- After the last digit there is nothing left to print.
Digits-nil : (p base : ℕ) (m : Memory ℕ) → Digits 0 p base 0 m m
unfolding little
Digits-nil p base m = record {
  value = refl;
  printed = λ k l. absurd (omega (arith, l));
  kept = λ q o. refl;
}

-- A number above 0 takes a place.
some_place : (i base w : ℕ) → 0 < i → i < base ^ w → 1 ≤ w
some_place i base zero pos l =
    let one : base ^ 0 ≡ 1 = simp unary_clauses in absurd (omega (arith, pos, l, one))
some_place i base (suc w) pos l = omega arith

-- A quotient by the base takes a place less.
more_places :
    (n i base : ℕ)
    → 2 ≤ base
    → 0 < i
    → ((w : ℕ) → i / base < base ^ w → n ≤ w)
    → (w : ℕ) → i < base ^ w
    → suc n ≤ w
more_places n i base low pos places zero l =
    let one : base ^ 0 ≡ 1 = simp unary_clauses in absurd (omega (arith, pos, l, one))
more_places n i base low pos places (suc w) l = elim (Bool-cases (ltb (i / base) (base ^ w))) [
  | inl h ↦ omega (arith, places w (ltb→lt (i / base) (base ^ w) h))
  | inr h ↦
      let (_, whole) = remainder i base (omega (arith, low)) in
      let above = mul-le-mul_left base (not_ltb→le (i / base) (base ^ w) h) in
      absurd (omega (arith, whole, above, l, pow_step base w))
]

pub write_digits-Digits :
    (fuel i p base : ℕ) (m : Memory ℕ)
    → 2 ≤ base
    → base ≤ 16
    → 0 < i
    → i < 2 ^ fuel
    → (n : ℕ) × (m' : Memory ℕ) × (write_digits fuel i p base m
        ≡ some (record { bytes = m'; buf = p + n }))
      × (0 < n)
      × (n ≤ fuel)
      × ((w : ℕ) → i < base ^ w → n ≤ w)
      × Digits i p base n m m'
unfolding write_digits
write_digits-Digits zero i p base m low high pos small = absurd (omega (arith, pos, small))
write_digits-Digits (suc fuel) i p base m low high pos small =
    let m₁ = update m p (digit_characters (i - i / base * base)) in
    let some_base : (base == 0) ≡ false = ne→not_eqb base 0 (omega (arith, low)) in
    elim (Bool-cases (i / base == 0)) [
      | inl h ↦ (
        1,
        m₁,
        rw (some_base, h),
        omega arith,
        omega arith,
        λ w l. some_place i base w pos l,
        Digits-cons i p base 0 m m₁ low high (
            subst (λ (r : ℕ). Digits r (p + 1) base 0 m₁ m₁) (sym (eqb→eq (i / base) 0 h))
              (Digits-nil (p + 1) base m₁)),
      )
      | inr h ↦
          let (_, whole) = remainder i base (omega (arith, low)) in
          let twice = mul-le-mul_right (i / base) low in
          let smaller : i / base < 2 ^ fuel =
            omega (arith, whole, twice, small, two-pow-succ fuel) in
          let left : 0 < i / base = omega (arith, not_eqb→ne (i / base) 0 h) in
          let (n, m', runs, some_digit, fits, places, v) =
            write_digits-Digits fuel (i / base) (p + 1) base m₁ low high left smaller in
          (
            suc n,
            m',
            rw (some_base, h)
                (runs ∙ ap (λ (q : ℕ). some (record { bytes = m'; buf = q })) (shift p n)),
            omega arith,
            omega (arith, fits),
            more_places n i base low pos places,
            Digits-cons i p base n m m' low high v,
          )
    ]
  where
    shift : (p n : ℕ) → p + 1 + n ≡ p + suc n
    shift p n = omega arith
