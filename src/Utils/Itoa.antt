-- ===== src/Utils/Itoa.antt =====
-- `itoa` of kernel/core/utils.c: the text that it prints reads back as the number.
use black_diamond_os.Prelude.{
  ℕ, zero, suc, ◌+◌, ◌-◌, ◌*◌, ◌^◌, ◌<◌, ◌≤◌, ◌≡◌, ◌≢◌, ◌⊎◌, inl, inr, refl, sym, ap, ◌∙◌, subst,
  ◌==◌, Bool-cases, eqb→eq, not_eqb→ne, eq→eqb, ne→not_eqb, some, arith,
}
use black_diamond_os.Machine.{Memory, update}
use black_diamond_os.Utils.{flip_written, itoa}
use black_diamond_os.Utils.Digits.{digit_of, little, IsDigit, Digits, write_digits-Digits}
use black_diamond_os.Utils.Reversal.{Reversed, flip-Reversed}

-- the number that `n` characters from `p` on spell, behind digits that spell `number`
unfoldable pub read_digits : ℕ → ℕ → Memory ℕ → ℕ → ℕ → ℕ
read_digits zero base m p number = number
read_digits (suc n) base m p number = read_digits n base m (p + 1) (number * base + digit_of (m p))

read_digits-snoc :
    (n base : ℕ) (m : Memory ℕ) (p number : ℕ)
    → read_digits (suc n) base m p number
      ≡ read_digits n base m p number * base + digit_of (m (p + n))
unfolding read_digits
read_digits-snoc zero base m p number =
    subst (λ (a : ℕ). number * base + digit_of (m p) ≡ number * base + digit_of (m a)) (omega arith)
      refl
read_digits-snoc (suc n) base m p number =
    read_digits-snoc n base m (p + 1) (number * base + digit_of (m p))
    ∙ ap
        (λ (a : ℕ).
          read_digits n base m (p + 1) (number * base + digit_of (m p)) * base + digit_of (m a))
        (shift p n)
  where
    shift : (p n : ℕ) → p + 1 + n ≡ p + suc n
    shift p n = omega arith

turn : (b d base : ℕ) → b * base + d ≡ d + base * b
turn b d base = grind arith

-- Digits that were turned around spell the same number from the highest on.
read_digits-little :
    (n base p q : ℕ) (m m' : Memory ℕ)
    → ((k j : ℕ) → k + j + 1 ≡ n → m' (p + k) ≡ m (q + j))
    → read_digits n base m' p 0 ≡ little n base m q
unfolding little read_digits
read_digits-little zero base p q m m' turned = refl
read_digits-little (suc n) base p q m m' turned =
    let lowest : m' (p + n) ≡ m q =
      turned n 0 (omega arith) ∙ subst (λ (a : ℕ). m a ≡ m q) (zero_right q) refl in
    let rest : read_digits n base m' p 0 ≡ little n base m (q + 1) =
      read_digits-little n base p (q + 1) m m'
        (λ k j e. turned k (j + 1) (omega (arith, e)) ∙ ap m (shift q j)) in
    read_digits-snoc n base m' p 0
    ∙ join (read_digits n base m' p 0) (little n base m (q + 1)) (digit_of (m' (p + n)))
        (digit_of (m q)) base rest (ap digit_of lowest)
  where
    zero_right : (q : ℕ) → q ≡ q + 0
    zero_right q = omega arith

    shift : (q j : ℕ) → q + (j + 1) ≡ q + 1 + j
    shift q j = omega arith

    join : (a b c d base : ℕ) → a ≡ b → c ≡ d → a * base + c ≡ d + base * b
    join a b c d base e f =
        ap (λ (x : ℕ). x * base + c) e ∙ ap (λ (x : ℕ). b * base + x) f ∙ turn b d base

-- What `itoa` leaves: `n` characters at `buf` that spell `i`, each a digit of the base, then the
-- terminator, and no other change.
pub record Printed (i buf base n : ℕ) (m m' : Memory ℕ) : Type 0 where
  pub spells : read_digits n base m' buf 0 ≡ i
  pub characters : (k : ℕ) → k < n → IsDigit base (m' (buf + k))
  pub ends : m' (buf + n) ≡ 0
  pub kept : (q : ℕ) → (q < buf) ⊎ (buf + n + 1 ≤ q) → m' q ≡ m q

Digits-Printed :
    (i buf base n : ℕ) (m m₁ m₂ : Memory ℕ)
    → Digits i (buf + 1) base n (update m buf 0) m₁
    → Reversed buf (buf + 1 + n) m₁ m₂
    → Printed i buf base n m m₂
Digits-Printed i buf base n m m₁ m₂ v w = record {
  spells =
      read_digits-little n base buf (buf + 1) m₁ m₂ (λ k j e.
        w.turned (buf + k) (buf + 1 + j) (omega arith) (omega (arith, e)) (omega (arith, e)))
      ∙ v.value;
  characters = λ k l.
      subst (IsDigit base)
        (sym (
          w.turned (buf + k) (buf + 1 + (n - 1 - k)) (omega arith) (omega (arith, l))
            (omega (arith, l))))
        (v.printed (n - 1 - k) (omega (arith, l)));
  ends =
      w.turned (buf + n) buf (omega arith) (omega arith) (omega arith)
      ∙ v.kept buf (inl (omega arith))
      ∙ rw (eq→eqb buf buf refl);
  kept = λ q o. w.kept q (beyond q o) ∙ v.kept q (outside q o) ∙ rw (ne→not_eqb q buf (apart q o));
}
  where
    beyond : (q : ℕ) → (q < buf) ⊎ (buf + n + 1 ≤ q) → (q < buf) ⊎ (buf + 1 + n ≤ q)
    beyond q (inl l) = inl l
    beyond q (inr h) = inr (omega (arith, h))

    outside : (q : ℕ) → (q < buf) ⊎ (buf + n + 1 ≤ q) → (q < buf + 1) ⊎ (buf + 1 + n ≤ q)
    outside q (inl l) = inl (omega (arith, l))
    outside q (inr h) = inr (omega (arith, h))

    apart : (q : ℕ) → (q < buf) ⊎ (buf + n + 1 ≤ q) → q ≢ buf
    apart q (inl l) = omega (arith, l)
    apart q (inr h) = omega (arith, h)

zero-Printed :
    (buf base : ℕ) (m : Memory ℕ)
    → 2 ≤ base
    → Printed 0 buf base 1 m (update (update m buf 48) (buf + 1) 0)
unfolding read_digits
zero-Printed buf base m low =
    let here : update (update m buf 48) (buf + 1) 0 buf ≡ 48 =
      rw (ne→not_eqb buf (buf + 1) (omega arith), eq→eqb buf buf refl) in
    record {
      spells = rw here (omega arith);
      characters = λ k l. let at : buf + k ≡ buf = omega (arith, l) in rw (at, here) (omega arith);
      ends = rw (eq→eqb (buf + 1) (buf + 1) refl);
      kept = λ q o. rw (ne→not_eqb q (buf + 1) (behind q o), ne→not_eqb q buf (apart q o));
    }
  where
    behind : (q : ℕ) → (q < buf) ⊎ (buf + 1 + 1 ≤ q) → q ≢ buf + 1
    behind q (inl l) = omega (arith, l)
    behind q (inr h) = omega (arith, h)

    apart : (q : ℕ) → (q < buf) ⊎ (buf + 1 + 1 ≤ q) → q ≢ buf
    apart q (inl l) = omega (arith, l)
    apart q (inr h) = omega (arith, h)

-- `itoa` of a 64-bit number in a base from 2 to 16 ends, and leaves digits of the base at the
-- buffer, of the characters `0` to `9` and `A` to `F`, that read back as the number, then the terminator, and nothing else changed. There is at least one
-- character, and no more than any positive number of places that is enough for the number in that
-- base.
pub itoa-Printed :
    (i buf base : ℕ) (m : Memory ℕ)
    → 2 ≤ base
    → base ≤ 16
    → i < 2 ^ 64
    → (n : ℕ) × (m' : Memory ℕ) × (itoa i buf base m ≡ some m')
      × (0 < n)
      × ((w : ℕ) → 0 < w → i < base ^ w → n ≤ w)
      × Printed i buf base n m m'
unfolding itoa
itoa-Printed i buf base m low high small = elim (Bool-cases (i == 0)) [
  | inl h ↦ (
    1,
    update (update m buf 48) (buf + 1) 0,
    rw h,
    omega arith,
    λ w some_place l. some_place,
    subst (λ (k : ℕ). Printed k buf base 1 m (update (update m buf 48) (buf + 1) 0))
        (sym (eqb→eq i 0 h)) (zero-Printed buf base m low),
  )
  | inr h ↦
      let (n, m₁, runs, some_digit, fits, places, v) =
        write_digits-Digits 64 i (buf + 1) base (update m buf 0) low high
          (omega (arith, not_eqb→ne i 0 h)) small in
      let (m₂, turns, w) =
        flip-Reversed 64 buf (buf + 1 + n) m₁ (omega arith) (omega (arith, fits)) in
      (
        n,
        m₂,
        rw h (ap (flip_written buf) runs ∙ turns),
        some_digit,
        λ w some_place l. places w l,
        Digits-Printed i buf base n m m₁ m₂ v w,
      )
]
