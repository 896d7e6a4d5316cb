-- ===== src/Utils/Reversal.antt =====
-- The second loop of `itoa` of kernel/core/utils.c: it turns a range of bytes around.
use black_diamond_os.Prelude.{
  ℕ, zero, suc, ◌+◌, ◌-◌, ◌*◌, ◌<◌, ◌≤◌, ◌≡◌, ◌≢◌, ◌⊎◌, inl, inr, refl, ap, ◌∙◌, ltb, ltb→lt,
  not_ltb→le, ◌==◌, Bool-cases, eqb→eq, not_eqb→ne, eq→eqb, ne→not_eqb, some, arith,
}
use black_diamond_os.Machine.{Memory, update}
use black_diamond_os.Utils.{flip}

-- The bytes from `lo` to below `hi` are turned around, and no others changed.
pub record Reversed (lo hi : ℕ) (m m' : Memory ℕ) : Type 0 where
  pub turned : (x y : ℕ) → lo ≤ x → x + y + 1 ≡ lo + hi → x < hi → m' x ≡ m y
  pub kept : (x : ℕ) → (x < lo) ⊎ (hi ≤ x) → m' x ≡ m x

abbrev pub swap : Memory ℕ → ℕ → ℕ → Memory ℕ
swap m a b = update (update m a (m b)) b (m a)

swap-other : (m : Memory ℕ) (a b x : ℕ) → x ≢ a → x ≢ b → swap m a b x ≡ m x
swap-other m a b x n k = rw (ne→not_eqb x b k, ne→not_eqb x a n)

swap-left : (m : Memory ℕ) (a b : ℕ) → swap m a b a ≡ m b
swap-left m a b = elim (Bool-cases (a == b)) [
  | inl e ↦ rw e (ap m (eqb→eq a b e))
  | inr n ↦ rw (n, eq→eqb a a refl)
]

swap-right : (m : Memory ℕ) (a b : ℕ) → swap m a b b ≡ m a
swap-right m a b = rw (eq→eqb b b refl)

pub flip-Reversed :
    (fuel lo hi : ℕ) (m : Memory ℕ)
    → lo ≤ hi + 1
    → hi + 1 < lo + 2 * fuel
    → (m' : Memory ℕ) × (flip fuel lo hi m ≡ some m') × Reversed lo hi m m'
unfolding flip
flip-Reversed zero lo hi m near h = absurd (omega (arith, near, h))
flip-Reversed (suc fuel) lo hi m near h = elim (Bool-cases (ltb lo hi)) [
  | inr done ↦ (
    m,
    rw done,
    record {
      turned = λ x y l e b. absurd (omega (arith, l, b, not_ltb→le lo hi done));
      kept = λ x o. refl;
    },
  )
  | inl more ↦
      let last = hi - 1 in
      let some_left = ltb→lt lo hi more in
      let (m', runs, v) =
        flip-Reversed fuel (lo + 1) last (swap m lo last) (omega (arith, some_left))
          (omega (arith, h, some_left)) in
      (
        m',
        rw more runs,
        record {
          turned = λ x y l e b. elim (Bool-cases (x == lo)) [
            | inl t ↦
                let is = eqb→eq x lo t in
                v.kept x (inl (omega (arith, is)))
                ∙ ap (swap m lo last) is
                ∙ swap-left m lo last
                ∙ ap m (omega (arith, e, is))
            | inr f ↦ elim (Bool-cases (x == last)) [
              | inl t ↦
                  let is = eqb→eq x last t in
                  v.kept x (inr (omega (arith, is)))
                  ∙ ap (swap m lo last) is
                  ∙ swap-right m lo last
                  ∙ ap m (omega (arith, e, is, some_left))
              | inr g ↦
                  let other = not_eqb→ne x lo f in
                  let other' = not_eqb→ne x last g in
                  v.turned x y (omega (arith, l, other)) (omega (arith, e, some_left))
                    (omega (arith, b, other'))
                  ∙ swap-other m lo last y (omega (arith, e, other', some_left))
                      (omega (arith, e, other, some_left))
            ]
          ];
          kept = λ x o.
              v.kept x (inner x o some_left)
              ∙ swap-other m lo last x (left_of x o some_left) (right_of x o some_left);
        },
      )
]
  where
    inner : (x : ℕ) → (x < lo) ⊎ (hi ≤ x) → lo < hi → (x < lo + 1) ⊎ (hi - 1 ≤ x)
    inner x (inl l) b = inl (omega (arith, l))
    inner x (inr h) b = inr (omega (arith, h))

    left_of : (x : ℕ) → (x < lo) ⊎ (hi ≤ x) → lo < hi → x ≢ lo
    left_of x (inl l) b = omega (arith, l)
    left_of x (inr h) b = omega (arith, h, b)

    right_of : (x : ℕ) → (x < lo) ⊎ (hi ≤ x) → lo < hi → x ≢ hi - 1
    right_of x (inl l) b = omega (arith, l, b)
    right_of x (inr h) b = omega (arith, h, b)
