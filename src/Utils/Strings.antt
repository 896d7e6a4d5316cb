-- ===== src/Utils/Strings.antt =====
-- `strcmp` of kernel/core/utils.c.
use mathlib.Core.Bool.{true≢false}
use black_diamond_os.Prelude.{
  split_first, ℕ, zero, suc, ◌+◌, ◌<◌, ◌≡◌, ◌≢◌, ◌⊎◌, refl, sym, ap, ◌∙◌, subst, inl, inr, true,
  false, some, Bool-cases, ◌==◌, eqb→eq, eq→eqb, not_eqb→ne, ne→not_eqb, arith,
}
use black_diamond_os.Utils.{strcmp_from, strcmp_terminated, strcmp}

-- two strings with the same bytes at the offsets from `i` on, `n` of them
abbrev pub SameFrom : ℕ → ℕ → (ℕ → ℕ) → (ℕ → ℕ) → Type 0
SameFrom i n str1 str2 = (k : ℕ) → k < n → str1 (i + k) ≡ str2 (i + k)

pub strcmp_from-decides :
    (n i : ℕ) (str1 str2 : ℕ → ℕ)
    → ((strcmp_from n i str1 str2 ≡ true) × SameFrom i n str1 str2)
      ⊎ ((strcmp_from n i str1 str2 ≡ false) × ((k : ℕ) × (k < n) × (str1 (i + k) ≢ str2 (i + k))))
unfolding strcmp_from
strcmp_from-decides zero i str1 str2 = inl (refl, λ k l. absurd (omega (arith, l)))
strcmp_from-decides (suc n) i str1 str2 = elim (Bool-cases (str1 i == str2 i)) [
  | inl h ↦ elim (strcmp_from-decides n (i + 1) str1 str2) [
    | inl (runs, same) ↦ inl (
      rw (h, runs),
      λ k l. elim (split_first k n l) [
        | inl z ↦ subst (λ (a : ℕ). str1 a ≡ str2 a) (omega arith) (eqb→eq (str1 i) (str2 i) h)
        | inr (k', z, l') ↦ subst (λ (a : ℕ). str1 a ≡ str2 a) (omega arith) (same k' l')
      ],
    )
    | inr (runs, (k, l, ne)) ↦ inr (
      rw (h, runs),
      (k + 1, omega arith, λ e. ne (subst (λ (a : ℕ). str1 a ≡ str2 a) (omega arith) e)),
    )
  ]
  | inr h ↦ inr (
    rw h,
    (
      0,
      omega arith,
      λ e. not_eqb→ne (str1 i) (str2 i) h (subst (λ (a : ℕ). str1 a ≡ str2 a) (omega arith) e),
    ),
  )
]

-- `strcmp` of a positive length answers 1 exactly if the strings have the same bytes for that
-- length, whatever bytes follow.
pub strcmp-SameFrom :
    (fuel len : ℕ) (str1 str2 : ℕ → ℕ)
    → 0 < len
    → ((strcmp fuel str1 str2 len ≡ some true) × SameFrom 0 len str1 str2)
      ⊎ ((strcmp fuel str1 str2 len ≡ some false)
          × ((k : ℕ) × (k < len) × (str1 (0 + k) ≢ str2 (0 + k))))
unfolding strcmp
strcmp-SameFrom fuel len str1 str2 pos =
    rw (ne→not_eqb len 0 (omega (arith, pos))) (elim (strcmp_from-decides len 0 str1 str2) [
      | inl (runs, same) ↦ inl (ap some runs, same)
      | inr (runs, other) ↦ inr (ap some runs, other)
    ])

terminated-decides :
    (n i fuel : ℕ) (str1 str2 : ℕ → ℕ)
    → str1 (i + n) ≡ 0
    → ((k : ℕ) → k < n → str1 (i + k) ≢ 0)
    → n < fuel
    → ((strcmp_terminated fuel i str1 str2 ≡ some true) × SameFrom i (n + 1) str1 str2)
      ⊎ ((strcmp_terminated fuel i str1 str2 ≡ some false)
          × ((k : ℕ) × (k < n + 1) × (str1 (i + k) ≢ str2 (i + k))))
unfolding strcmp_terminated
terminated-decides n i zero str1 str2 ends inside h = absurd (omega (arith, h))
terminated-decides zero i (suc fuel) str1 str2 ends inside h =
    let here : str1 i ≡ 0 = subst (λ (a : ℕ). str1 a ≡ 0) (omega arith) ends in
    elim (Bool-cases (str1 i == str2 i)) [
      | inl e ↦ inl (
        rw (e, eq→eqb (str1 i) 0 here),
        λ k l. subst (λ (a : ℕ). str1 a ≡ str2 a) (omega (arith, l)) (eqb→eq (str1 i) (str2 i) e),
      )
      | inr e ↦ inr (
        rw e,
        (
          0,
          omega arith,
          λ g. not_eqb→ne (str1 i) (str2 i) e (subst (λ (a : ℕ). str1 a ≡ str2 a) (omega arith) g),
        ),
      )
    ]
terminated-decides (suc n) i (suc fuel) str1 str2 ends inside h =
    let more : str1 i ≢ 0 = subst (λ (a : ℕ). str1 a ≢ 0) (omega arith) (inside 0 (omega arith)) in
    elim (Bool-cases (str1 i == str2 i)) [
      | inl e ↦
          elim (terminated-decides n (i + 1) fuel str1 str2
            (subst (λ (a : ℕ). str1 a ≡ 0) (omega arith) ends)
            (λ k l. subst (λ (a : ℕ). str1 a ≢ 0) (omega arith) (inside (k + 1) (omega (arith, l))))
            (omega (arith, h))) [
              | inl (runs, same) ↦ inl (
                rw (e, ne→not_eqb (str1 i) 0 more, runs),
                λ k l. elim (split_first k (n + 1) (omega (arith, l))) [
                  | inl z ↦
                      subst (λ (a : ℕ). str1 a ≡ str2 a) (omega arith) (eqb→eq (str1 i) (str2 i) e)
                  | inr (k', z, l') ↦ subst (λ (a : ℕ). str1 a ≡ str2 a) (omega arith) (same k' l')
                ],
              )
              | inr (runs, (k, l, ne)) ↦ inr (
                rw (e, ne→not_eqb (str1 i) 0 more, runs),
                (k + 1, omega arith, λ g. ne (subst (λ (a : ℕ). str1 a ≡ str2 a) (omega arith) g)),
              )
            ]
      | inr e ↦ inr (
        rw e,
        (
          0,
          omega arith,
          λ g. not_eqb→ne (str1 i) (str2 i) e (subst (λ (a : ℕ). str1 a ≡ str2 a) (omega arith) g),
        ),
      )
    ]

-- `strcmp` of length 0, whose first string ends at its first zero byte `n`, stops there with fuel
-- above `n`, and answers 1 exactly if the strings have the same bytes up to that terminator, which
-- is included.
pub strcmp-terminated :
    (fuel n : ℕ) (str1 str2 : ℕ → ℕ)
    → str1 n ≡ 0
    → ((k : ℕ) → k < n → str1 k ≢ 0)
    → n < fuel
    → ((strcmp fuel str1 str2 0 ≡ some true) × SameFrom 0 (n + 1) str1 str2)
      ⊎ ((strcmp fuel str1 str2 0 ≡ some false)
          × ((k : ℕ) × (k < n + 1) × (str1 (0 + k) ≢ str2 (0 + k))))
unfolding strcmp
strcmp-terminated fuel n str1 str2 ends inside h =
    terminated-decides n 0 fuel str1 str2 (subst (λ (a : ℕ). str1 a ≡ 0) (omega arith) ends)
      (λ k l. subst (λ (a : ℕ). str1 a ≢ 0) (omega arith) (inside k l)) h

-- where `strcmp` answers 1, the bytes are the same
pub SameFrom-of :
    (n i : ℕ) (str1 str2 : ℕ → ℕ) → strcmp_from n i str1 str2 ≡ true → SameFrom i n str1 str2
SameFrom-of n i str1 str2 same = elim (strcmp_from-decides n i str1 str2) [
  | inl v ↦ v.1
  | inr v ↦ absurd (true≢false (sym same ∙ v.0))
]
