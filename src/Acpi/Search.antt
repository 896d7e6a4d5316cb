-- ===== src/Acpi/Search.antt =====
-- `_check_rsdp` and `init_acpi` of kernel/acpi/acpi.c.
use black_diamond_os.Prelude.{
  ℕ, zero, suc, ◌+◌, ◌*◌, ◌%◌, ◌<◌, ◌≡◌, ◌⊎◌, refl, subst, inl, inr, true, false, Bool, Bool-cases,
  ◌==◌, eqb→eq, not_eqb→ne, if◌then◌else◌, arith,
}
use black_diamond_os.Machine.{
  read_u32, read_u64, Outcome, done, panic, fault, stuck, and_then, Memory, Proc, pure, ◌>>◌,
}
use black_diamond_os.Utils.{strcmp_from}
use black_diamond_os.Utils.Strings.{SameFrom, strcmp_from-decides}
use black_diamond_os.Acpi.{
  Acpi, rsdp_size, rsdp_signature, calc_checksum, enumerate_tables, check_rsdp, search_rsdp,
}
use black_diamond_os.Acpi.Checksum.{sum_of, calc_checksum-sum_of}

-- A root pointer: the signature, a good checksum, and, if it is not of revision 0, a good checksum
-- of the whole structure.
abbrev pub IsRsdp : Memory ℕ → ℕ → Type 0
IsRsdp m p =
    SameFrom 0 8 (λ k. m (p + k)) rsdp_signature
    × (sum_of 20 m p % 0x100 ≡ 0)
    × ((m (p + 15) ≡ 0) ⊎ (sum_of rsdp_size m p % 0x100 ≡ 0))

-- the tables that a root pointer names: those of the RSDT for revision 0, or else of the XSDT
abbrev pub tables_of : ℕ → ℕ → Proc Acpi (Unit {0})
tables_of fuel p = λ s.
    if s.bytes (p + 15) == 0
    then enumerate_tables fuel (read_u32 s.bytes (p + 16)) false s
    else enumerate_tables fuel (read_u64 s.bytes (p + 24)) true s

strcmp-yes : (a b : ℕ → ℕ) (n : ℕ) → SameFrom 0 n a b → strcmp_from n 0 a b ≡ true
strcmp-yes a b n same = elim (strcmp_from-decides n 0 a b) [
  | inl v ↦ v.0
  | inr v ↦ absurd (v.1.2 (same (v.1.0) (v.1.1)))
]

check_rsdp-reject :
    (fuel p : ℕ) (s : Acpi) → ¬ IsRsdp s.bytes p → check_rsdp fuel p s ≡ done false s
unfolding check_rsdp
check_rsdp-reject fuel p s bad =
    let m = s.bytes in
    elim (strcmp_from-decides 8 0 (λ k. m (p + k)) rsdp_signature) [
      | inr v ↦ rw (v.0)
      | inl v ↦ elim (Bool-cases (calc_checksum m p 20)) [
        | inr c ↦ rw (v.0, c)
        | inl c ↦ elim (Bool-cases (m (p + 15) == 0)) [
          | inl r ↦
              absurd (bad (v.1, (calc_checksum-sum_of m p 20).0 c, inl (eqb→eq (m (p + 15)) 0 r)))
          | inr r ↦ elim (Bool-cases (calc_checksum m p rsdp_size)) [
            | inl d ↦ absurd (
                bad (
                  v.1,
                  (calc_checksum-sum_of m p 20).0 c,
                  inr ((calc_checksum-sum_of m p rsdp_size).0 d),
                ))
            | inr d ↦ rw (v.0, c, r, d)
          ]
        ]
      ]
    ]

check_rsdp-accept :
    (fuel p : ℕ) (s : Acpi)
    → IsRsdp s.bytes p
    → check_rsdp fuel p s ≡ (tables_of fuel p >> pure true) s
unfolding check_rsdp
check_rsdp-accept fuel p s ok =
    let m = s.bytes in
    let sig = strcmp-yes (λ k. m (p + k)) rsdp_signature 8 (ok.0) in
    let short = (calc_checksum-sum_of m p 20).1 (ok.1) in
    elim (Bool-cases (m (p + 15) == 0)) [
      | inl r ↦ rw (sig, short, r)
      | inr r ↦ elim (ok.2) [
        | inl z ↦ absurd (not_eqb→ne (m (p + 15)) 0 r z)
        | inr l ↦ rw (sig, short, r, (calc_checksum-sum_of m p rsdp_size).1 l)
      ]
    ]

-- no candidate among `n`, 16 bytes apart
abbrev pub NoneAmong : ℕ → ℕ → Memory ℕ → Type 0
NoneAmong n p m = (k : ℕ) → k < n → ¬ IsRsdp m (p + 16 * k)

NoneAmong-tail : (n p : ℕ) (m : Memory ℕ) → NoneAmong (suc n) p m → NoneAmong n (p + 16) m
NoneAmong-tail n p m none k l =
    subst (λ (a : ℕ). ¬ IsRsdp m a) (omega arith) (none (k + 1) (omega (arith, l)))

NoneAmong-head : (n p : ℕ) (m : Memory ℕ) → NoneAmong (suc n) p m → ¬ IsRsdp m p
NoneAmong-head n p m none = subst (λ (a : ℕ). ¬ IsRsdp m a) (omega arith) (none 0 (omega arith))

pub search_rsdp-none :
    (n p fuel : ℕ) (s : Acpi) → NoneAmong n p s.bytes → search_rsdp n p fuel s ≡ done false s
unfolding search_rsdp
search_rsdp-none zero p fuel s none = refl
search_rsdp-none (suc n) p fuel s none =
    rw (check_rsdp-reject fuel p s (NoneAmong-head n p s.bytes none))
      (search_rsdp-none n (p + 16) fuel s (NoneAmong-tail n p s.bytes none))

-- what follows a search that found something
pub found_then :
    {B : Type 0} (o : Outcome Acpi (Unit {0})) (k : Bool → Proc Acpi B)
    → and_then (and_then o (λ _. pure true)) k ≡ and_then o (λ _. k true)
found_then (done a s) k = refl
found_then (panic msg) k = refl
found_then fault k = refl
found_then stuck k = refl

pub search_rsdp-first :
    (n p fuel j : ℕ) (s : Acpi)
    → j < n
    → NoneAmong j p s.bytes
    → IsRsdp s.bytes (p + 16 * j)
    → search_rsdp n p fuel s ≡ (tables_of fuel (p + 16 * j) >> pure true) s
unfolding search_rsdp
search_rsdp-first zero p fuel j s l none ok = absurd (omega (arith, l))
search_rsdp-first (suc n) p fuel zero s l none ok =
    let here : p + 16 * 0 ≡ p = omega arith in
    rw (here, check_rsdp-accept fuel p s (subst (λ (a : ℕ). IsRsdp s.bytes a) here ok))
      (found_then (tables_of fuel p s) _)
search_rsdp-first (suc n) p fuel (suc j) s l none ok =
    let there : p + 16 * suc j ≡ p + 16 + 16 * j = omega arith in
    rw (check_rsdp-reject fuel p s (NoneAmong-head j p s.bytes none), there)
      (search_rsdp-first n (p + 16) fuel j s (omega (arith, l)) (NoneAmong-tail j p s.bytes none)
        (subst (λ (a : ℕ). IsRsdp s.bytes a) there ok))
