-- ===== src/Interrupts/Exceptions.antt =====
-- `exception_handler` of kernel/core/interrupts.c.
use Prim.Native.String.{String}
use black_diamond_os.Prelude.{
  ℕ, ◌≡◌, ◌≢◌, ◌⊎◌, inl, inr, refl, arith, ◌==◌, Bool-cases, eqb→eq, not_eqb→ne, ne→not_eqb, Bool,
  true, false, if◌then◌else◌,
}
use black_diamond_os.Machine.{done, panic, Outcome, Proc, kpanic}
use black_diamond_os.Interrupts.{Interrupts, exception_handler}

-- An outcome that ends the machine with a message.
abbrev pub IsPanic : Outcome Interrupts ℕ → Type 0
IsPanic o = (msg : String) × (o ≡ panic msg)

-- a test on the way to a panic
panics :
    (t : Bool) (msg : String) (rest : Proc Interrupts ℕ) (s : Interrupts)
    → IsPanic (rest s)
    → IsPanic ((if t then kpanic msg else rest) s)
panics true msg rest s v = (msg, refl)
panics false msg rest s v = v

-- `exception_handler` returns for the debug exception only, and panics for every other.
pub exception_handler-returns :
    (i : ℕ) (s : Interrupts)
    → ((i ≡ 1) × (exception_handler i s ≡ done 0 s)) ⊎ ((i ≢ 1) × IsPanic (exception_handler i s))
unfolding exception_handler
exception_handler-returns i s = elim (Bool-cases (i == 1)) [
  | inl h ↦ let is = eqb→eq i 1 h in inl (is, rw (ne→not_eqb i 0 (omega (arith, is)), h))
  | inr h ↦ inr (
    not_eqb→ne i 1 h,
    panics (i == 0) _ _ s (
        rw h (
          panics (i == 2) _ _ s (
            panics (i == 3) _ _ s (
              panics (i == 4) _ _ s (
                panics (i == 5) _ _ s (
                  panics (i == 6) _ _ s (
                    panics (i == 7) _ _ s (
                      panics (i == 8) _ _ s (
                        panics (i == 11) _ _ s (
                          panics (i == 12) _ _ s (
                            panics (i == 13) _ _ s (
                              panics (i == 14) _ _ s (
                                panics (i == 16) _ _ s
                                  (panics (i == 19) _ _ s (_, refl))))))))))))))),
  )
]
