-- ===== src/Text/Font.antt =====
-- `set_font` of kernel/video/text.c.
use black_diamond_os.Prelude.{
  ℕ, ◌<◌, ◌≡◌, ◌≢◌, ◌⊎◌, inl, inr, ◌==◌, Bool-cases, eqb→eq, not_eqb→ne, ne→not_eqb, arith,
}
use black_diamond_os.Machine.{done}
use black_diamond_os.Text.{Text, header_at, set_font, load_font}

-- `set_font` of a pointer that is not null either answers 1, and that font is then the active one,
-- when its magic number is that of PSF version 2 and its flags are not 0; or it answers 0 and
-- changes nothing, when the magic number differs or the flags are 0.
pub set_font-cases :
    (p : ℕ) (s : Text)
    → 0 < p
    → ((set_font p s ≡ done 1 (record s { active_font = p }))
        × ((header_at s.bytes p).magic ≡ 0x864AB572)
        × ((header_at s.bytes p).flags ≢ 0))
      ⊎ ((set_font p s ≡ done 0 s)
          × (((header_at s.bytes p).magic ≢ 0x864AB572) ⊎ ((header_at s.bytes p).flags ≡ 0)))
unfolding set_font load_font
set_font-cases p s pos =
    let h = header_at s.bytes p in
    let null = ne→not_eqb p 0 (omega (arith, pos)) in
    elim (Bool-cases (h.magic == 0x864AB572)) [
      | inl good ↦ elim (Bool-cases (h.flags == 0)) [
        | inl none ↦ inr (rw (null, good, none), inr (eqb→eq h.flags 0 none))
        | inr some_flag ↦ inl (
          rw (null, good, some_flag),
          eqb→eq h.magic 0x864AB572 good,
          not_eqb→ne h.flags 0 some_flag,
        )
      ]
      | inr bad ↦ inr (rw (null, bad), inl (not_eqb→ne h.magic 0x864AB572 bad))
    ]
