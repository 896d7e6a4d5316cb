-- ===== src/Physical/Integrity.antt =====
-- Overwritten headers: `_check_phys_block` stops the machine before the damage is used.
use Prim.Native.String.{String}
use black_diamond_os.Prelude.{
  ℕ, zero, suc, ◌+◌, ◌-◌, ◌<◌, ◌^◌, ◌≡◌, ap, ◌∙◌, false, List, [], ◌∷◌, length, arith, u64,
  ne→not_eqb,
}
use black_diamond_os.Machine.{panic}
use black_diamond_os.Physical.{
  Phys, header_size, intact, check_phys_block, scan, round_size, phys_alloc, phys_free,
}
use black_diamond_os.Physical.Access.{load-done, check-done}
use black_diamond_os.Physical.Regions.{Region, Spaced, end_of}
use black_diamond_os.Physical.Chain.{Linked, first_of}

abbrev pub overflow_message : String
overflow_message = "physical memory integrity validation failed - an overflow has occured"

check-panic :
    (p : ℕ) (s : Phys)
    → 0 < p
    → intact (s.blocks p) ≡ false
    → check_phys_block p s ≡ panic overflow_message
unfolding check_phys_block
check-panic p s pos bad = rw (load-done p s pos, bad)

-- `phys_free` of a pointer above 48 whose header lost a signature panics.
pub phys_free-panic :
    (ptr : ℕ) (s : Phys)
    → header_size < ptr
    → ptr < 2 ^ 64
    → intact (s.blocks (ptr - header_size)) ≡ false
    → phys_free ptr s ≡ panic overflow_message
unfolding phys_free
phys_free-panic ptr s pos h bad =
    let addr : u64 (ptr + 2 ^ 64 - header_size) ≡ ptr - header_size = omega arith in
    rw (addr, check-panic (ptr - header_size) s (omega arith) bad)

module _ (size bad : ℕ) (s : Phys) (pos : 0 < bad) (damaged : intact (s.blocks bad) ≡ false) where
  scan-panic :
      (fuel prev sel lo : ℕ) (rs : List Region)
      → Linked s.blocks prev rs bad
      → Spaced lo rs
      → length rs < fuel
      → scan fuel size (first_of rs bad) sel s ≡ panic overflow_message
  unfolding scan
  scan-panic zero prev sel lo rs l sp h = absurd (omega arith)
  scan-panic (suc fuel) prev sel lo [] l sp h =
      rw (ne→not_eqb bad 0 (omega arith), check-panic bad s pos damaged)
  scan-panic (suc fuel) prev sel lo (r ∷ rs) l sp h =
      let again = λ (sel' : ℕ). scan-panic fuel r.addr sel' (end_of r) rs l.1 sp.2 (omega arith) in
      rw (ne→not_eqb r.addr 0 (omega arith), check-done r.addr s sp.1 (rw l.0))
        (rw (load-done r.addr s sp.1, l.0) (again _))

-- Where the chain of blocks runs over intact headers to one that lost a signature, `phys_alloc`
-- panics, whatever it is asked for, with fuel above the number of blocks before that one.
pub phys_alloc-panic :
    (fuel size bad : ℕ) (s : Phys) (rs : List Region)
    → 0 < bad
    → intact (s.blocks bad) ≡ false
    → Linked s.blocks 0 rs bad
    → Spaced 0 rs
    → s.first_block ≡ first_of rs bad
    → length rs < fuel
    → phys_alloc fuel size s ≡ panic overflow_message
unfolding phys_alloc
phys_alloc-panic fuel size bad s rs pos damaged l sp first h =
    let stops : scan fuel (round_size size) s.first_block 0 s ≡ panic overflow_message =
      ap (λ (a : ℕ). scan fuel (round_size size) a 0 s) first
      ∙ scan-panic (round_size size) bad s pos damaged fuel 0 0 0 rs l sp h in
    rw stops
