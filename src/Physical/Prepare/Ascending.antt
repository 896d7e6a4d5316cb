-- ===== src/Physical/Prepare/Ascending.antt =====
-- On a memory map in ascending order `prep_mem` builds the block list.
use black_diamond_os.Prelude.{
  ℕ, zero, suc, ◌+◌, ◌-◌, ◌<◌, ◌≡◌, sym, ap, ◌∙◌, Bool, false, ◌||◌, List, [], ◌∷◌, ◌++◌, length,
  arith, ◌==◌, if◌then◌else◌, ne→not_eqb, eq→eqb, lt→ltb, le→not_ltb,
}
use black_diamond_os.Machine.{Memory, update, done}
use black_diamond_os.Physical.{Block, Phys, header_size, lead_sig_value, trail_sig_value}
use black_diamond_os.Physical.Access.{load-done, store-done}
use black_diamond_os.Physical.Regions.{Region, end_of, Spaced}
use black_diamond_os.Physical.Chain.{Linked, Represents, last_of, Spaced-lt}
use black_diamond_os.Physical.Split.{last-above}
use black_diamond_os.Physical.Prepare.{MmapEntry, alignment_of, usable, find_before, link}

-- the region that an entry becomes
unfoldable pub region_of : MmapEntry → Region
region_of e = record {
  addr = e.address + alignment_of e.address;
  size = 0;
  free = e.length - header_size - alignment_of e.address;
}

-- the usable regions before the end mark
unfoldable pub regions_of : List MmapEntry → List Region
regions_of [] = []
regions_of (e ∷ es) =
    let rest = regions_of es in
    if e.address == 0x55AA then [] else if usable e then region_of e ∷ rest else rest

unfoldable pub has_end : List MmapEntry → Bool
has_end [] = false
has_end (e ∷ es) = e.address == 0x55AA || has_end es

pub last-lt :
    (lo : ℕ) (r : Region) (rs : List Region) (x : Region)
    → Spaced lo (r ∷ rs ++ (x ∷ []))
    → last_of r.addr rs < x.addr
last-lt lo r [] x sp = omega arith
last-lt lo r (q ∷ qs) x sp = last-lt (end_of r) q qs x sp.2

pub head-lt :
    (lo : ℕ) (r : Region) (rs : List Region) (x : Region)
    → Spaced lo (r ∷ rs ++ (x ∷ []))
    → r.addr < x.addr
head-lt lo r [] x sp = omega arith
head-lt lo r (q ∷ qs) x sp = omega (arith, head-lt (end_of r) q qs x sp.2)

pub Spaced-front :
    (lo : ℕ) (rs : List Region) (x : Region) → Spaced lo (rs ++ (x ∷ [])) → Spaced lo rs
Spaced-front lo [] x sp = omega (arith, Spaced-lt (end_of x) [] sp.2)
Spaced-front lo (r ∷ rs) x sp = (sp.0, sp.1, Spaced-front (end_of r) rs x sp.2)

-- The walk from a block of the list ends at the last one, if the new block lies above them all.
find_before-last :
    (fuel prev lo : ℕ) (s : Phys) (r : Region) (rs : List Region) (x : Region)
    → Linked s.blocks prev (r ∷ rs) 0
    → Spaced lo (r ∷ rs ++ (x ∷ []))
    → length rs < fuel
    → find_before fuel x.addr r.addr s ≡ done (last_of r.addr rs) s
unfolding find_before
find_before-last zero prev lo s r rs x l sp h = absurd (omega arith)
find_before-last (suc fuel) prev lo s r [] x l sp h = rw (load-done r.addr s sp.1, l.0)
find_before-last (suc fuel) prev lo s r (q ∷ qs) x l sp h =
    rw
      (
        load-done r.addr s sp.1,
        l.0,
        ne→not_eqb q.addr 0 (omega (arith, sp.2)),
        lt→ltb q.addr x.addr (head-lt (end_of r) q qs x sp.2),
      )
      (find_before-last fuel r.addr (end_of r) s q qs x l.1 sp.2 (omega arith))

-- The last header of a chain is the only one that names what follows the chain.
pub relink_end :
    (m m' : Memory Block) (prev lo b : ℕ) (r : Region) (rs : List Region)
    → Linked m prev (r ∷ rs) 0
    → Spaced lo (r ∷ rs)
    → last_of r.addr rs < b
    → ((a : ℕ) → a < last_of r.addr rs → m' a ≡ m a)
    → m' (last_of r.addr rs) ≡ record (m (last_of r.addr rs)) { next = b }
    → Linked m' prev (r ∷ rs) b
relink_end m m' prev lo b r [] l sp h same end = (end ∙ rw l.0, tt)
relink_end m m' prev lo b r (q ∷ qs) l sp h same end = (
  same r.addr (omega (arith, last-above (end_of r) q qs sp.2)) ∙ l.0,
  relink_end m m' r.addr (end_of r) b q qs l.1 sp.2 h same end,
)

-- the block that is being linked, before its last four fields are written
abbrev pub unsigned : Block → ℕ → Block
unsigned b prev = record b { next = 0; prev = prev }

abbrev pub finish : Region → Block → Block
finish x b = record b {
  lead_sig = lead_sig_value;
  trail_sig = trail_sig_value;
  size = x.size;
  free_mem_following = x.free;
}

-- memory after `x` was linked behind the block at `last`
abbrev pub appended : Memory Block → ℕ → Region → Memory Block
appended m last x =
    let m₁ = update m x.addr (record (m x.addr) { prev = last }) in
    let m₂ = update m₁ x.addr (record (m₁ x.addr) { next = 0 }) in
    update m₂ last (record (m₂ last) { next = x.addr })

pub link_first :
    (fuel : ℕ) (s : Phys) (x : Region)
    → s.first_block ≡ 0
    → 0 < x.addr
    → link fuel x.addr s
      ≡ done tt (record {
        blocks = update s.blocks x.addr (unsigned (s.blocks x.addr) 0);
        first_block = x.addr;
        final_block = x.addr;
      })
unfolding link
link_first fuel s x e pos = rw (e, store-done x.addr _ pos)

pub link_last :
    (fuel : ℕ) (s : Phys) (r : Region) (rs : List Region) (x : Region)
    → Represents s (r ∷ rs)
    → Spaced 0 (r ∷ rs ++ (x ∷ []))
    → length rs < fuel
    → link fuel x.addr s
      ≡ done tt
          (record s { blocks = appended s.blocks (last_of r.addr rs) x; final_block = x.addr })
unfolding link
link_last fuel s r rs x v sp h =
    let last = last_of r.addr rs in
    let low = last-lt 0 r rs x sp in
    let pos : 0 < x.addr = omega arith in
    let pos_last : 0 < last =
      omega (arith, last-above r.addr r rs (omega arith, v.spaced.1, v.spaced.2)) in
    let walk : find_before fuel x.addr s.first_block s ≡ done last s =
      ap (λ (a : ℕ). find_before fuel x.addr a s) v.first
      ∙ find_before-last fuel 0 0 s r rs x v.linked sp h in
    rw
      (
        ne→not_eqb s.first_block 0 (omega arith),
        le→not_ltb x.addr s.first_block (omega (arith, head-lt 0 r rs x sp)),
        walk,
      )
      (rw (store-done x.addr _ pos, eq→eqb last s.final_block (sym v.final))
        (rw (store-done x.addr _ pos) (rw (store-done last _ pos_last))))
