-- ===== src/Physical/Prepare/Build.antt =====
-- The loop of `prep_mem` over a memory map in ascending order.
use black_diamond_os.Prelude.{
  ℕ, ◌+◌, ◌-◌, ◌^◌, ◌<◌, ◌≡◌, refl, sym, true, false, List, [], ◌∷◌, ◌++◌, length, arith, u64, ◌==◌,
  ne→not_eqb, eq→eqb,
}
use black_diamond_os.Machine.{update, done}
use black_diamond_os.Physical.{Phys, header_size}
use black_diamond_os.Physical.Access.{store-done}
use black_diamond_os.Physical.Regions.{Region, end_of, Spaced}
use black_diamond_os.Physical.Chain.{
  Linked-append, Represents, last_of, last_of-append, Spaced-split,
}
use black_diamond_os.Physical.Prepare.{MmapEntry, alignment_of, usable, link, add_region}
use black_diamond_os.Physical.Prepare.Ascending.{
  region_of, last-lt, relink_end, unsigned, finish, appended, link_first, link_last,
}

-- what `add_region` leaves, given what `link` left
pub add_region-link :
    (fuel : ℕ) (s s₁ : Phys) (e : MmapEntry)
    → usable e ≡ true
    → 0 < (region_of e).addr
    → end_of (region_of e) < 2 ^ 64
    → link fuel (region_of e).addr s ≡ done tt s₁
    → add_region fuel e s
      ≡ done tt (record s₁ {
        blocks =
            update s₁.blocks
              (region_of e).addr
              (finish (region_of e) (s₁.blocks (region_of e).addr));
      })
unfolding add_region region_of
add_region-link fuel s s₁ e ok pos bound l =
    let x = region_of e in
    let long : header_size + alignment_of e.address < e.length = ground arith in
    let addr_eq : u64 (e.address + alignment_of e.address) ≡ x.addr = omega arith in
    let free_eq : u64 (e.length + 2 ^ 64 - header_size + 2 ^ 64 - alignment_of e.address) ≡ x.free =
      omega arith in
    rw (ok, addr_eq, l) (rw (store-done x.addr s₁ pos, free_eq))

first_Represents :
    (s : Phys) (x : Region)
    → Spaced 0 (x ∷ [])
    → Represents
        (record {
          blocks =
              update
                (update s.blocks x.addr (unsigned (s.blocks x.addr) 0))
                x.addr
                (finish x (update s.blocks x.addr (unsigned (s.blocks x.addr) 0) x.addr));
          first_block = x.addr;
          final_block = x.addr;
        })
        (x ∷ [])
first_Represents s x sp = record {
  linked = (rw (eq→eqb x.addr x.addr refl), tt);
  first = refl;
  final = refl;
  spaced = sp;
}

last_Represents :
    (s : Phys) (r : Region) (rs : List Region) (x : Region)
    → Represents s (r ∷ rs)
    → Spaced 0 (r ∷ rs ++ (x ∷ []))
    → Represents
        (record s {
          blocks =
              update
                (appended s.blocks (last_of r.addr rs) x)
                x.addr
                (finish x (appended s.blocks (last_of r.addr rs) x x.addr));
          final_block = x.addr;
        })
        (r ∷ rs ++ (x ∷ []))
last_Represents s r rs x v sp =
    let last = last_of r.addr rs in
    let low = last-lt 0 r rs x sp in
    let other : (x.addr == last) ≡ false = ne→not_eqb _ _ (omega arith) in
    let other' : (last == x.addr) ≡ false = ne→not_eqb _ _ (omega arith) in
    record {
      linked =
          Linked-append _ 0 (r ∷ rs) x [] 0
            (relink_end s.blocks _ 0 0 x.addr r rs v.linked v.spaced low
              (λ a h. rw (ne→not_eqb a x.addr (omega arith), ne→not_eqb a last (omega arith)))
              (rw (other', eq→eqb last last refl)))
            (rw (eq→eqb x.addr x.addr refl, other), tt);
      first = v.first;
      final = sym (last_of-append 0 (r ∷ rs) (x ∷ []));
      spaced = sp;
    }

pub add_region-Represents :
    (fuel : ℕ) (s : Phys) (rs : List Region) (e : MmapEntry)
    → usable e ≡ true
    → Represents s rs
    → Spaced 0 (rs ++ (region_of e ∷ []))
    → length rs < fuel
    → (s' : Phys) × (add_region fuel e s ≡ done tt s') × Represents s' (rs ++ (region_of e ∷ []))
add_region-Represents fuel s [] e ok v sp h = (
  _,
  add_region-link fuel s _ e ok sp.1 sp.2 (link_first fuel s (region_of e) v.first sp.1),
  first_Represents s (region_of e) sp,
)
add_region-Represents fuel s (r ∷ rs) e ok v sp h =
    let (_, _, pos, above) = Spaced-split 0 (r ∷ rs) (region_of e) [] sp in
    (
      _,
      add_region-link fuel s _ e ok pos above
          (link_last fuel s r rs (region_of e) v sp (omega arith)),
      last_Represents s r rs (region_of e) v sp,
    )
