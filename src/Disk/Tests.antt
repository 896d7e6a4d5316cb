-- ===== src/Disk/Tests.antt =====
-- Examples of kernel/disk/disk.c: a heap of 10000 bytes at 1000.
use black_diamond_os.Prelude.{ℕ, ◌≡◌, ◌≢◌, refl, [], ◌∷◌, arith}
use black_diamond_os.Machine.{done}
use black_diamond_os.Heap.Fixture.{empty, after_malloc, takes}
use black_diamond_os.Disk.{Disks, make_disk}
use black_diamond_os.Disk.Registry.{Holds, id_behind, make_disk-Holds}

-- one disk at 64, with the identifier 0
abbrev one : Disks
one = record {
  heap = empty;
  disks = λ _. record { id = 0; type = 0; size = 7; driver_data = 0; next = 0 };
  first_disk = 64;
}

make_disk-Holds_example :
    (s' : Disks) × (make_disk 9 one ≡ done 1112 s')
    × Holds s' (64 ∷ 1112 ∷ [])
    × ((s'.disks 1112).id ≡ id_behind 1)
    × ((q : ℕ) → 1112 ≢ q → (s'.disks q).id ≡ (one.disks q).id)
make_disk-Holds_example =
    make_disk-Holds 9 1112 one (after_malloc 32) (64 ∷ []) takes.2 (omega arith)
      ((refl, omega arith, refl), (tt, tt)) (omega arith, tt) (omega arith)
