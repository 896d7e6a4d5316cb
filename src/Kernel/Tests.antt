-- ===== src/Kernel/Tests.antt =====
-- The start of the memory at a concrete memory map.
use black_diamond_os.Prelude.{
  ℕ, ◌+◌, ◌-◌, ◌<◌, ◌≡◌, refl, List, [], ◌∷◌, length, arith, true, subst, sym, ◌⊎◌,
}
use black_diamond_os.Machine.{done, panic}
use black_diamond_os.Physical.{round_size}
use black_diamond_os.Physical.Regions.{Region, All, Spaced}
use black_diamond_os.Physical.Prepare.{MmapEntry}
use black_diamond_os.Physical.Prepare.Ascending.{region_of, regions_of, has_end}
use black_diamond_os.Heap.Fixture.{empty}
use black_diamond_os.Video.{Framebuffer}
use black_diamond_os.Kernel.{Kernel, start_memory}
use black_diamond_os.Kernel.Start.{with_kernel, kheap_size, Started, start_memory-Started}

abbrev screen : Framebuffer
screen = record { address = 0xFD000000; pixel_width = 640; pixel_height = 480 }

abbrev booted : Kernel
booted = record {
  serial = record { bytes = λ _. 0; writes = []; line_status = λ _. 0x20; reads = 0 };
  heap = empty;
  text = record {
    video = record {
      front_buffer = screen;
      front_buffer_width_bytes = 2560;
      back_buffer = screen;
      active_buffer = screen;
      pixels = λ _. 0;
    };
    bytes = λ _. 0;
    active_font = 0;
    background_colour = 0;
    foreground_colour = 0;
  };
  acpi = record { bytes = λ _. 0; madt = 0; lapic = 0 };
  kheap = 0;
}

abbrev entry : ℕ → ℕ → ℕ → MmapEntry
entry address length type = record {
  address = address;
  length = length;
  type = type;
  attributes = 0;
}

-- low memory, the region of the kernel, a reserved region, one of 112 MB, the end mark
abbrev mmap : List MmapEntry
mmap =
    entry 0 0x9FC00 1
    ∷ entry 0x100000 0x700000 1
    ∷ entry 0x800000 0x1000 2
    ∷ entry 0x1000000 0x7000000 1
    ∷ entry 0x55AA 0 0
    ∷ []

abbrev kernel_region : Region
kernel_region = record { addr = 0x100000; size = 0; free = 0x700000 - 48 }

abbrev large_region : Region
large_region = record { addr = 0x1000000; size = 0; free = 0x7000000 - 48 }

regions_of-mmap : regions_of mmap ≡ kernel_region ∷ large_region ∷ []
unfolding regions_of region_of
regions_of-mmap = refl

mmap-has_end : has_end mmap ≡ true
unfolding has_end
mmap-has_end = refl

start_memory-Started_example :
    ((s : Kernel) × (start_memory 6 mmap 0x100060 0x20000 booted ≡ done tt s)
      × Started (with_kernel [] kernel_region (large_region ∷ []) 0x20000) booted s)
    ⊎ ((start_memory 6 mmap 0x100060 0x20000 booted
          ≡ panic "not enough memory to create a kernel heap")
        × All
            (λ (q : Region). q.free < round_size kheap_size)
            (with_kernel [] kernel_region (large_region ∷ []) 0x20000))
start_memory-Started_example =
    start_memory-Started 6 mmap booted (refl, refl) mmap-has_end
      (subst (λ l. Spaced 0 l) (sym regions_of-mmap) (omega arith))
      (subst (λ (l : List Region). length l + 1 < 6) (sym regions_of-mmap) (omega arith)) []
      kernel_region (large_region ∷ []) 0x20000 regions_of-mmap (omega arith) (omega arith)
