-- ===== src/Lib.antt =====
-- BlackDiamondOS (HaematiteOS): a model of the parts of the kernel that manage memory, draw, find
-- the hardware and help the rest, and what holds of them. Paths are from the repository's root.
--
-- The parts and their files
-- * Physical, for kernel/mem/physical.c. The state `Phys` is what memory holds when read as a
--   `struct phys_mem_block` at each address, with the globals `phys_first_block` and
--   `phys_final_block`. `check_phys_block`, `make_new_block`, `phys_alloc` and `phys_free` are the
--   functions of those names; Physical/Prepare has `prep_mem`, Physical/Dump the dumps, and
--   Physical/Client the sequences of calls that clients make. The specification is a list of
--   `Region`s: a header's address, the bytes allocated and the bytes free behind them; `Represents`
--   says that the headers in memory form the doubly linked list of those regions, in ascending order.
-- * Heap, for kernel/mem/heap.c: `heap_init`, `set_active_heap`, `make_cache` and `make_slab`;
--   Heap/Malloc has `malloc` and `cmalloc`, Heap/Free `free` and Heap/Dump `dump_heap`. A request
--   above 4096 bytes, and a pointer that no slab holds, go to the physical memory manager, which is
--   part of the state.
-- * Video, for kernel/video/framebuffer.c, kernel/video/drawing.c and `composite_buffer` of
--   kernel/video/processing.c: `get_linear_address`, `put_pixel`, `get_pixel`, `put_rect` and
--   `swap_bufs` over a memory of pixels. Video/Scale has `scale_buffer`, whose quotients in 32-bit
--   floating point are an argument.
-- * Targa, for `put_targa` and `get_targa_size` of kernel/video/processing.c: the image is a memory
--   of bytes apart from the framebuffers, into which its pixels go through `put_pixel`. The loops
--   that the code repeats in its cases are written once, with the reads of a case as arguments.
-- * Text, for kernel/video/text.c: `set_font`, the colours, `put_char` and `put_str`, which write
--   their pixels without the clipping of `put_pixel`.
-- * Acpi, for kernel/acpi/acpi.c and kernel/acpi/madt.c: `init_acpi` with the functions that it
--   calls, over a memory of bytes.
-- * Pci, for kernel/core/pci.c: the configuration ports, the accessors and the enumeration, which
--   takes its memory from the heap.
-- * Disk, for kernel/disk/disk.c: `make_disk` and `get_disk` over the list of disks, whose memory
--   comes from the heap.
-- * Ahci, for kernel/disk/ahci.c, over the PCI bus, the disks and the heap: Ahci/Command has
--   `send_cmd`, Ahci/Port `init_port`, and Ahci/Driver the controllers, the registration of disks,
--   and the functions of kernel/disk/disk.c that call the driver.
-- * Interrupts, for kernel/core/interrupts.c: the descriptor table, the masks of the interrupt
--   controllers, and `init_interrupts`.
-- * Serial, for kernel/core/serial.c: the port, `debug`, `debug_hex` and `debug_dec`. The other
--   files leave the calls of these out.
-- * Kernel, for kernel/core/kernel.c and `init_video` of kernel/video/framebuffer.c: `kmain`, which
--   starts the parts in order over the states of all of them, `draw_logo`, and in `draw_panic` what
--   `kpanic` draws. `start_memory` is the part of `kmain` up to the kernel's heap.
-- * Utils, for `itoa`, `strcmp` and `align` of kernel/core/utils.c.
-- * Machine has the monad in which routines are written, Prelude the names that all files share.
--
-- How the code is read
-- * A dump gives the list of what it prints: the strings, and the numbers with their base.
-- * A pointer is an address, 0 is null, and a structure stands at its address in a memory of
--   structures of its type; structures at different addresses do not overlap. A read or write
--   through null is the outcome `fault`. The reads of kernel/acpi/ go through addresses that the
--   firmware gives, and do not fault.
-- * Machine integers are natural numbers; `u8`, `u16`, `u32` and `u64` cut a result to its width
--   where the code can go beyond it, and a subtraction adds the modulus first. Addresses of pixels
--   and of slab objects are not cut.
-- * `kpanic` and `serial_kpanic` end a run with the outcome `panic` and their message.
-- * A loop over a list in memory, or to a condition, takes fuel and ends in `stuck` without it. The
--   theorems ask for fuel above the number of blocks, caches, slabs, objects or entries walked, and
--   show that this is enough. A loop with a counter recurses on its rounds.
-- * `memcpy`, `memset` and the ports are assembly: `memcpy` copies in ascending order. A 32-bit port
--   write sends what `outl` of kernel/core/ports.asm sends: the low half of the data, below the upper
--   half of eax, which the state gives for each write. The hardware behind the PCI ports answers a
--   read as a function of the address and of the writes so far. A read of the data port of an
--   interrupt controller gives the mask that was last written to it.
-- * The region descriptor of an AHCI command is written both as a structure and as its bytes, since a
--   long command reaches into it. The objects of a slab have at least 8 bytes, as `malloc` asks for,
--   so the pointers in free ones do not overlap.
-- * Where the code waits for hardware, the state says what the hardware answers at each time: the
--   line status that each read of the serial port gives, and how the registers of AHCI controllers
--   and ports change. The wait takes a bound on its reads, and its theorems ask that the hardware
--   answers within it.
--
-- Not modelled: the debug output of the files other than kernel/core/serial.c and the dumps; the
-- floating point of `scale_buffer` and `round`; the assembly but for `outl`; the boot loader.
pub mod Acpi
pub mod Ahci
pub mod Disk
pub mod Heap
pub mod Interrupts
pub mod Kernel
pub mod Machine
pub mod Pci
pub mod Physical
pub mod Prelude
pub mod Serial
pub mod Targa
pub mod Text
pub mod Utils
pub mod Video
