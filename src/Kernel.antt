-- ===== src/Kernel.antt =====
-- The entry of the kernel, kernel/core/kernel.c, and `init_video` of kernel/video/framebuffer.c:
-- how the parts are started, and what a panic draws.
pub mod Start
mod Tests
use Prim.Native.String.{String}
use black_diamond_os.Prelude.{
  ℕ, zero, suc, ◌+◌, ◌-◌, ◌*◌, ◌/◌, ◌^◌, Bool, ◌&&◌, ◌||◌, List, u16, u32, leb, ltb, ◌==◌,
  if◌then◌else◌,
}
use black_diamond_os.Machine.{
  Outcome, done, panic, fault, stuck, read_u16, read_u32, Proc, Memory, pure, spin, kpanic, get,
  modify, ◌>>=◌, ◌>>◌,
}
use black_diamond_os.Physical.{phys_alloc}
use black_diamond_os.Physical.Prepare.{MmapEntry, prep_mem}
use black_diamond_os.Heap.{Heap, heap_init, set_active_heap}
use black_diamond_os.Heap.Malloc.{on_phys, malloc}
use black_diamond_os.Heap.Free.{free}
use black_diamond_os.Video.{
  Video, Framebuffer, set_active_buffer, get_screen_buffer, put_rect, composite_buffer, swap_bufs,
}
use black_diamond_os.Video.Scale.{scale_buffer}
use black_diamond_os.Targa.{get_targa_size, put_targa}
use black_diamond_os.Text.{
  Text, on_video, set_font, set_bg_colour, set_fg_colour, put_str, get_font_width, get_font_height,
}
use black_diamond_os.Acpi.{Acpi, init_acpi}
use black_diamond_os.Serial.{Serial, serial_init}

-- The states of the parts, and the global `kheap`.
pub record Kernel : Type 0 where
  pub serial : Serial
  pub heap : Heap
  pub text : Text
  pub acpi : Acpi
  pub kheap : ℕ

-- calls of the parts
abbrev pub resume_heap : {A : Type 0} → Kernel → Outcome Heap A → Outcome Kernel A
resume_heap s (done a h) = done a (record s { heap = h })
resume_heap s (panic msg) = panic msg
resume_heap s fault = fault
resume_heap s stuck = stuck

unfoldable pub on_heap : {A : Type 0} → Proc Heap A → Proc Kernel A
on_heap m s = resume_heap s (m s.heap)

abbrev pub resume_text : {A : Type 0} → Kernel → Outcome Text A → Outcome Kernel A
resume_text s (done a t) = done a (record s { text = t })
resume_text s (panic msg) = panic msg
resume_text s fault = fault
resume_text s stuck = stuck

unfoldable pub on_text : {A : Type 0} → Proc Text A → Proc Kernel A
on_text m s = resume_text s (m s.text)

abbrev pub resume_acpi : {A : Type 0} → Kernel → Outcome Acpi A → Outcome Kernel A
resume_acpi s (done a t) = done a (record s { acpi = t })
resume_acpi s (panic msg) = panic msg
resume_acpi s fault = fault
resume_acpi s stuck = stuck

unfoldable pub on_acpi : {A : Type 0} → Proc Acpi A → Proc Kernel A
on_acpi m s = resume_acpi s (m s.acpi)

abbrev pub resume_serial : {A : Type 0} → Kernel → Outcome Serial A → Outcome Kernel A
resume_serial s (done a t) = done a (record s { serial = t })
resume_serial s (panic msg) = panic msg
resume_serial s fault = fault
resume_serial s stuck = stuck

unfoldable pub on_serial : {A : Type 0} → Proc Serial A → Proc Kernel A
on_serial m s = resume_serial s (m s.serial)

abbrev pub on_screen : {A : Type 0} → Proc Video A → Proc Kernel A
on_screen m = on_text (on_video m)

-- what the boot loader left at `video_info`: the mode of the screen
abbrev pub front_of : Memory ℕ → ℕ → Framebuffer
front_of m video_info = record {
  address = read_u32 m (video_info + 40);
  pixel_width = read_u16 m (video_info + 18);
  pixel_height = read_u16 m (video_info + 20);
}

-- `memset` to 0 of the pixels of a buffer
abbrev pub cleared_pixels : Memory ℕ → Framebuffer → Memory ℕ
cleared_pixels m b q =
    if leb b.address q && ltb q (b.address + b.pixel_width * b.pixel_height * 4) then 0 else m q

-- the state of the video code with a back buffer at an address
abbrev pub with_screen : Video → Framebuffer → ℕ → ℕ → Video
with_screen v front line_bytes address =
    let back : Framebuffer = record front { address = address } in
    record {
      front_buffer = front;
      front_buffer_width_bytes = line_bytes;
      back_buffer = back;
      active_buffer = back;
      pixels = cleared_pixels v.pixels back;
    }

-- `init_video`, for a screen of less than 2^31 bytes, the range of the product's type; `fuel` bounds
-- the blocks of physical memory
unfoldable pub init_video : ℕ → ℕ → Proc Kernel (Unit {0})
init_video fuel video_info = do
  s ← get
  let front = front_of s.text.bytes video_info
  address ← on_heap (on_phys (phys_alloc fuel (front.pixel_width * front.pixel_height * 4)))
  if address == 0 then kpanic "not enough memory to create a double-buffer" else (do
    modify (λ t. record t {
      text = record t.text {
        video = with_screen t.text.video front (read_u16 t.text.bytes (video_info + 50)) address;
      };
    }))

-- the size of the logo on the screen: a fifth of the screen's shorter side
abbrev pub logo_side : Framebuffer → ℕ
logo_side screen =
    if ltb screen.pixel_height screen.pixel_width
    then screen.pixel_height / 5
    else screen.pixel_width / 5

-- `draw_logo`; `fuel` bounds the lists of the heap and the packets of the image
unfoldable pub draw_logo : (ℕ → ℕ → ℕ → ℕ) → ℕ → ℕ → Proc Kernel (Unit {0})
draw_logo sample fuel logo_ptr = do
  s ← get
  screen ← on_screen get_screen_buffer
  size ← on_screen (get_targa_size s.text.bytes logo_ptr)
  let side = logo_side screen
  logo_address ← on_heap (malloc fuel (u32 (size.pixel_width * size.pixel_height * 4)))
  resized_address ← on_heap (malloc fuel (u32 (side * side * 4)))
  let logo_buf : Framebuffer = record size { address = logo_address }
  let resized : Framebuffer = record {
    address = resized_address;
    pixel_width = side;
    pixel_height = side;
  }
  if logo_address == 0 || resized_address == 0
      then kpanic "not enough memory to load logo"
      else pure tt
  on_screen (set_active_buffer logo_buf)
  drawn ← on_screen (put_targa fuel s.text.bytes 0 0 logo_ptr)
  if drawn == 0 then kpanic "could not load logo" else pure tt
  on_screen (set_active_buffer screen)
  on_screen (scale_buffer sample resized logo_buf)
  on_screen (put_rect 0 0 screen.pixel_width screen.pixel_height 0x007D8CA3)
  on_screen (
      composite_buffer resized (screen.pixel_width / 2 - side / 2)
        (screen.pixel_height / 2 - side / 2))
  on_screen swap_bufs
  on_heap (free fuel logo_address)
  on_heap (free fuel resized_address)

-- the memory of `kmain`: the physical memory, and the kernel's heap in it
unfoldable pub start_memory : ℕ → List MmapEntry → ℕ → ℕ → Proc Kernel (Unit {0})
start_memory fuel mmap kernel kernel_size = do
  on_heap (on_phys (prep_mem fuel mmap kernel kernel_size))
  kheap ← on_heap (on_phys (phys_alloc fuel 32000000))
  modify (λ s. record s { kheap = kheap })
  if kheap == 0 then kpanic "not enough memory to create a kernel heap" else pure tt
  on_heap (set_active_heap kheap)
  on_heap (heap_init 32000000)

-- `kmain`, where `logo` and `font` are the places of the two in the kernel. It ends in a loop
-- without end, so the calls behind it never run. The debug output is left out.
unfoldable pub kmain :
    (ℕ → ℕ → ℕ → ℕ) → ℕ → ℕ → ℕ → ℕ → List MmapEntry → ℕ → ℕ → Proc Kernel (Unit {0})
kmain sample fuel logo font video_info mmap kernel_size kernel = do
  on_serial serial_init
  start_memory fuel mmap kernel kernel_size
  init_video fuel video_info
  draw_logo sample fuel (logo + kernel)
  ok ← on_text (set_font (font + kernel))
  if ok == 0
      then kpanic "font not supported (must not be Unicode, and must be PSF version 2)"
      else pure tt
  on_acpi (init_acpi fuel)
  spin

-- What `kpanic` draws before it halts: the message at `str` behind the one at `title`, in a box of
-- 350 by 350 pixels at `kheap`, which is scaled up and shown in a frame.
unfoldable pub draw_panic : (ℕ → ℕ → ℕ → ℕ) → ℕ → ℕ → ℕ → Proc Kernel (Unit {0})
draw_panic sample fuel title str = do
  s ← get
  screen ← on_screen get_screen_buffer
  let w = screen.pixel_width
  let h = screen.pixel_height
  on_screen (set_active_buffer screen)
  on_screen (
      put_rect (w / 10 - w / 100) (h / 10 - h / 100) (w / 10 * 8 + w / 50) (h / 10 * 8 + h / 50)
        0x00FF0000)
  on_screen (put_rect (w / 10) (h / 10) (w / 10 * 8) (h / 10 * 8) 0)
  let box : Framebuffer = record { address = s.kheap; pixel_width = 350; pixel_height = 350 }
  on_screen (set_active_buffer box)
  on_screen (put_rect 0 0 350 350 0)
  on_text (set_bg_colour 0xFF000000)
  on_text (set_fg_colour 0x00FF0000)
  font_width ← on_text get_font_width
  font_height ← on_text get_font_height
  on_text (put_str fuel title (u16 font_width) (u16 font_height) 350)
  on_text (put_str fuel str (u16 font_width) (u16 (u32 (font_height * 3))) 350)
  let scaled : Framebuffer = record {
    address = s.kheap + 350 * 350 * 4;
    pixel_width = w / 10 * 8;
    pixel_height = h / 10 * 8;
  }
  on_screen (scale_buffer sample scaled box)
  on_screen (set_active_buffer screen)
  on_screen (composite_buffer scaled (w / 10) (h / 10))
  on_screen swap_bufs
