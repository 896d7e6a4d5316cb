-- ===== src/Video.antt =====
-- Drawing into the active framebuffer, kernel/video/framebuffer.c and kernel/video/drawing.c, and
-- `composite_buffer` of kernel/video/processing.c.
pub mod Pixels
pub mod Rectangle
pub mod Clip
pub mod Swap
pub mod Scale
pub mod Sampled
mod Tests
use black_diamond_os.Prelude.{
  ℕ, zero, suc, ◌+◌, ◌*◌, Bool, true, false, ◌||◌, u16, u32, u64, leb, ◌==◌, if◌then◌else◌,
}
use black_diamond_os.Machine.{Proc, Memory, update, pure, crash, get, modify, ◌>>=◌, ◌>>◌}

-- `struct framebuffer`
pub record Framebuffer : Type 0 where
  pub address : ℕ
  pub pixel_width : ℕ
  pub pixel_height : ℕ

-- The globals of framebuffer.c, and the pixel that memory holds at each address.
pub record Video : Type 0 where
  pub front_buffer : Framebuffer
  pub front_buffer_width_bytes : ℕ
  pub back_buffer : Framebuffer
  pub active_buffer : Framebuffer
  pub pixels : Memory ℕ

-- Reads and writes through a pointer to a pixel fault at null.
unfoldable pub load_pixel : ℕ → Proc Video ℕ
load_pixel p = if p == 0 then crash else λ s. pure (s.pixels p) s

unfoldable pub store_pixel : ℕ → ℕ → Proc Video (Unit {0})
store_pixel p colour =
    if p == 0 then crash else modify (λ s. record s { pixels = update s.pixels p colour })

unfoldable pub set_active_buffer : Framebuffer → Proc Video (Unit {0})
set_active_buffer buf = modify (λ s. record s { active_buffer = buf })

abbrev pub get_active_buffer : Proc Video Framebuffer
get_active_buffer = λ s. pure s.active_buffer s

abbrev pub get_screen_buffer : Proc Video Framebuffer
get_screen_buffer = λ s. pure s.back_buffer s

-- the address of a pixel of a buffer
abbrev pub pixel_at : Framebuffer → ℕ → ℕ → ℕ
pixel_at b x y = b.address + 4 * (y * b.pixel_width + x)

-- `get_linear_address`: null outside the active buffer
unfoldable pub get_linear_address : ℕ → ℕ → Proc Video ℕ
get_linear_address x y = do
  s ← get
  if leb s.active_buffer.pixel_width x || leb s.active_buffer.pixel_height y
      then pure 0
      else pure (pixel_at s.active_buffer x y)

unfoldable pub put_pixel : ℕ → ℕ → ℕ → Proc Video Bool
put_pixel x y colour = do
  pixel ← get_linear_address x y
  if pixel == 0 then pure false else do store_pixel pixel colour; pure true

unfoldable pub get_pixel : ℕ → ℕ → Proc Video ℕ
get_pixel x y = do pixel ← get_linear_address x y; load_pixel pixel

-- the inner loop of `put_rect`, with `rounds` rounds left
unfoldable pub put_row : ℕ → ℕ → ℕ → ℕ → Proc Video (Unit {0})
put_row zero j base colour = pure tt
put_row (suc rounds) j base colour = do
  store_pixel (base + 4 * j) colour
  put_row rounds (j + 1) base colour

-- the outer loop of `put_rect`
unfoldable pub put_rows : ℕ → ℕ → ℕ → ℕ → Proc Video (Unit {0})
put_rows zero width base colour = pure tt
put_rows (suc rounds) width base colour = do
  put_row width 0 base colour
  s ← get
  put_rows rounds width (base + 4 * s.active_buffer.pixel_width) colour

unfoldable pub put_rect : ℕ → ℕ → ℕ → ℕ → ℕ → Proc Video (Unit {0})
put_rect x y width height colour = do
  base ← get_linear_address x y
  put_rows height width base colour

-- the inner loop of `composite_buffer`
unfoldable pub composite_row : ℕ → ℕ → ℕ → Framebuffer → ℕ → ℕ → Proc Video (Unit {0})
composite_row zero j i src x y = pure tt
composite_row (suc rounds) j i src x y = do
  colour ← load_pixel (pixel_at src j i)
  _ ← put_pixel (u16 (j + x)) (u16 (i + y)) colour
  composite_row rounds (j + 1) i src x y

-- the outer loop of `composite_buffer`
unfoldable pub composite_rows : ℕ → ℕ → Framebuffer → ℕ → ℕ → Proc Video (Unit {0})
composite_rows zero i src x y = pure tt
composite_rows (suc rounds) i src x y = do
  composite_row src.pixel_width 0 i src x y
  composite_rows rounds (i + 1) src x y

unfoldable pub composite_buffer : Framebuffer → ℕ → ℕ → Proc Video (Unit {0})
composite_buffer src x y = composite_rows src.pixel_height 0 src x y

-- `memcpy` of a number of pixels, with `j` of them copied
unfoldable pub copy_pixels : ℕ → ℕ → ℕ → ℕ → Proc Video (Unit {0})
copy_pixels zero j dest src = pure tt
copy_pixels (suc rounds) j dest src = do
  colour ← load_pixel (src + 4 * j)
  store_pixel (dest + 4 * j) colour
  copy_pixels rounds (j + 1) dest src

-- the loop of `swap_bufs`
unfoldable pub swap_lines : ℕ → ℕ → Proc Video (Unit {0})
swap_lines zero i = pure tt
swap_lines (suc rounds) i = do
  s ← get
  copy_pixels s.back_buffer.pixel_width 0 (s.front_buffer.address + i * s.front_buffer_width_bytes)
      (s.back_buffer.address + i * s.back_buffer.pixel_width * 4)
  swap_lines rounds (i + 1)

unfoldable pub swap_bufs : Proc Video (Unit {0})
swap_bufs = do s ← get; swap_lines s.front_buffer.pixel_height 0
