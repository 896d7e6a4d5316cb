-- ===== src/Text.antt =====
-- Text in a bitmap font on the active framebuffer, kernel/video/text.c.
pub mod Row
pub mod Glyph
pub mod Bitmap
pub mod Font
pub mod Cursor
pub mod Layout
mod Tests
use black_diamond_os.Prelude.{
  ℕ, Bool, zero, suc, ◌+◌, ◌-◌, ◌*◌, ◌/◌, ◌%◌, ◌^◌, ◌||◌, not, bit_and, u16, u32, leb, ◌==◌,
  if◌then◌else◌,
}
use black_diamond_os.Machine.{
  read_u32, Outcome, done, panic, fault, stuck, Proc, Memory, pure, crash, spin, get, modify, ◌>>=◌,
  ◌>>◌,
}
use black_diamond_os.Video.{Video, store_pixel}

-- The globals of text.c, the framebuffers, and the bytes of the fonts and strings, which lie apart
-- from the framebuffers.
pub record Text : Type 0 where
  pub video : Video
  pub bytes : Memory ℕ
  pub active_font : ℕ
  pub background_colour : ℕ
  pub foreground_colour : ℕ

abbrev pub transparent : ℕ
transparent = 0xFF000000

-- `struct psf_header`
pub record PsfHeader : Type 0 where
  pub magic : ℕ
  pub version : ℕ
  pub header_size : ℕ
  pub flags : ℕ
  pub glyph_count : ℕ
  pub glyph_size : ℕ
  pub height : ℕ
  pub width : ℕ

abbrev pub header_at : Memory ℕ → ℕ → PsfHeader
header_at m p = record {
  magic = read_u32 m p;
  version = read_u32 m (p + 4);
  header_size = read_u32 m (p + 8);
  flags = read_u32 m (p + 12);
  glyph_count = read_u32 m (p + 16);
  glyph_size = read_u32 m (p + 20);
  height = read_u32 m (p + 24);
  width = read_u32 m (p + 28);
}

-- A read through the pointer to a font faults at null.
unfoldable pub load_font : ℕ → Proc Text PsfHeader
load_font p = if p == 0 then crash else λ s. pure (header_at s.bytes p) s

unfoldable pub set_font : ℕ → Proc Text ℕ
set_font font_ptr = do
  font ← load_font font_ptr
  if not (font.magic == 0x864AB572) || font.flags == 0
      then pure 0
      else (do modify (λ s. record s { active_font = font_ptr }); pure 1)

unfoldable pub set_bg_colour : ℕ → Proc Text (Unit {0})
set_bg_colour colour = modify (λ s. record s { background_colour = colour })

unfoldable pub set_fg_colour : ℕ → Proc Text (Unit {0})
set_fg_colour colour = modify (λ s. record s { foreground_colour = colour })

-- a step of the drawing code
abbrev pub resume : {A : Type 0} → Text → Outcome Video A → Outcome Text A
resume s (done a v) = done a (record s { video = v })
resume s (panic msg) = panic msg
resume s fault = fault
resume s stuck = stuck

unfoldable pub on_video : {A : Type 0} → Proc Video A → Proc Text A
on_video m s = resume s (m s.video)

-- the byte of a glyph `width` pixels wide in which pixel `j` of line `i` has its bit
abbrev pub byte_offset : ℕ → ℕ → ℕ → ℕ
byte_offset width i j = u32 (i * (width / 8) + j / 8)

-- `*target = colour`, unless the colour is transparent
unfoldable pub put_dot : ℕ → ℕ → Proc Text (Unit {0})
put_dot target colour =
    if colour == transparent then pure tt else on_video (store_pixel target colour)

-- the inner loop of `put_char`, with `rounds` rounds left
unfoldable pub put_glyph_row : ℕ → ℕ → ℕ → ℕ → ℕ → Proc Text (Unit {0})
put_glyph_row zero i j glyph target = pure tt
put_glyph_row (suc rounds) i j glyph target = do
  s ← get
  font ← load_font s.active_font
  if bit_and (s.bytes (glyph + byte_offset font.width i j)) (0x80 / 2 ^ (j % 8)) == 0
      then put_dot target s.background_colour
      else put_dot target s.foreground_colour
  put_glyph_row rounds i (j + 1) glyph (target + 4)

-- how far `target` moves after a row, in pixels
abbrev pub line_gap : ℕ → ℕ → ℕ
line_gap buffer_width width = u32 (buffer_width + (2 ^ 32 - width))

-- the outer loop of `put_char`
unfoldable pub put_glyph_rows : ℕ → ℕ → ℕ → ℕ → Proc Text (Unit {0})
put_glyph_rows zero i glyph target = pure tt
put_glyph_rows (suc rounds) i glyph target = do
  s ← get
  font ← load_font s.active_font
  put_glyph_row font.width i 0 glyph target
  put_glyph_rows rounds (i + 1) glyph
      (target + 4 * font.width + 4 * line_gap s.video.active_buffer.pixel_width font.width)

-- where the glyph of a character begins
abbrev pub glyph_at : ℕ → PsfHeader → ℕ → ℕ
glyph_at p font c = p + font.header_size + u32 (c * font.glyph_size)

unfoldable pub put_char : ℕ → ℕ → ℕ → Proc Text (Unit {0})
put_char c x y = do
  s ← get
  font ← load_font s.active_font
  put_glyph_rows font.height 0 (glyph_at s.active_font font c)
      (s.video.active_buffer.address + 4 * (y * s.video.active_buffer.pixel_width + x))

-- Does the next character go on the next line?
abbrev pub line_is_full : ℕ → ℕ → ℕ → Bool
line_is_full cursor font_width width = leb width (u32 (cursor + font_width))

-- the loop of `put_str`; `fuel` bounds the length of the string
unfoldable pub put_chars : ℕ → ℕ → ℕ → ℕ → ℕ → ℕ → Proc Text (Unit {0})
put_chars zero str x x_cursor y width = spin
put_chars (suc fuel) str x x_cursor y width = do
  s ← get
  if s.bytes str == 0 then pure tt else (do
    put_char (s.bytes str) x_cursor y
    t ← get
    font ← load_font t.active_font
    if line_is_full (u16 (x_cursor + font.width + 1)) font.width width
        then put_chars fuel (str + 1) x x (u16 (y + font.height)) width
        else put_chars fuel (str + 1) x (u16 (x_cursor + font.width + 1)) y width)

unfoldable pub put_str : ℕ → ℕ → ℕ → ℕ → ℕ → Proc Text (Unit {0})
put_str fuel str x y width = put_chars fuel str x x y width

unfoldable pub get_font_width : Proc Text ℕ
get_font_width = do s ← get; font ← load_font s.active_font; pure font.width

unfoldable pub get_font_height : Proc Text ℕ
get_font_height = do s ← get; font ← load_font s.active_font; pure font.height
