-- ===== src/Targa.antt =====
-- `put_targa` and `get_targa_size` of kernel/video/processing.c.
pub mod Plots
pub mod Lines
pub mod Image
pub mod Steps
pub mod Sequence
pub mod Packets
pub mod Termination
pub mod Answers
mod Tests
use black_diamond_os.Prelude.{
  ℕ, zero, suc, ◌+◌, ◌-◌, ◌*◌, ◌/◌, ◌^◌, Bool, true, false, ◌||◌, not, bit_and, u16, u32, ◌==◌,
  if◌then◌else◌,
}
use black_diamond_os.Machine.{read_u16, read_u32, Proc, Memory, pure, crash, spin, ◌>>=◌, ◌>>◌}
use black_diamond_os.Video.{Video, Framebuffer, put_pixel}

-- `struct targa_header`
pub record TargaHeader : Type 0 where
  pub id_length : ℕ
  pub colour_map_type : ℕ
  pub image_type : ℕ
  pub colour_map_first_entry_index : ℕ
  pub colour_map_length : ℕ
  pub colour_map_entry_size : ℕ
  pub x_origin : ℕ
  pub y_origin : ℕ
  pub width : ℕ
  pub height : ℕ
  pub bits_per_pixel : ℕ
  pub image_descriptor : ℕ

-- `sizeof(struct targa_header)`
abbrev pub targa_header_size : ℕ
targa_header_size = 18

-- the header at an address, in its packed layout
abbrev pub targa_at : Memory ℕ → ℕ → TargaHeader
targa_at m p = record {
  id_length = m p;
  colour_map_type = m (p + 1);
  image_type = m (p + 2);
  colour_map_first_entry_index = read_u16 m (p + 3);
  colour_map_length = read_u16 m (p + 5);
  colour_map_entry_size = m (p + 7);
  x_origin = read_u16 m (p + 8);
  y_origin = read_u16 m (p + 10);
  width = read_u16 m (p + 12);
  height = read_u16 m (p + 14);
  bits_per_pixel = m (p + 16);
  image_descriptor = m (p + 17);
}

-- A read through the pointer to an image faults at null.
unfoldable pub get_targa_size : Memory ℕ → ℕ → Proc Video Framebuffer
get_targa_size m p =
    if p == 0
    then crash
    else pure (record {
      address = 0;
      pixel_width = (targa_at m p).width;
      pixel_height = (targa_at m p).height;
    })

-- `!(header->image_descriptor & 32)`: Does the origin lie at the bottom left?
abbrev pub is_bottom_up : TargaHeader → Bool
is_bottom_up h = bit_and h.image_descriptor 32 == 0

abbrev pub colour_map_of : TargaHeader → ℕ → ℕ
colour_map_of h p = p + targa_header_size + h.id_length

abbrev pub colour_map_bytes : TargaHeader → ℕ
colour_map_bytes h = h.colour_map_length * (h.colour_map_entry_size / 8)

-- where the pixels of a true-colour image begin
abbrev pub image_data_of : TargaHeader → ℕ → ℕ
image_data_of h p =
    if h.colour_map_type == 0 then colour_map_of h p else colour_map_of h p + colour_map_bytes h

-- the entry of the colour map with a number
abbrev pub mapped_colour : Memory ℕ → TargaHeader → ℕ → ℕ → ℕ
mapped_colour m h colour_map index =
    if h.colour_map_entry_size == 24
    then bit_and (read_u32 m (colour_map + index * 3)) 0x00FFFFFF
    else read_u32 m (colour_map + index * 4)

-- the colour that stands at an address
abbrev pub colour_at : Memory ℕ → TargaHeader → ℕ → ℕ
colour_at m h p = if h.bits_per_pixel == 24 then bit_and (read_u32 m p) 0x00FFFFFF else read_u32 m p

-- the colour of a pixel of a colour-mapped image, by the pixel's number
abbrev pub mapped_pixel : Memory ℕ → TargaHeader → ℕ → ℕ → ℕ → ℕ
mapped_pixel m h colour_map image_data pixel_number = mapped_colour m h colour_map (
    if h.bits_per_pixel == 8
    then bit_and (read_u16 m (image_data + pixel_number)) 0x00FF
    else read_u16 m (image_data + u32 (pixel_number * 2)))

-- the colour of a pixel of a true-colour image, by the pixel's number
abbrev pub true_pixel : Memory ℕ → TargaHeader → ℕ → ℕ → ℕ
true_pixel m h image_data pixel_number =
    if h.bits_per_pixel == 24
    then bit_and (read_u32 m (image_data + u32 (pixel_number * 3))) 0x00FFFFFF
    else read_u32 m (image_data + u32 (pixel_number * 4))

-- the inner loop over an uncompressed image, where `colour` gives each pixel's; the number of the
-- pixel behind the line
unfoldable pub put_line : (ℕ → ℕ) → ℕ → ℕ → ℕ → ℕ → ℕ → ℕ → Proc Video ℕ
put_line colour zero j i x y pixel_number = pure pixel_number
put_line colour (suc rounds) j i x y pixel_number = do
  _ ← put_pixel (u16 (j + x)) (u16 (i + y)) (colour pixel_number)
  put_line colour rounds (j + 1) i x y (u32 (pixel_number + 1))

-- `if (!(header->image_descriptor & 32)) {pixel_number -= header->width * 2;}`
abbrev pub next_line_of : TargaHeader → ℕ → ℕ
next_line_of h pixel_number =
    if is_bottom_up h then u32 (pixel_number + (2 ^ 32 - h.width * 2)) else pixel_number

-- the outer loop over an uncompressed image
unfoldable pub put_lines : (ℕ → ℕ) → TargaHeader → ℕ → ℕ → ℕ → ℕ → ℕ → Proc Video (Unit {0})
put_lines colour h zero i x y pixel_number = pure tt
put_lines colour h (suc rounds) i x y pixel_number = do
  behind ← put_line colour h.width 0 i x y pixel_number
  put_lines colour h rounds (i + 1) x y (next_line_of h behind)

-- the number of the pixel that is drawn first
abbrev pub first_pixel : TargaHeader → ℕ
first_pixel h = if is_bottom_up h then u32 (h.width * (h.height + (2 ^ 32 - 1))) else 0

-- the first two cases of `put_targa` behind their checks
unfoldable pub put_uncompressed : (ℕ → ℕ) → TargaHeader → ℕ → ℕ → Proc Video ℕ
put_uncompressed colour h x y = do put_lines colour h h.height 0 x y (first_pixel h); pure 1

-- the variables `pixel_x`, `pixel_y` and `end`
pub record Cursor : Type 0 where
  pub pixel_x : ℕ
  pub pixel_y : ℕ
  pub end : Bool

-- the cursor at the end of a line
abbrev pub line_end : TargaHeader → Cursor → Cursor
line_end h c =
    if is_bottom_up h
    then record {
      pixel_x = 0;
      pixel_y = u32 (c.pixel_y + (2 ^ 32 - 1));
      end = c.end || (u32 (c.pixel_y + (2 ^ 32 - 1)) == 0);
    }
    else record {
      pixel_x = 0;
      pixel_y = u32 (c.pixel_y + 1);
      end = c.end || (u32 (c.pixel_y + 1) == h.height);
    }

-- the cursor behind a pixel
abbrev pub advance : TargaHeader → Cursor → Cursor
advance h c =
    if u32 (c.pixel_x + 1) == h.width
    then line_end h (record c { pixel_x = u32 (c.pixel_x + 1) })
    else record c { pixel_x = u32 (c.pixel_x + 1) }

-- a pixel at the cursor
unfoldable pub put_at : TargaHeader → ℕ → ℕ → Cursor → ℕ → Proc Video Cursor
put_at h x y c colour = do
  _ ← put_pixel (u16 (c.pixel_x + x)) (u16 (c.pixel_y + y)) colour
  pure (advance h c)

-- the loop over a run of one colour, with `run` pixels left
unfoldable pub put_run : TargaHeader → ℕ → ℕ → ℕ → ℕ → Cursor → Proc Video Cursor
put_run h x y colour zero c = pure c
put_run h x y colour (suc run) c = do c' ← put_at h x y c colour; put_run h x y colour run c'

-- How the pixels of a packet are stored: the colour of the one at an address, and its bytes.
pub record Encoding : Type 0 where
  pub colour : ℕ → ℕ
  pub stride : ℕ

-- the loop over a raw packet, with `run` pixels left
unfoldable pub put_raw : Encoding → TargaHeader → ℕ → ℕ → ℕ → ℕ → Cursor → Proc Video Cursor
put_raw e h x y zero p c = pure c
put_raw e h x y (suc run) p c = do
  c' ← put_at h x y c (e.colour p)
  put_raw e h x y run (p + e.stride) c'

-- `while (!end)`; `fuel` bounds the packets
unfoldable pub put_packets :
    ℕ → Memory ℕ → Encoding → TargaHeader → ℕ → ℕ → ℕ → Cursor → Proc Video (Unit {0})
put_packets zero m e h x y p c = spin
put_packets (suc fuel) m e h x y p c =
    if c.end
    then pure tt
    else if bit_and (m p) 0x80 == 0
    then (do
      c' ← put_raw e h x y (m p + 1) (p + 1) c
      put_packets fuel m e h x y (p + 1 + (m p + 1) * e.stride) c')
    else (do
      c' ← put_run h x y (e.colour (p + 1)) (bit_and (m p) 0x7F + 1) c
      put_packets fuel m e h x y (p + 1 + e.stride) c')

-- where the cursor starts
abbrev pub first_cursor : TargaHeader → Cursor
first_cursor h = record {
  pixel_x = 0;
  pixel_y = if is_bottom_up h then h.height else 0;
  end = false;
}

-- the last two cases of `put_targa` behind their checks
unfoldable pub put_compressed : ℕ → Memory ℕ → Encoding → TargaHeader → ℕ → ℕ → ℕ → Proc Video ℕ
put_compressed fuel m e h x y p = do put_packets fuel m e h x y p (first_cursor h); pure 1

-- the pixels of a run-length-encoded colour-mapped image
abbrev pub mapped_encoding : Memory ℕ → TargaHeader → ℕ → Encoding
mapped_encoding m h colour_map = record {
  colour = λ p.
      mapped_colour m h colour_map
        (if h.bits_per_pixel == 8 then bit_and (read_u16 m p) 0x00FF else read_u16 m p);
  stride = if h.bits_per_pixel == 8 then 1 else 2;
}

-- the pixels of a run-length-encoded true-colour image
abbrev pub true_encoding : Memory ℕ → TargaHeader → Encoding
true_encoding m h = record {
  colour = colour_at m h;
  stride = if h.bits_per_pixel == 24 then 3 else 4;
}

-- the checks of the colour-mapped and of the true-colour cases
abbrev pub has_no_map : TargaHeader → Bool
has_no_map h = h.colour_map_type == 0 || h.colour_map_entry_size == 16

abbrev pub is_high_colour : TargaHeader → Bool
is_high_colour h = h.bits_per_pixel == 16

-- the case of an uncompressed colour-mapped image
unfoldable pub put_mapped : Memory ℕ → TargaHeader → ℕ → ℕ → ℕ → Proc Video ℕ
put_mapped m h x y data_ptr =
    let colour_map = colour_map_of h data_ptr in
    if has_no_map h
    then pure 0
    else put_uncompressed (mapped_pixel m h colour_map (colour_map + colour_map_bytes h)) h x y

-- the case of an uncompressed true-colour image
unfoldable pub put_true_colour : Memory ℕ → TargaHeader → ℕ → ℕ → ℕ → Proc Video ℕ
put_true_colour m h x y data_ptr =
    if is_high_colour h
    then pure 0
    else put_uncompressed (true_pixel m h (image_data_of h data_ptr)) h x y

-- the case of a run-length-encoded colour-mapped image
unfoldable pub put_mapped_runs : ℕ → Memory ℕ → TargaHeader → ℕ → ℕ → ℕ → Proc Video ℕ
put_mapped_runs fuel m h x y data_ptr =
    let colour_map = colour_map_of h data_ptr in
    if has_no_map h
    then pure 0
    else put_compressed fuel m (mapped_encoding m h colour_map) h x y
        (colour_map + colour_map_bytes h)

-- the case of a run-length-encoded true-colour image
unfoldable pub put_true_colour_runs : ℕ → Memory ℕ → TargaHeader → ℕ → ℕ → ℕ → Proc Video ℕ
put_true_colour_runs fuel m h x y data_ptr =
    if is_high_colour h
    then pure 0
    else put_compressed fuel m (true_encoding m h) h x y (image_data_of h data_ptr)

-- `switch(header->image_type)`
unfoldable pub put_image : ℕ → Memory ℕ → TargaHeader → ℕ → ℕ → ℕ → Proc Video ℕ
put_image fuel m h x y data_ptr =
    if h.image_type == 1
    then put_mapped m h x y data_ptr
    else if h.image_type == 2
    then put_true_colour m h x y data_ptr
    else if h.image_type == 9
    then put_mapped_runs fuel m h x y data_ptr
    else if h.image_type == 10
    then put_true_colour_runs fuel m h x y data_ptr
    else pure 0

-- `put_targa` of the image at `data_ptr` in the bytes `m`, which lie apart from the framebuffers;
-- `fuel` bounds the packets of a compressed image.
unfoldable pub put_targa : ℕ → Memory ℕ → ℕ → ℕ → ℕ → Proc Video ℕ
put_targa fuel m x y data_ptr =
    if data_ptr == 0 then crash else put_image fuel m (targa_at m data_ptr) x y data_ptr
