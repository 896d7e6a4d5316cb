-- ===== src/Text/Tests.antt =====
-- Examples of kernel/video/text.c: a font of two lines of eight pixels, and a string of two
-- characters.
use black_diamond_os.Prelude.{ℕ, ◌+◌, ◌<◌, ◌≡◌, ◌≢◌, refl, ◌==◌, if◌then◌else◌, arith, zero, suc}
use black_diamond_os.Machine.{done, Memory}
use black_diamond_os.Video.{Framebuffer}
use black_diamond_os.Text.{Text, transparent, put_str}
use black_diamond_os.Text.Row.{with_pixels}
use black_diamond_os.Text.Cursor.{FillsRow}
use black_diamond_os.Text.Layout.{draw_grid, IsLegible, put_str-draw_grid}

-- the font at 1000, with a glyph for the character 1, and a string at 2000
abbrev font_bytes : Memory ℕ
font_bytes q =
    if q == 1000
    then 0x72
    else if q == 1001
    then 0xB5
    else if q == 1002
    then 0x4A
    else if q == 1003
    then 0x86
    else if q == 1008
    then 32
    else if q == 1012
    then 1
    else if q == 1020
    then 2
    else if q == 1024
    then 2
    else if q == 1028
    then 8
    else if q == 1034
    then 0xF0
    else if q == 1035
    then 0x0F
    else if q == 2000
    then 1
    else if q == 2001
    then 1
    else 0

abbrev buffer : Framebuffer
buffer = record { address = 4096; pixel_width = 16; pixel_height = 8 }

abbrev text : Text
text = record {
  video = record {
    front_buffer = buffer;
    front_buffer_width_bytes = 64;
    back_buffer = buffer;
    active_buffer = buffer;
    pixels = λ q. q;
  };
  bytes = font_bytes;
  active_font = 1000;
  background_colour = transparent;
  foreground_colour = 0x00FFFFFF;
}

text-IsLegible : IsLegible text
text-IsLegible = record {
  some_font = omega arith;
  some_buffer = omega arith;
  narrow = omega arith;
  small = omega arith;
}

fills : FillsRow 0 8 17 1
fills = record {
  some_column = omega arith;
  room = λ j l h. absurd (omega (arith, l, h));
  full = omega arith;
  small = omega arith;
}

some_chars : (j : ℕ) → j < 2 → font_bytes (2000 + j) ≢ 0
some_chars zero l = λ e. omega (arith, e)
some_chars (suc zero) l = λ e. omega (arith, e)
some_chars (suc (suc j)) l = absurd (omega (arith, l))

put_str-draw_grid_example :
    (m : Memory ℕ) × (put_str 3 2000 0 1 17 text ≡ done tt (with_pixels text m))
    × (draw_grid 2 0 2000 0 1 1 9 2 text ≡ done tt (with_pixels text m))
put_str-draw_grid_example =
    put_str-draw_grid 3 2 2000 0 1 1 17 text text-IsLegible fills (omega arith) some_chars refl
      (omega arith)
