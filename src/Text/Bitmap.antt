-- ===== src/Text/Bitmap.antt =====
-- The bitmap of a glyph, and `put_char` of kernel/video/text.c on fonts whose lines are whole bytes.
use black_diamond_os.Prelude.{ℕ, ◌+◌, ◌-◌, ◌*◌, ◌/◌, ◌%◌, ◌==◌, if◌then◌else◌}
use black_diamond_os.Prelude.BitAt.{bit}
use black_diamond_os.Machine.{Memory}
use black_diamond_os.Text.{Text}
use black_diamond_os.Text.Row.{font_of}

-- A line of a glyph takes as many bytes as hold its pixels, and the first pixel of a byte is its
-- highest bit.
abbrev pub line_bytes : ℕ → ℕ
line_bytes width = (width + 7) / 8

abbrev pub pixel_bit : Memory ℕ → ℕ → ℕ → ℕ → ℕ → ℕ
pixel_bit m glyph width r k = bit (7 - k % 8) (m (glyph + (r * line_bytes width + k / 8)))

-- the colour of a pixel of the glyph at `glyph`
abbrev pub glyph_colour : Text → ℕ → ℕ → ℕ → ℕ
glyph_colour s glyph r k =
    if pixel_bit s.bytes glyph (font_of s).width r k == 0
    then s.background_colour
    else s.foreground_colour
