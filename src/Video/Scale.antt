-- ===== src/Video/Scale.antt =====
-- `scale_buffer` of kernel/video/processing.c. Its floating-point numbers are an argument: for a
-- coordinate of the destination, and the lengths of both buffers in that direction, `sample` gives
-- what `round` returns for the quotient of the coordinate and the scale.
use black_diamond_os.Prelude.{ℕ, zero, suc, ◌+◌, ◌-◌, ◌^◌, u32, leb, if◌then◌else◌}
use black_diamond_os.Machine.{Proc, pure, ◌>>=◌, ◌>>◌}
use black_diamond_os.Video.{Video, Framebuffer, load_pixel, store_pixel, pixel_at}

-- the column and the line of the source that are sampled, kept within the source
abbrev pub sampled_x : (ℕ → ℕ → ℕ → ℕ) → Framebuffer → Framebuffer → ℕ → ℕ
sampled_x sample dest src j =
    if leb src.pixel_width (sample dest.pixel_width src.pixel_width j)
    then u32 (src.pixel_width + (2 ^ 32 - 1))
    else sample dest.pixel_width src.pixel_width j

abbrev pub sampled_y : (ℕ → ℕ → ℕ → ℕ) → Framebuffer → Framebuffer → ℕ → ℕ
sampled_y sample dest src i =
    if leb src.pixel_height (sample dest.pixel_height src.pixel_height i)
    then u32 (src.pixel_width + (2 ^ 32 - 1))
    else sample dest.pixel_height src.pixel_height i

-- the inner loop, with `rounds` rounds left
unfoldable pub scale_row :
    (ℕ → ℕ → ℕ → ℕ) → ℕ → ℕ → ℕ → Framebuffer → Framebuffer → Proc Video (Unit {0})
scale_row sample zero j i dest src = pure tt
scale_row sample (suc rounds) j i dest src = do
  colour ← load_pixel (pixel_at src (sampled_x sample dest src j) (sampled_y sample dest src i))
  store_pixel (pixel_at dest j i) colour
  scale_row sample rounds (j + 1) i dest src

-- the outer loop
unfoldable pub scale_rows :
    (ℕ → ℕ → ℕ → ℕ) → ℕ → ℕ → Framebuffer → Framebuffer → Proc Video (Unit {0})
scale_rows sample zero i dest src = pure tt
scale_rows sample (suc rounds) i dest src = do
  scale_row sample dest.pixel_width 0 i dest src
  scale_rows sample rounds (i + 1) dest src

unfoldable pub scale_buffer : (ℕ → ℕ → ℕ → ℕ) → Framebuffer → Framebuffer → Proc Video (Unit {0})
scale_buffer sample dest src = scale_rows sample dest.pixel_height 0 dest src
