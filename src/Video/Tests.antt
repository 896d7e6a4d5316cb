-- ===== src/Video/Tests.antt =====
-- Examples of kernel/video/: a screen of three by two pixels whose lines are padded to 16 bytes.
use black_diamond_os.Prelude.{ℕ, ◌/◌, ◌≡◌, refl, arith}
use black_diamond_os.Machine.{done, Memory}
use black_diamond_os.Video.{
  Video, Framebuffer, pixel_at, put_pixel, get_pixel, put_rect, composite_buffer, swap_bufs,
}
use black_diamond_os.Video.Rectangle.{Paints, InRectangle, put_rect-Paints}
use black_diamond_os.Video.Clip.{IsPixel}
use black_diamond_os.Video.Scale.{scale_buffer}
use black_diamond_os.Video.Sampled.{sampled_at, Scaled, scale_buffer-Scaled}
use black_diamond_os.Targa.Plots.{Plots}
use black_diamond_os.Video.Swap.{Copies, OnScreen, swap_bufs-Copies}

abbrev screen : Framebuffer
screen = record { address = 4096; pixel_width = 3; pixel_height = 2 }

abbrev back : Framebuffer
back = record { address = 1024; pixel_width = 3; pixel_height = 2 }

abbrev sprite : Framebuffer
sprite = record { address = 512; pixel_width = 2; pixel_height = 2 }

-- each pixel holds its address
abbrev video : Video
video = record {
  front_buffer = screen;
  front_buffer_width_bytes = 16;
  back_buffer = back;
  active_buffer = back;
  pixels = λ q. q;
}

put_rect-Paints_example :
    (m : Memory ℕ) × (put_rect 1 0 2 2 7 video ≡ done tt (record video { pixels = m }))
    × Paints 7 video.pixels m (InRectangle (pixel_at back 1 0) 3 2 2)
put_rect-Paints_example = put_rect-Paints 1 0 2 2 7 video (omega arith) (omega arith) (omega arith)

swap_bufs-Copies_example :
    (m : Memory ℕ) × (swap_bufs video ≡ done tt (record video { pixels = m }))
    × Copies video.pixels m (OnScreen 4096 16 1024 3 0 2)
swap_bufs-Copies_example =
    swap_bufs-Copies video (omega arith) (omega arith) (omega arith) (omega arith)

-- the quotient rounded down, for a destination of the double size
abbrev half : ℕ → ℕ → ℕ → ℕ
half to from k = k / 2

abbrev doubled : Framebuffer
doubled = record { address = 2048; pixel_width = 4; pixel_height = 4 }

apart : (q : ℕ) → IsPixel sprite q → ¬ IsPixel doubled q
apart q (x, y, l, l', e) (x', y', m, m', e') = omega (arith, l, l', e, e')

scale_buffer-Scaled_example :
    ((x y : ℕ) → IsPixel sprite (sampled_at half doubled sprite x y))
    × ((m : Memory ℕ) × (scale_buffer half doubled sprite video
          ≡ done tt (record video { pixels = m }))
        × Plots (Scaled half doubled sprite video.pixels) video.pixels m)
scale_buffer-Scaled_example =
    scale_buffer-Scaled half doubled sprite (omega arith) (omega arith) (omega arith) (omega arith)
      (omega arith) apart video

-- what the screen shows after a frame, read at the start of its second line
abbrev shown : ℕ
shown = elim (swap_bufs video) [ done _ s ↦ s.pixels 4112 | _ ↦ 0 ]

swap_shows : shown ≡ 1036
unfolding swap_bufs black_diamond_os.Video.swap_lines black_diamond_os.Video.copy_pixels
    black_diamond_os.Video.load_pixel black_diamond_os.Video.store_pixel
swap_shows = refl
