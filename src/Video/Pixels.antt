-- ===== src/Video/Pixels.antt =====
-- What the reads and writes of pixels of kernel/video do.
use black_diamond_os.Prelude.{ℕ, ◌<◌, ◌≤◌, ◌≡◌, ◌⊎◌, ne→not_eqb, arith}
use black_diamond_os.Machine.{done, update}
use black_diamond_os.Video.{Video, load_pixel, store_pixel, pixel_at, get_linear_address}

-- the state after a write of a pixel
abbrev pub painted : Video → ℕ → ℕ → Video
painted s p colour = record s { pixels = update s.pixels p colour }

pub load_pixel-done : (p : ℕ) (s : Video) → 0 < p → load_pixel p s ≡ done (s.pixels p) s
unfolding load_pixel
load_pixel-done p s pos = rw (ne→not_eqb p 0 (omega (arith, pos)))

pub store_pixel-done :
    (p colour : ℕ) (s : Video) → 0 < p → store_pixel p colour s ≡ done tt (painted s p colour)
unfolding store_pixel
store_pixel-done p colour s pos = rw (ne→not_eqb p 0 (omega (arith, pos)))

pub get_linear_address-inside :
    (x y : ℕ) (s : Video)
    → x < s.active_buffer.pixel_width
    → y < s.active_buffer.pixel_height
    → get_linear_address x y s ≡ done (pixel_at s.active_buffer x y) s
unfolding get_linear_address
get_linear_address-inside x y s l h = ground arith

pub get_linear_address-outside :
    (x y : ℕ) (s : Video)
    → (s.active_buffer.pixel_width ≤ x) ⊎ (s.active_buffer.pixel_height ≤ y)
    → get_linear_address x y s ≡ done 0 s
unfolding get_linear_address
get_linear_address-outside x y s out = ground arith
