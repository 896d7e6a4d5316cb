-- ===== src/Targa/Answers.antt =====
-- `put_targa` of kernel/video/processing.c: its image types, and what it answers.
use black_diamond_os.Prelude.{
  ℕ, ◌+◌, ◌*◌, ◌<◌, ◌≡◌, ◌≢◌, ◌⊎◌, inl, inr, true, false, ne→not_eqb, arith,
}
use black_diamond_os.Machine.{done, Memory}
use black_diamond_os.Video.{Video}
use black_diamond_os.Video.Clip.{SameOutside}
use black_diamond_os.Targa.{
  TargaHeader, targa_at, colour_map_of, colour_map_bytes, image_data_of, mapped_pixel, true_pixel,
  Encoding, mapped_encoding, true_encoding, has_no_map, is_high_colour, put_image, put_mapped,
  put_true_colour, put_mapped_runs, put_true_colour_runs, put_targa, put_compressed,
}
use black_diamond_os.Targa.Plots.{Plots}
use black_diamond_os.Targa.Steps.{HasPixels}
use black_diamond_os.Targa.Packets.{Packets}
use black_diamond_os.Targa.Termination.{put_compressed-SameOutside}

-- The image at `p` is uncompressed, and a function gives the colour of each pixel.
pub data Uncompressed (m : Memory ℕ) (p : ℕ) : (ℕ → ℕ) → Type 0 where
  mapped :
      (targa_at m p).image_type ≡ 1
      → has_no_map (targa_at m p) ≡ false
      → Uncompressed m p (
          mapped_pixel m
            (targa_at m p)
            (colour_map_of (targa_at m p) p)
            (colour_map_of (targa_at m p) p + colour_map_bytes (targa_at m p)))
  true_colour :
      (targa_at m p).image_type ≡ 2
      → is_high_colour (targa_at m p) ≡ false
      → Uncompressed m p (true_pixel m (targa_at m p) (image_data_of (targa_at m p) p))

-- The image at `p` is run-length-encoded, and its packets begin at an address.
pub data Compressed (m : Memory ℕ) (p : ℕ) : Encoding → ℕ → Type 0 where
  mapped_runs :
      (targa_at m p).image_type ≡ 9
      → has_no_map (targa_at m p) ≡ false
      → Compressed m p
          (mapped_encoding m (targa_at m p) (colour_map_of (targa_at m p) p))
          (colour_map_of (targa_at m p) p + colour_map_bytes (targa_at m p))
  true_colour_runs :
      (targa_at m p).image_type ≡ 10
      → is_high_colour (targa_at m p) ≡ false
      → Compressed m p (true_encoding m (targa_at m p)) (image_data_of (targa_at m p) p)

-- The image type is unknown, or the image has no usable colour map or 16-bit colours.
pub data Refused (h : TargaHeader) : Type 0 where
  no_map : (h.image_type ≡ 1) ⊎ (h.image_type ≡ 9) → has_no_map h ≡ true → Refused h
  high_colour : (h.image_type ≡ 2) ⊎ (h.image_type ≡ 10) → is_high_colour h ≡ true → Refused h
  unknown : h.image_type ≢ 1 → h.image_type ≢ 2 → h.image_type ≢ 9 → h.image_type ≢ 10 → Refused h

put_targa-put_compressed :
    (fuel : ℕ) (m : Memory ℕ) (x y p : ℕ) (e : Encoding) (start : ℕ) (s : Video)
    → 0 < p
    → Compressed m p e start
    → put_targa fuel m x y p s ≡ put_compressed fuel m e (targa_at m p) x y start s
unfolding put_targa put_image put_mapped put_true_colour put_mapped_runs put_true_colour_runs
put_targa-put_compressed fuel m x y p e start s some_data (mapped_runs type map) =
    rw (ne→not_eqb p 0 (omega (arith, some_data)), type, map)
put_targa-put_compressed fuel m x y p e start s some_data (true_colour_runs type deep) =
    rw (ne→not_eqb p 0 (omega (arith, some_data)), type, deep)

-- `put_targa` of a run-length-encoded image that is not at null, that it does not refuse (type 9 with
-- a colour map whose entries have not 16 bits, or type 10 with pixels of other than 16 bits), and that
-- has pixels, into an active buffer that is not at null, with fuel above the number of pixels, ends
-- and answers 1 whatever bytes its packets have and wherever it is drawn, and changes no memory
-- outside the pixels of the active buffer.
pub put_targa-SameOutside :
    (fuel : ℕ) (m : Memory ℕ) (x y p : ℕ) (e : Encoding) (start : ℕ) (s : Video)
    → 0 < p
    → Compressed m p e start
    → 0 < s.active_buffer.address
    → HasPixels (targa_at m p)
    → (targa_at m p).height * (targa_at m p).width < fuel
    → (m' : Memory ℕ) × (put_targa fuel m x y p s ≡ done 1 (record s { pixels = m' }))
      × SameOutside s.active_buffer s.pixels m'
put_targa-SameOutside fuel m x y p e start s some_data kind pos some_pixels enough =
    rw (put_targa-put_compressed fuel m x y p e start s some_data kind)
      (put_compressed-SameOutside fuel m e (targa_at m p) x y start s pos some_pixels enough)

-- `put_targa` of an image of an unknown type, of a colour-mapped one without a map or with 16-bit
-- entries, or of a true-colour one with 16-bit pixels, answers 0 and changes nothing.
pub put_targa-refuses :
    (fuel : ℕ) (m : Memory ℕ) (x y p : ℕ) (s : Video)
    → 0 < p
    → Refused (targa_at m p)
    → put_targa fuel m x y p s ≡ done 0 s
unfolding put_targa put_image put_mapped put_true_colour put_mapped_runs put_true_colour_runs
put_targa-refuses fuel m x y p s some_data (no_map (inl type) bad) =
    rw (ne→not_eqb p 0 (omega (arith, some_data)), type, bad)
put_targa-refuses fuel m x y p s some_data (no_map (inr type) bad) =
    rw (ne→not_eqb p 0 (omega (arith, some_data)), type, bad)
put_targa-refuses fuel m x y p s some_data (high_colour (inl type) bad) =
    rw (ne→not_eqb p 0 (omega (arith, some_data)), type, bad)
put_targa-refuses fuel m x y p s some_data (high_colour (inr type) bad) =
    rw (ne→not_eqb p 0 (omega (arith, some_data)), type, bad)
put_targa-refuses fuel m x y p s some_data (unknown not_1 not_2 not_9 not_10) =
    let type = (targa_at m p).image_type in
    rw (
      ne→not_eqb p 0 (omega (arith, some_data)),
      ne→not_eqb type 1 not_1,
      ne→not_eqb type 2 not_2,
      ne→not_eqb type 9 not_9,
      ne→not_eqb type 10 not_10,
    )
