-- ===== src/Targa/Tests.antt =====
-- Examples of `put_targa`: true-colour images of two by two pixels.
use black_diamond_os.Prelude.{ℕ, ◌-◌, ◌≡◌, refl, List, [], ◌∷◌, leb, if◌then◌else◌, arith}
use black_diamond_os.Machine.{done, Memory}
use black_diamond_os.Utils.{literal}
use black_diamond_os.Video.{Video, Framebuffer}
use black_diamond_os.Video.Clip.{SameOutside}
use black_diamond_os.Targa.{targa_at, true_encoding, put_targa}
use black_diamond_os.Targa.Plots.{Plots}
use black_diamond_os.Targa.Steps.{HasPixels}
use black_diamond_os.Targa.Packets.{Packets}
use black_diamond_os.Targa.Answers.{true_colour_runs, put_targa-SameOutside}

-- an image at 1000 of a type, a number of bits per pixel and a descriptor
abbrev image : ℕ → ℕ → ℕ → List ℕ → Memory ℕ
image type bits descriptor rest q =
    if leb 1000 q
    then literal
        (0 ∷ 0 ∷ type ∷ 0 ∷ 0 ∷ 0 ∷ 0 ∷ 0 ∷ 0 ∷ 0 ∷ 0 ∷ 0 ∷ 2 ∷ 0 ∷ 2 ∷ 0 ∷ bits ∷ descriptor
          ∷ rest)
        (q - 1000)
    else 0

abbrev plain : Memory ℕ
plain = image 2 24 0 (1 ∷ 0 ∷ 0 ∷ 2 ∷ 0 ∷ 0 ∷ 3 ∷ 0 ∷ 0 ∷ 4 ∷ 0 ∷ 0 ∷ [])

-- a run of three pixels and a raw one
abbrev packed : Memory ℕ
packed = image 10 24 32 (0x82 ∷ 7 ∷ 0 ∷ 0 ∷ 0 ∷ 9 ∷ 0 ∷ 0 ∷ [])

abbrev buffer : Framebuffer
buffer = record { address = 4096; pixel_width = 8; pixel_height = 8 }

abbrev video : Video
video = record {
  front_buffer = buffer;
  front_buffer_width_bytes = 32;
  back_buffer = buffer;
  active_buffer = buffer;
  pixels = λ q. q;
}

has_pixels : HasPixels (targa_at packed 1000)
has_pixels = record {
  some_column = omega arith;
  some_line = omega arith;
  narrow = omega arith;
  low = omega arith;
}

put_targa-SameOutside_example :
    (m' : Memory ℕ) × (put_targa 5 packed 7 7 1000 video ≡ done 1 (record video { pixels = m' }))
    × SameOutside buffer video.pixels m'
put_targa-SameOutside_example =
    put_targa-SameOutside 5 packed 7 7 1000 (true_encoding packed (targa_at packed 1000)) 1018 video
      (omega arith) (true_colour_runs refl refl) (omega arith) has_pixels (omega arith)
