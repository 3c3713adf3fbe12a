-- ===== src/Images/Headers.antt =====
-- src/lib/media/image-validation.ts: the size that a PNG's header declares is the size that is read.
use ticketguy.Prelude.{
  ℕ, ◌*◌, ◌/◌, ◌%◌, ◌<◌, ◌≤◌, ◌≡◌, String, none, some, List, [], ◌∷◌, ◌++◌, arith, length,
}
use ticketguy.Images.{png, png_signature, max_bytes, max_pixels, sniff, uint32, uint16, png_size}
use ticketguy.Images.Inspect.{accepted, read_dimensions, inspect_image}

-- A number below 2^32 as four bytes, the highest first.
abbrev pub big_endian : ℕ → List ℕ
big_endian n = (n / 16777216) ∷ (n / 65536 % 256) ∷ (n / 256 % 256) ∷ (n % 256) ∷ []

-- The signature, the length and the name of the chunk IHDR, the width, the height, and what follows.
abbrev pub png_file : ℕ → ℕ → List ℕ → List ℕ
png_file w h rest =
    png_signature
    ++ ((0 ∷ 0 ∷ 0 ∷ 13 ∷ 0x49 ∷ 0x48 ∷ 0x44 ∷ 0x52 ∷ [])
        ++ (big_endian w ++ (big_endian h ++ rest)))

png_size-png_file :
    (w h : ℕ) (rest : List ℕ)
    → png_size (png_file w h rest) ≡ some (some (record { width = w; height = h }))
unfolding png_size uint32 uint16
png_size-png_file w h rest = ground arith

-- A PNG file that declares a width and a height is accepted with just these, whatever follows the
-- header, when no type was declared for it and the size is within the limits.
pub inspect_image-png_file :
    (lower : String → String) (w h : ℕ) (rest : List ℕ)
    → 0 < w
    → 0 < h
    → w * h ≤ max_pixels
    → length (png_file w h rest) ≤ max_bytes
    → inspect_image lower (png_file w h rest) none ≡ some (accepted png w h)
unfolding inspect_image sniff read_dimensions
inspect_image-png_file lower w h rest pw ph px size = rw png_size-png_file (ground arith)
