-- ===== src/Images/Tests.antt =====
-- src/lib/media/image-validation.ts: runs on small files, and each theorem at a concrete input.
use ticketguy.Prelude.{
  ℕ, ◌≡◌, refl, String, Bool, true, false, Option, none, some, List, [], ◌∷◌, ◌++◌, arith,
}
use ticketguy.Images.{
  png, jpeg, webp, svg, Size, codes, sniff, sniff_text, uint16, uint16_little, uint32, png_size,
  jpeg_segment, jpeg_round, jpeg_walk, jpeg_size,
}
use ticketguy.Images.Inspect.{
  accepted, rejected, declared_mime_mismatch, dimensions_unreadable, empty, extended_size,
  lossy_size, lossless_size, webp_size, read_dimensions, inspect_image, Item, select_from,
  select_processable_images,
}
use ticketguy.Images.Headers.{png_file, inspect_image-png_file}
use ticketguy.Images.Limits.{IsChecked, inspect_image_accepted}
use ticketguy.Images.Reads.{read_dimensions_total}
use ticketguy.Images.Selection.{IsWithin, select_processable_images-IsWithin}

rules : Unit {0}
unfolding sniff sniff_text uint16 uint16_little uint32 png_size jpeg_segment jpeg_round jpeg_walk
    jpeg_size extended_size lossy_size lossless_size webp_size read_dimensions inspect_image
    select_from select_processable_images
rules = tt

abbrev same : String → String
same s = s

-- start of image, an application segment of two bytes, a frame of 3 by 2, and the end
abbrev photo : List ℕ
photo =
    0xff ∷ 0xd8 ∷ 0xff ∷ 0xe0 ∷ 0 ∷ 2 ∷ 0xff ∷ 0xc0 ∷ 0 ∷ 11 ∷ 8 ∷ 0 ∷ 2 ∷ 0 ∷ 3 ∷ 1 ∷ 0xff ∷ 0xd9
    ∷ []

-- the same with a segment that says it is shorter than its length field
abbrev broken : List ℕ
broken =
    0xff ∷ 0xd8 ∷ 0xff ∷ 0xe0 ∷ 0 ∷ 1 ∷ 0xff ∷ 0xc0 ∷ 0 ∷ 11 ∷ 8 ∷ 0 ∷ 2 ∷ 0 ∷ 3 ∷ 1 ∷ 0xff ∷ 0xd9
    ∷ []

abbrev lossless : List ℕ
lossless =
    codes "RIFF"
    ++ ((0 ∷ 0 ∷ 0 ∷ 0 ∷ [])
        ++ (codes "WEBPVP8L" ++ (0 ∷ 0 ∷ 0 ∷ 0 ∷ 0x2f ∷ 2 ∷ 0x40 ∷ 0 ∷ 0 ∷ 0 ∷ 0 ∷ 0 ∷ 0 ∷ 0 ∷ [])))

runs :
    (inspect_image same [] none ≡ some (rejected empty))
    × (inspect_image same photo none ≡ some (accepted jpeg 3 2))
    × (inspect_image same photo (some "image/png") ≡ some (rejected declared_mime_mismatch))
    × (inspect_image same photo (some "image/jpg") ≡ some (accepted jpeg 3 2))
    × (inspect_image same broken none ≡ some (rejected dimensions_unreadable))
    × (inspect_image same lossless none ≡ some (accepted webp 3 2))
    × (sniff (codes " <SVG>") ≡ svg)
unfolding rules
runs = (refl, refl, refl, refl, refl, refl, refl)

read_dimensions_total_example : (size : Option Size) × (read_dimensions broken jpeg ≡ some size)
read_dimensions_total_example = read_dimensions_total broken jpeg

inspect_image_accepted_example : IsChecked same photo none jpeg 3 2
inspect_image_accepted_example = inspect_image_accepted same photo none jpeg 3 2 runs.1

inspect_image-png_file_example :
    inspect_image same (png_file 5000 4000 (7 ∷ [])) none ≡ some (accepted png 5000 4000)
inspect_image-png_file_example =
    inspect_image-png_file same 5000 4000 (7 ∷ []) (omega arith) (omega arith) (omega arith)
      (omega arith)

abbrev item : String → ℕ → Bool → Item
item id size fine = record { id = id; byte_length = size; accepted = fine }

abbrev items : List Item
items =
    item "a" 9000000 true
    ∷ item "b" 5 false
    ∷ item "c" 9000000 true
    ∷ item "d" 9000000 true
    ∷ item "e" 10 true
    ∷ item "f" 10 true
    ∷ []

selects :
    ((select_processable_images items).selected
      ≡ item "a" 9000000 true ∷ item "c" 9000000 true ∷ item "e" 10 true ∷ [])
    × ((select_processable_images items).skipped
        ≡ item "b" 5 false ∷ item "d" 9000000 true ∷ item "f" 10 true ∷ [])
unfolding rules
selects = (refl, refl)

select_processable_images-IsWithin_example : IsWithin 0 0 items (select_processable_images items)
select_processable_images-IsWithin_example = select_processable_images-IsWithin items
