-- ===== src/Images/Inspect.antt =====
-- src/lib/media/image-validation.ts: the sizes of WebP files, inspectImage and
-- selectProcessableImages. `toLowerCase` is the argument `lower`.
use ticketguy.Prelude.{
  ℕ, ◌+◌, ◌*◌, ◌/◌, ◌%◌, String, Bool, true, false, not, ◌&&◌, ◌||◌, Option, none, some, List, [],
  ◌∷◌, str_eq, ltb, leb, ◌==◌, if◌then◌else◌, length, get_elem?,
}
use ticketguy.Images.{
  ImageType, jpeg, png, webp, Sniffed, image, Size, max_bytes, max_total_bytes, max_pixels,
  max_images_per_message, codes, starts_with, drop, sniff, ◌>>=◌, uint16_little, png_size,
  jpeg_size,
}

unfoldable pub extended_size : List ℕ → Option (Option Size)
extended_size bytes = do
  w0 ← get_elem? bytes 24
  w1 ← get_elem? bytes 25
  w2 ← get_elem? bytes 26
  h0 ← get_elem? bytes 27
  h1 ← get_elem? bytes 28
  h2 ← get_elem? bytes 29
  some (
      some (record {
        width = 1 + (w0 + w1 * 256 + w2 * 65536);
        height = 1 + (h0 + h1 * 256 + h2 * 65536);
      }))

unfoldable pub lossy_size : List ℕ → Option (Option Size)
lossy_size bytes = do
  w ← uint16_little bytes 26
  h ← uint16_little bytes 28
  some (some (record { width = w % 16384; height = h % 16384 }))

unfoldable pub lossless_size : List ℕ → Option (Option Size)
lossless_size bytes = do
  b0 ← get_elem? bytes 21
  b1 ← get_elem? bytes 22
  b2 ← get_elem? bytes 23
  b3 ← get_elem? bytes 24
  some (
      some (record {
        width = 1 + (b1 % 64 * 256 + b0);
        height = 1 + (b3 % 16 * 1024 + b2 * 4 + b1 / 64);
      }))

unfoldable pub webp_size : List ℕ → Option (Option Size)
webp_size bytes =
    let chunk = drop 12 bytes in
    if ltb (length bytes) 30
    then some none
    else if starts_with (codes "VP8X") chunk
    then extended_size bytes
    else if starts_with (codes "VP8 ") chunk
    then lossy_size bytes
    else if starts_with (codes "VP8L") chunk
    then lossless_size bytes
    else some none

-- `none` is an exception, `some none` the answer null
unfoldable pub read_dimensions : List ℕ → ImageType → Option (Option Size)
read_dimensions bytes png = png_size bytes
read_dimensions bytes jpeg = jpeg_size bytes
read_dimensions bytes webp = webp_size bytes

pub data Rejection : Type 0 where
  too_large unsupported_type declared_mime_mismatch dimensions_unreadable : Rejection
  too_many_pixels empty : Rejection

pub data Inspection : Type 0 where
  accepted : ImageType → ℕ → ℕ → Inspection
  rejected : Rejection → Inspection

abbrev pub mime_of : ImageType → String
mime_of jpeg = "image/jpeg"
mime_of png = "image/png"
mime_of webp = "image/webp"

abbrev is_jpeg : ImageType → Bool
is_jpeg jpeg = true
is_jpeg _ = false

abbrev pub declares_other : (String → String) → Option String → ImageType → Bool
declares_other lower none type = false
declares_other lower (some mime) type =
    not (str_eq mime "")
    && (not (str_eq (lower mime) (mime_of type))
        && not (str_eq (lower mime) "image/jpg" && is_jpeg type))

abbrev pub check_size : ImageType → Option Size → Inspection
check_size type none = rejected dimensions_unreadable
check_size type (some size) =
    if (size.width == 0) || (size.height == 0)
    then rejected dimensions_unreadable
    else if ltb max_pixels (size.width * size.height)
    then rejected too_many_pixels
    else accepted type size.width size.height

abbrev pub inspect_sniffed :
    (String → String) → List ℕ → Option String → Sniffed → Option Inspection
inspect_sniffed lower bytes declared (image type) =
    if declares_other lower declared type
    then some (rejected declared_mime_mismatch)
    else read_dimensions bytes type >>= λ size. some (check_size type size)
inspect_sniffed lower bytes declared _ = some (rejected unsupported_type)

-- `none` is an exception
unfoldable pub inspect_image : (String → String) → List ℕ → Option String → Option Inspection
inspect_image lower bytes declared =
    if length bytes == 0
    then some (rejected empty)
    else if ltb max_bytes (length bytes)
    then some (rejected too_large)
    else inspect_sniffed lower bytes declared (sniff bytes)

-- an item of a message, with what is read of it
pub record Item : Type 0 where
  pub id : String
  pub byte_length : ℕ
  pub accepted : Bool

pub record Selected : Type 0 where
  pub selected : List Item
  pub skipped : List Item

abbrev pub is_skipped : ℕ → ℕ → Item → Bool
is_skipped count total it =
    not it.accepted
    || (leb max_images_per_message count || ltb max_total_bytes (total + it.byte_length))

-- the loop, with what is selected so far as its count and its total
unfoldable pub select_from : ℕ → ℕ → List Item → Selected
select_from count total [] = record { selected = []; skipped = [] }
select_from count total (it ∷ items) =
    let passed = select_from count total items in
    let taken = select_from (count + 1) (total + it.byte_length) items in
    if is_skipped count total it
    then record passed { skipped = it ∷ passed.skipped }
    else record taken { selected = it ∷ taken.selected }

unfoldable pub select_processable_images : List Item → Selected
unfolding select_from
select_processable_images items = select_from 0 0 items
