-- ===== src/Images.antt =====
-- src/lib/media/image-validation.ts: what kind of image a file is and how large it says it is, read
-- from its first bytes before any decoder runs, and the images of a message that are processed.
-- A file is the list of its bytes. Bytes are below 256, so that the source's `|` of shifted bytes,
-- whose bits do not meet, is a sum, and `& (2^k - 1)` a remainder. Reads are none outside the file:
-- there the source's DataView throws.
pub mod Headers
pub mod Inspect
pub mod Limits
pub mod Reads
pub mod Selection
mod Tests
use Prim.Native.String.{String}
use Prim.Native.Char.{code}
use ticketguy.Prelude.{
  ℕ, zero, suc, ◌+◌, ◌*◌, ◌/◌, ◌%◌, String, Bool, true, false, not, ◌&&◌, ◌||◌, Option, none, some,
  List, [], ◌∷◌, ◌++◌, str_eq, ltb, leb, ◌==◌, if◌then◌else◌, length, take, get_elem?,
}
use ticketguy.Prelude.Pushes.{push_if}

abbrev pub max_bytes : ℕ
max_bytes = 10485760

abbrev pub max_total_bytes : ℕ
max_total_bytes = 20971520

abbrev pub max_pixels : ℕ
max_pixels = 25000000

abbrev pub max_images_per_message : ℕ
max_images_per_message = 3

pub data ImageType : Type 0 where
  jpeg png webp : ImageType

pub data Sniffed : Type 0 where
  image : ImageType → Sniffed
  svg html pdf unknown : Sniffed

abbrev pub codes : String → List ℕ
codes String.[] = []
codes (String.◌∷◌ c s) = code c ∷ codes s

-- `startsWith`
abbrev pub starts_with : List ℕ → List ℕ → Bool
starts_with [] bytes = true
starts_with (p ∷ ps) [] = false
starts_with (p ∷ ps) (b ∷ bs) = (p == b) && starts_with ps bs

-- `includes`
abbrev pub includes : List ℕ → List ℕ → Bool
includes ps [] = starts_with ps []
includes ps (b ∷ bs) = starts_with ps (b ∷ bs) || includes ps bs

abbrev pub drop : ℕ → List ℕ → List ℕ
drop zero bs = bs
drop (suc n) [] = []
drop (suc n) (b ∷ bs) = drop n bs

abbrev is_space : ℕ → Bool
is_space b = (leb 9 b && leb b 13) || ((b == 32) || (b == 160))

abbrev pub trim_start : List ℕ → List ℕ
trim_start [] = []
trim_start (b ∷ bs) = let rest = trim_start bs in if is_space b then rest else b ∷ bs

-- lower case of the letters that the tests below know
abbrev lower_byte : ℕ → ℕ
lower_byte b = if leb 65 b && leb b 90 then b + 32 else b

abbrev lower_bytes : List ℕ → List ℕ
lower_bytes [] = []
lower_bytes (b ∷ bs) = lower_byte b ∷ lower_bytes bs

unfoldable pub sniff_text : List ℕ → Sniffed
sniff_text bytes =
    let head = lower_bytes (trim_start (take 512 bytes)) in
    if starts_with (codes "%pdf") head
    then pdf
    else if starts_with (codes "<svg") head
        || (starts_with (codes "<?xml") head && includes (codes "<svg") head)
    then svg
    else if starts_with (codes "<!doctype html") head || starts_with (codes "<html") head
    then html
    else unknown

abbrev pub png_signature : List ℕ
png_signature = 0x89 ∷ 0x50 ∷ 0x4e ∷ 0x47 ∷ 0x0d ∷ 0x0a ∷ 0x1a ∷ 0x0a ∷ []

abbrev jpeg_signature : List ℕ
jpeg_signature = 0xff ∷ 0xd8 ∷ 0xff ∷ []

unfoldable pub sniff : List ℕ → Sniffed
sniff bytes =
    if starts_with jpeg_signature bytes
    then image jpeg
    else if starts_with png_signature bytes
    then image png
    else if leb 12 (length bytes)
        && (starts_with (codes "RIFF") bytes && starts_with (codes "WEBP") (drop 8 bytes))
    then image webp
    else sniff_text bytes

infixl 5 ◌>>=◌
abbrev pub ◌>>=◌ {ℓ κ} : {A : Type ℓ} {B : Type κ} → Option A → (A → Option B) → Option B
none >>= f = none
some a >>= f = f a

-- `getUint16(i)`
unfoldable pub uint16 : List ℕ → ℕ → Option ℕ
uint16 bytes i = do a ← get_elem? bytes i; b ← get_elem? bytes (i + 1); some (a * 256 + b)

-- `getUint16(i, true)`
unfoldable pub uint16_little : List ℕ → ℕ → Option ℕ
uint16_little bytes i = do a ← get_elem? bytes i; b ← get_elem? bytes (i + 1); some (b * 256 + a)

-- `getUint32(i)`
unfoldable pub uint32 : List ℕ → ℕ → Option ℕ
unfolding uint16
uint32 bytes i = do a ← uint16 bytes i; b ← uint16 bytes (i + 2); some (a * 65536 + b)

pub record Size : Type 0 where
  pub width : ℕ
  pub height : ℕ

unfoldable pub png_size : List ℕ → Option (Option Size)
unfolding uint32
png_size bytes =
    if ltb (length bytes) 24
    then some none
    else do w ← uint32 bytes 16; h ← uint32 bytes 20; some (some (record { width = w; height = h }))

-- What the walk over a JPEG's segments comes to.
pub data Walk : Type 0 where
  ran_out threw unreadable : Walk
  found : ℕ → ℕ → Walk

abbrev pub is_standalone : ℕ → Bool
is_standalone marker =
    (marker == 0xd8) || ((marker == 0x01) || (leb 0xd0 marker && leb marker 0xd7))

abbrev pub is_frame : ℕ → Bool
is_frame marker =
    (leb 0xc0 marker && leb marker 0xc3)
    || ((leb 0xc5 marker && leb marker 0xc7)
        || ((leb 0xc9 marker && leb marker 0xcb) || (leb 0xcd marker && leb marker 0xcf)))

abbrev pub frame_size : List ℕ → ℕ → Walk
frame_size bytes i =
    if ltb (length bytes) (i + 9) then unreadable else elim (uint16 bytes (i + 5)) [
      | none ↦ threw
      | some h ↦ elim (uint16 bytes (i + 7)) [ none ↦ threw | some w ↦ found w h ]
    ]

-- One round of the loop body: it ends the walk, or gives the next offset.
pub data Round : Type 0 where
  ended : Walk → Round
  onward : ℕ → Round

unfoldable pub jpeg_segment : List ℕ → ℕ → ℕ → Round
jpeg_segment bytes i marker =
    if is_standalone marker then onward (i + 2) else elim (uint16 bytes (i + 2)) [
      | none ↦ ended threw
      | some len ↦
          if ltb len 2
          then ended unreadable
          else if is_frame marker
          then ended (frame_size bytes i)
          else onward (i + 2 + len)
    ]

unfoldable pub jpeg_round : List ℕ → ℕ → Round
unfolding jpeg_segment
jpeg_round bytes i = elim (get_elem? bytes i) [
  | none ↦ ended threw
  | some b ↦ if not (b == 0xff) then ended unreadable else elim (get_elem? bytes (i + 1)) [
    | none ↦ ended threw
    | some marker ↦ jpeg_segment bytes i marker
  ]
]

unfoldable pub jpeg_walk : ℕ → List ℕ → ℕ → Walk
jpeg_walk zero bytes i = ran_out
jpeg_walk (suc fuel) bytes i = elim (ltb (i + 9) (length bytes)) [
  | false ↦ unreadable
  | true ↦ elim (jpeg_round bytes i) [ ended w ↦ w | onward j ↦ jpeg_walk fuel bytes j ]
]

abbrev pub outcome_of : Walk → Option (Option Size)
outcome_of ran_out = none
outcome_of threw = none
outcome_of unreadable = some none
outcome_of (found w h) = some (some (record { width = w; height = h }))

-- every round moves on by two bytes at least, so that the length is fuel enough
unfoldable pub jpeg_size : List ℕ → Option (Option Size)
unfolding jpeg_walk jpeg_round
jpeg_size bytes = outcome_of (jpeg_walk (suc (length bytes)) bytes 2)
