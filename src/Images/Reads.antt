-- ===== src/Images/Reads.antt =====
-- src/lib/media/image-validation.ts: no read leaves the file, and the walk over a JPEG ends.
use ticketguy.Prelude.{
  ℕ, zero, suc, ◌+◌, ◌*◌, ◌<◌, ◌≤◌, ◌≡◌, inl, inr, refl, Bool, true, false, Option, none, some,
  List, [], ◌∷◌, arith, ltb, ltb→lt, length, get_elem?, Bool-cases, ◌==◌, if◌then◌else◌,
}
use ticketguy.Images.{
  ImageType, jpeg, png, webp, Size, Walk, ran_out, threw, unreadable, found, Round, ended, onward,
  ◌>>=◌, uint16, uint16_little, uint32, png_size, is_frame, is_standalone, frame_size, jpeg_segment,
  jpeg_round, jpeg_walk, jpeg_size, outcome_of,
}
use ticketguy.Images.Inspect.{extended_size, lossy_size, lossless_size, webp_size, read_dimensions}

abbrev Returns {ℓ} : {A : Type ℓ} → Option A → Type ℓ
Returns {A = A} o = (a : A) × (o ≡ some a)

bind_total {ℓ κ} :
    {A : Type ℓ} {B : Type κ} (m : Option A) (f : A → Option B)
    → Returns m
    → ((a : A) → Returns (f a))
    → Returns (m >>= f)
bind_total (some a) f r rest = rest a
bind_total none f r rest = absurd (cc (r.1))

pub get_elem?_inside : (bytes : List ℕ) (i : ℕ) → i < length bytes → Returns (get_elem? bytes i)
get_elem?_inside [] i h = absurd (omega arith)
get_elem?_inside (b ∷ bs) zero h = (b, refl)
get_elem?_inside (b ∷ bs) (suc i) h = get_elem?_inside bs i (omega arith)

module _ (bytes : List ℕ) (i : ℕ) where
  pub uint16_inside : i + 1 < length bytes → Returns (uint16 bytes i)
  unfolding uint16
  uint16_inside h =
      let (a, p) = get_elem?_inside bytes i (omega arith) in
      let (b, q) = get_elem?_inside bytes (i + 1) h in (a * 256 + b, rw (p, ◌>>=◌) (rw (q, ◌>>=◌)))

  uint16_little_inside : i + 1 < length bytes → Returns (uint16_little bytes i)
  unfolding uint16_little
  uint16_little_inside h =
      let (a, p) = get_elem?_inside bytes i (omega arith) in
      let (b, q) = get_elem?_inside bytes (i + 1) h in (b * 256 + a, rw (p, ◌>>=◌) (rw (q, ◌>>=◌)))

uint32_inside : (bytes : List ℕ) (i : ℕ) → i + 3 < length bytes → Returns (uint32 bytes i)
unfolding uint32
uint32_inside bytes i h =
    let (a, p) = uint16_inside bytes i (omega arith) in
    let (b, q) = uint16_inside bytes (i + 2) (omega arith) in
    (a * 65536 + b, rw (p, ◌>>=◌) (rw (q, ◌>>=◌)))

png_size_total : (bytes : List ℕ) → Returns (png_size bytes)
unfolding png_size
png_size_total bytes = elim (Bool-cases (ltb (length bytes) 24)) [
  | inl short ↦ rw short (none, refl)
  | inr long ↦
      let (w, p) = uint32_inside bytes 16 (ground arith) in
      let (h, q) = uint32_inside bytes 20 (ground arith) in
      rw long (some (record { width = w; height = h }), rw (p, ◌>>=◌) (rw (q, ◌>>=◌)))
]

-- What a round may come to while nine bytes are left.
abbrev Goes : ℕ → Round → Type 0
Goes i (ended ran_out) = ⊥
Goes i (ended threw) = ⊥
Goes i (ended w) = Unit {0}
Goes i (onward j) = i + 2 ≤ j

module _ (bytes : List ℕ) (i : ℕ) (left : i + 9 < length bytes) where
  frame_size-Goes : Goes i (ended (frame_size bytes i))
  frame_size-Goes =
      let (h, p) = uint16_inside bytes (i + 5) (omega arith) in
      let (w, q) = uint16_inside bytes (i + 7) (omega arith) in
      let no_short : ltb (length bytes) (i + 9) ≡ false = ground arith in
      rw no_short (rw p (rw q tt))

  jpeg_segment-Goes : (marker : ℕ) → Goes i (jpeg_segment bytes i marker)
  unfolding jpeg_segment
  jpeg_segment-Goes marker = elim (Bool-cases (is_standalone marker)) [
    | inl alone ↦ rw alone (omega arith)
    | inr e ↦
        let (len, p) = uint16_inside bytes (i + 2) (omega arith) in
        rw e (
          rw p (elim (Bool-cases (ltb len 2)) [
            | inl short ↦ rw short tt
            | inr long ↦ elim (Bool-cases (is_frame marker)) [
              | inl frame ↦ rw (long, frame) frame_size-Goes
              | inr other ↦ rw (long, other) (omega arith)
            ]
          ]))
  ]

  jpeg_round-Goes : Goes i (jpeg_round bytes i)
  unfolding jpeg_round
  jpeg_round-Goes =
      let (b, p) = get_elem?_inside bytes i (omega arith) in
      let (marker, q) = get_elem?_inside bytes (i + 1) (omega arith) in
      rw (p, Goes)
        (elim (Bool-cases (b == 0xff)) [
          | inl e ↦ rw e (rw (q, Goes) (jpeg_segment-Goes marker))
          | inr e ↦ rw e tt
        ])

ended_total : (i : ℕ) (w : Walk) → Goes i (ended w) → Returns (outcome_of w)
ended_total i ran_out h = absurd h
ended_total i threw h = absurd h
ended_total i unreadable h = (none, refl)
ended_total i (found w k) h = (some (record { width = w; height = k }), refl)

round_total :
    (bytes : List ℕ) (fuel i : ℕ)
    → i + 9 < length bytes
    → (r : Round) → Goes i r
    → ((j : ℕ) → i + 2 ≤ j → Returns (outcome_of (jpeg_walk fuel bytes j)))
    → Returns (outcome_of (elim r [ ended w ↦ w | onward j ↦ jpeg_walk fuel bytes j ]))
round_total bytes fuel i left (ended w) h rest = ended_total i w h
round_total bytes fuel i left (onward j) h rest = rest j h

-- `rounds` counts the rounds so far, each of which moved on by a byte at least.
jpeg_walk_total :
    (bytes : List ℕ) (fuel rounds i : ℕ)
    → 0 < fuel
    → rounds ≤ i
    → length bytes < rounds + fuel
    → Returns (outcome_of (jpeg_walk fuel bytes i))
unfolding jpeg_walk
jpeg_walk_total bytes zero rounds i some_fuel before enough = absurd (omega arith)
jpeg_walk_total bytes (suc fuel) rounds i some_fuel before enough =
    elim (Bool-cases (ltb (i + 9) (length bytes))) [
      | inr done ↦ rw (done, outcome_of) (none, refl)
      | inl more ↦
          let left : i + 9 < length bytes = ltb→lt _ _ more in
          rw (more, outcome_of)
            (round_total bytes fuel i left (jpeg_round bytes i) (jpeg_round-Goes bytes i left)
              (λ j on.
                jpeg_walk_total bytes fuel (rounds + 1) j (omega arith) (omega arith)
                  (omega arith)))
    ]

jpeg_size_total : (bytes : List ℕ) → Returns (jpeg_size bytes)
unfolding jpeg_size
jpeg_size_total bytes =
    jpeg_walk_total bytes (suc (length bytes)) 0 2 (omega arith) (omega arith) (omega arith)

-- A byte, and what is made of it.
with_byte {ℓ} :
    {B : Type ℓ} (bytes : List ℕ) (i : ℕ) (f : ℕ → Option B)
    → i < length bytes
    → ((a : ℕ) → Returns (f a))
    → Returns (get_elem? bytes i >>= f)
with_byte bytes i f h rest = bind_total (get_elem? bytes i) f (get_elem?_inside bytes i h) rest

module _ (bytes : List ℕ) (long : 30 ≤ length bytes) where
  extended_size_total : Returns (extended_size bytes)
  unfolding extended_size
  extended_size_total = with_byte bytes 24 _ (omega arith) λ a.
      with_byte bytes 25 _ (omega arith) λ b. with_byte bytes 26 _ (omega arith) λ c.
        with_byte bytes 27 _ (omega arith) λ d.
          with_byte bytes 28 _ (omega arith) λ e. with_byte bytes 29 _ (omega arith) λ f. (_, refl)

  lossy_size_total : Returns (lossy_size bytes)
  unfolding lossy_size
  lossy_size_total =
      bind_total _ _ (uint16_little_inside bytes 26 (omega arith))
        λ w. bind_total _ _ (uint16_little_inside bytes 28 (omega arith)) λ h. (_, refl)

  lossless_size_total : Returns (lossless_size bytes)
  unfolding lossless_size
  lossless_size_total = with_byte bytes 21 _ (omega arith) λ a.
      with_byte bytes 22 _ (omega arith) λ b.
        with_byte bytes 23 _ (omega arith) λ c. with_byte bytes 24 _ (omega arith) λ d. (_, refl)

if_total {ℓ} :
    {A : Type ℓ} {x y : Option A} (b : Bool) → Returns x → Returns y → Returns (if b then x else y)
if_total true x y = x
if_total false x y = y

webp_size_total : (bytes : List ℕ) → Returns (webp_size bytes)
unfolding webp_size
webp_size_total bytes = elim (Bool-cases (ltb (length bytes) 30)) [
  | inl short ↦ rw short (none, refl)
  | inr e ↦
      let long : 30 ≤ length bytes = ground arith in
      rw e (
        if_total _ (extended_size_total bytes long) (
          if_total _ (lossy_size_total bytes long)
            (if_total _ (lossless_size_total bytes long) (none, refl))))
]

-- Reading the size of a file ends, with a size or with the answer that there is none, and every
-- byte that it reads is there: it never throws, whatever the file holds.
pub read_dimensions_total :
    (bytes : List ℕ) (type : ImageType)
    → (size : Option Size) × (read_dimensions bytes type ≡ some size)
unfolding read_dimensions
read_dimensions_total bytes jpeg = jpeg_size_total bytes
read_dimensions_total bytes png = png_size_total bytes
read_dimensions_total bytes webp = webp_size_total bytes
