-- ===== src/Images/Limits.antt =====
-- src/lib/media/image-validation.ts: what is known of an image that is accepted.
use ticketguy.Prelude.{
  ℕ, ◌*◌, ◌<◌, ◌≤◌, ◌≡◌, inl, inr, refl, ap, ◌∙◌, subst, String, false, Option, none, some, List,
  arith, length, Bool-cases, Option-cases, ltb, ◌==◌,
}
use ticketguy.Images.{
  ImageType, Sniffed, image, svg, html, pdf, unknown, Size, max_bytes, max_pixels, sniff, ◌>>=◌,
}
use ticketguy.Images.Inspect.{
  accepted, read_dimensions, declares_other, check_size, inspect_sniffed, inspect_image,
}

-- What an accepted image has been checked for.
pub record IsChecked (lower : String → String) (bytes : List ℕ) (declared : Option String)
    (type : ImageType) (w h : ℕ) : Type 0 where
  pub sniffed : sniff bytes ≡ image type
  pub undisputed : declares_other lower declared type ≡ false
  pub read : read_dimensions bytes type ≡ some (some (record { width = w; height = h }))
  pub wide : 0 < w
  pub high : 0 < h
  pub pixels : w * h ≤ max_pixels
  pub size : length bytes ≤ max_bytes

check_size_accepted :
    (type t : ImageType) (size : Option Size) (w h : ℕ)
    → check_size type size ≡ accepted t w h
    → (type ≡ t)
      × (size ≡ some (record { width = w; height = h }))
      × (0 < w)
      × (0 < h)
      × (w * h ≤ max_pixels)
check_size_accepted type t none w h e = absurd (cc e)
check_size_accepted type t (some size) w h e = ground arith

module _ (lower : String → String) (bytes : List ℕ) (declared : Option String) (type : ImageType)
    (w h : ℕ) where
  of_sniffed :
      (s : Sniffed)
      → sniff bytes ≡ s
      → length bytes ≤ max_bytes
      → inspect_sniffed lower bytes declared s ≡ some (accepted type w h)
      → IsChecked lower bytes declared type w h
  of_sniffed (image t) same size e = elim (Bool-cases (declares_other lower declared t)) [
    | inl other ↦ absurd (cc (rw other at e))
    | inr fine ↦ elim (Option-cases (read_dimensions bytes t)) [
      | inl none_read ↦ absurd (cc (rw (fine, none_read, ◌>>=◌) at e))
      | inr (read_size, r) ↦
          let q : check_size t read_size ≡ accepted type w h = cc (rw (fine, r, ◌>>=◌) at e) in
          let (it_is, s, pw, ph, px) = check_size_accepted t type read_size w h q in
          subst (λ u. IsChecked lower bytes declared u w h) it_is
            (record {
              sniffed = same;
              undisputed = fine;
              read = r ∙ ap some s;
              wide = pw;
              high = ph;
              pixels = px;
              size = size;
            })
    ]
  ]
  of_sniffed svg same size e = absurd (cc e)
  of_sniffed html same size e = absurd (cc e)
  of_sniffed pdf same size e = absurd (cc e)
  of_sniffed unknown same size e = absurd (cc e)

  -- An image is accepted only when its first bytes are those of its type, no other type was
  -- declared for it, its header was read and says this width and height, both are positive, it
  -- has 25 million pixels at most and the file 10 MB at most.
  pub inspect_image_accepted :
      inspect_image lower bytes declared ≡ some (accepted type w h)
      → IsChecked lower bytes declared type w h
  unfolding inspect_image
  inspect_image_accepted e = elim (Bool-cases (length bytes == 0)) [
    | inl e0 ↦ absurd (cc (rw e0 at e))
    | inr e1 ↦ elim (Bool-cases (ltb max_bytes (length bytes))) [
      | inl e2 ↦ absurd (cc (rw (e1, e2) at e))
      | inr e2 ↦ of_sniffed (sniff bytes) refl (ground arith) (rw (e1, e2) at e)
    ]
  ]
