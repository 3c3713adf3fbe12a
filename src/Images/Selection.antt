-- ===== src/Images/Selection.antt =====
-- src/lib/media/image-validation.ts: which images of a message are processed.
use mathlib.Core.List.{perm_middle}
use mathlib.Core.List.Perm
use ticketguy.Prelude.{
  ℕ, suc, ◌+◌, ◌<◌, ◌≤◌, ◌≡◌, ◌⊎◌, inl, inr, true, false, List, [], ◌∷◌, ◌++◌, Perm, arith, length,
  leb, All, Bool-cases,
}
use ticketguy.Images.{max_total_bytes, max_images_per_message}
use ticketguy.Images.Inspect.{Item, Selected, is_skipped, select_from, select_processable_images}

abbrev pub bytes_of : List Item → ℕ
bytes_of [] = 0
bytes_of (it ∷ items) = it.byte_length + bytes_of items

-- An item that may stay out: it is no accepted image, or the images or the bytes are used up.
abbrev pub MaySkip : ℕ → ℕ → Item → Type 0
MaySkip count total it =
    (it.accepted ≡ false)
    ⊎ (max_images_per_message ≤ count)
    ⊎ (max_total_bytes < total + it.byte_length)

-- What a selection keeps to, when `count` images of `total` bytes were selected before it.
pub record IsWithin (count total : ℕ) (items : List Item) (r : Selected) : Type 0 where
  pub few : count + length r.selected ≤ max_images_per_message
  pub small : total + bytes_of r.selected ≤ max_total_bytes
  pub accepted : All (λ (it : Item). it.accepted ≡ true) r.selected
  pub kept : Perm (r.selected ++ r.skipped) items
  pub justified : All (MaySkip (count + length r.selected) (total + bytes_of r.selected)) r.skipped

may_skip :
    (count total : ℕ) (it : Item) (more bytes : ℕ)
    → is_skipped count total it ≡ true
    → MaySkip (count + more) (total + bytes) it
may_skip count total it more bytes h = elim (Bool-cases it.accepted) [
  | inr refused ↦ inl refused
  | inl e ↦ elim (Bool-cases (leb max_images_per_message count)) [
    | inl full ↦ inr (inl (ground arith))
    | inr room ↦ inr (inr (ground arith))
  ]
]

select_from-IsWithin :
    (count total : ℕ) (items : List Item)
    → count ≤ max_images_per_message
    → total ≤ max_total_bytes
    → IsWithin count total items (select_from count total items)
unfolding select_from
select_from-IsWithin count total [] c t = record {
  few = omega arith;
  small = omega arith;
  accepted = tt;
  kept = Perm.refl _;
  justified = tt;
}
select_from-IsWithin count total (it ∷ items) c t = elim (Bool-cases (is_skipped count total it)) [
  | inl skip ↦
      let passed = select_from-IsWithin count total items c t in
      rw skip (record {
        few = passed.few;
        small = passed.small;
        accepted = passed.accepted;
        kept = Perm.trans (perm_middle _ _) (Perm.cons it passed.kept);
        justified = (may_skip count total it _ _ skip, passed.justified);
      })
  | inr taking ↦
      let rest = select_from (count + 1) (total + it.byte_length) items in
      let more_of : count + suc (length rest.selected) ≡ count + 1 + length rest.selected =
        omega arith in
      let total_of : total + (it.byte_length + bytes_of rest.selected)
          ≡ total + it.byte_length + bytes_of rest.selected =
        omega arith in
      let taken =
        select_from-IsWithin (count + 1) (total + it.byte_length) items (ground arith)
          (ground arith) in
      rw taking (record {
        few = omega (arith, taken.few);
        small = omega (arith, taken.small);
        accepted = (ground arith, taken.accepted);
        kept = Perm.cons it taken.kept;
        justified = rw (more_of, total_of) taken.justified;
      })
]

-- The selection has three images at most and 20 MB at most, all of them accepted; with the skipped
-- ones it holds every item once; and an accepted image is skipped only when three are selected, or
-- when it does not fit into what the selected ones leave of the 20 MB.
pub select_processable_images-IsWithin :
    (items : List Item) → IsWithin 0 0 items (select_processable_images items)
unfolding select_processable_images
select_processable_images-IsWithin items =
    select_from-IsWithin 0 0 items (omega arith) (omega arith)
