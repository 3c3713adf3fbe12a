-- ===== src/Prelude/Filtering.antt =====
-- Filtering a list that is sorted, and sorting a list that is filtered.
use Prim.Native.Nat.{Ordering}
use mathlib.Core.Path.{◌≡◌, refl, sym, ◌∙◌}
use mathlib.Core.Logic.{◌≢◌, inl, inr}
use mathlib.Core.List.{List, [], ◌∷◌}
use mathlib.Core.Bool.{Bool, true, false}
use native.Mathlib.Omega.{arith}
use ticketguy.Prelude.Lists.{All, All-imp, All-keep, keep}
use ticketguy.Prelude.Sorting.{is_gt, insert_by, sort_by, IsConsistent, IsSorted, sort_by-IsSorted}
use ticketguy.Prelude.Tests.{if◌then◌else◌, Bool-cases}

module _ {ℓ} {A : Type ℓ} where
  pub keep_comm : (p q : A → Bool) (xs : List A) → keep p (keep q (keep p xs)) ≡ keep p (keep q xs)
  keep_comm p q [] = refl
  keep_comm p q (x ∷ xs) = elim (Bool-cases (p x)) [
    | inl e ↦ elim (Bool-cases (q x)) [
      | inl f ↦ simp (e, f, keep_comm p q xs)
      | inr f ↦ simp (e, f, keep_comm p q xs)
    ]
    | inr e ↦ elim (Bool-cases (q x)) [
      | inl f ↦ simp (e, f, keep_comm p q xs)
      | inr f ↦ simp (e, f, keep_comm p q xs)
    ]
  ]

  insert_first :
      (cmp : A → A → Ordering) (x : A) (zs : List A)
      → All (λ z. cmp x z ≢ Ordering.gt) zs
      → insert_by cmp x zs ≡ x ∷ zs
  unfolding insert_by
  insert_first cmp x [] h = refl
  insert_first cmp x (z ∷ zs) h = elim (Bool-cases (is_gt (cmp x z))) [
    | inl e ↦ absurd (h.0 (gt_of _ e))
    | inr e ↦ rw e
  ]
    where
      gt_of : (o : Ordering) → is_gt o ≡ true → o ≡ Ordering.gt
      gt_of o e = ground arith

module _ {ℓ} {A : Type ℓ} {cmp : A → A → Ordering} (c : IsConsistent cmp) (p : A → Bool) where
  first :
      (x y : A) (ys : List A)
      → IsSorted cmp (y ∷ ys)
      → is_gt (cmp x y) ≡ false
      → All (λ z. cmp x z ≢ Ordering.gt) (y ∷ ys)
  first x y ys h n =
      let least : cmp x y ≢ Ordering.gt = ground arith in
      (least, All-imp (λ z q. c.trans x y z least q) ys h.0)

  keep-insert_by :
      (x : A) (ys : List A)
      → IsSorted cmp ys
      → keep p (insert_by cmp x ys) ≡ (if p x then insert_by cmp x (keep p ys) else keep p ys)
  unfolding insert_by
  keep-insert_by x [] h = elim (Bool-cases (p x)) [ inl e ↦ simp e | inr e ↦ simp e ]
  keep-insert_by x (y ∷ ys) h = elim (Bool-cases (is_gt (cmp x y))) [
    | inl g ↦
        let ih = keep-insert_by x ys h.1 in
        elim (Bool-cases (p y)) [
          | inl ey ↦ elim (Bool-cases (p x)) [
            | inl ex ↦ simp (g, ey, ex, ih)
            | inr ex ↦ simp (g, ey, ex, ih)
          ]
          | inr ey ↦ elim (Bool-cases (p x)) [
            | inl ex ↦ simp (g, ey, ex, ih)
            | inr ex ↦ simp (g, ey, ex, ih)
          ]
        ]
    | inr n ↦ elim (Bool-cases (p x)) [
      | inl ex ↦
          rw (n, ex)
            (sym (insert_first cmp x (keep p (y ∷ ys)) (All-keep _ p (y ∷ ys) (first x y ys h n))))
      | inr ex ↦ rw (n, ex)
    ]
  ]

  pub keep-sort_by : (xs : List A) → keep p (sort_by cmp xs) ≡ sort_by cmp (keep p xs)
  unfolding sort_by
  keep-sort_by [] = refl
  keep-sort_by (x ∷ xs) =
      let step = keep-insert_by x (sort_by cmp xs) (sort_by-IsSorted c xs) in
      let rest = keep-sort_by xs in
      elim (Bool-cases (p x)) [ inl e ↦ step ∙ simp (e, rest) | inr e ↦ step ∙ simp (e, rest) ]
