-- ===== src/Prelude/Sorting.antt =====
-- `Array.prototype.sort` with a comparator: a stable sort, written as insertion.
-- `Ordering.gt` stands for a positive result of the comparator.
use Prim.Native.Nat.{ℕ, compare, Ordering}
use mathlib.Core.Path.{◌≡◌}
use mathlib.Core.Logic.{◌≢◌, inl, inr}
use mathlib.Core.List.{List, [], ◌∷◌, Perm}
use mathlib.Core.List.Perm
use mathlib.Core.Bool.{Bool, true, false}
use native.Mathlib.Omega.{arith}
use ticketguy.Prelude.Lists.{All, All-imp}
use ticketguy.Prelude.Tests.{if◌then◌else◌, Bool-cases}

-- the sign of `a || b`, for comparators
abbrev pub then_by : Ordering → Ordering → Ordering
then_by Ordering.eq b = b
then_by a _ = a

abbrev pub flip_order : Ordering → Ordering
flip_order Ordering.lt = Ordering.gt
flip_order Ordering.eq = Ordering.eq
flip_order Ordering.gt = Ordering.lt

abbrev pub is_gt : Ordering → Bool
is_gt Ordering.gt = true
is_gt _ = false

module _ {ℓ} {A : Type ℓ} where
  unfoldable pub insert_by : (A → A → Ordering) → A → List A → List A
  insert_by cmp x [] = x ∷ []
  insert_by cmp x (y ∷ ys) =
      let later = y ∷ insert_by cmp x ys in if is_gt (cmp x y) then later else x ∷ y ∷ ys

  unfoldable pub sort_by : (A → A → Ordering) → List A → List A
  unfolding insert_by
  sort_by cmp [] = []
  sort_by cmp (x ∷ xs) = insert_by cmp x (sort_by cmp xs)

  insert_by-perm :
      (cmp : A → A → Ordering) (x : A) (ys : List A) → Perm (insert_by cmp x ys) (x ∷ ys)
  unfolding insert_by
  insert_by-perm cmp x [] = Perm.refl _
  insert_by-perm cmp x (y ∷ ys) = elim (Bool-cases (is_gt (cmp x y))) [
    | inl e ↦ rw e (Perm.trans (Perm.cons y (insert_by-perm cmp x ys)) (Perm.swap _ _ _))
    | inr e ↦ rw e (Perm.refl _)
  ]

  pub sort_by-perm : (cmp : A → A → Ordering) (xs : List A) → Perm (sort_by cmp xs) xs
  unfolding sort_by
  sort_by-perm cmp [] = Perm.refl _
  sort_by-perm cmp (x ∷ xs) =
      Perm.trans (insert_by-perm cmp x (sort_by cmp xs)) (Perm.cons x (sort_by-perm cmp xs))

module _ {ℓ κ} {A : Type ℓ} (P : A → Type κ) (cmp : A → A → Ordering) where
  insert_by-All : (x : A) (ys : List A) → P x → All P ys → All P (insert_by cmp x ys)
  unfolding insert_by
  insert_by-All x [] px h = (px, tt)
  insert_by-All x (y ∷ ys) px h = elim (Bool-cases (is_gt (cmp x y))) [
    | inl e ↦ rw e (h.0, insert_by-All x ys px h.1)
    | inr e ↦ rw e (px, h)
  ]

  pub sort_by-All : (xs : List A) → All P xs → All P (sort_by cmp xs)
  unfolding sort_by
  sort_by-All [] h = tt
  sort_by-All (x ∷ xs) h = insert_by-All x (sort_by cmp xs) h.0 (sort_by-All xs h.1)

-- A comparator that is consistent: a total preorder.
pub record IsConsistent {ℓ} {A : Type ℓ} (cmp : A → A → Ordering) : Type ℓ where
  pub total : (a b : A) → cmp a b ≡ Ordering.gt → cmp b a ≢ Ordering.gt
  pub trans : (a b c : A) → cmp a b ≢ Ordering.gt → cmp b c ≢ Ordering.gt → cmp a c ≢ Ordering.gt

module _ {ℓ} {A : Type ℓ} (cmp : A → A → Ordering) where
  -- Each element is no greater than any later one.
  abbrev pub IsSorted : List A → Type ℓ
  IsSorted [] = Unit
  IsSorted (x ∷ xs) = All (λ y. cmp x y ≢ Ordering.gt) xs × IsSorted xs

  is_gt-false : (a b : A) → is_gt (cmp a b) ≡ false → cmp a b ≢ Ordering.gt
  is_gt-false a b h = ground arith

  is_gt-true : (a b : A) → is_gt (cmp a b) ≡ true → cmp a b ≡ Ordering.gt
  is_gt-true a b h = ground arith

module _ {ℓ} {A : Type ℓ} {cmp : A → A → Ordering} (c : IsConsistent cmp) where
  insert_by-IsSorted : (x : A) (ys : List A) → IsSorted cmp ys → IsSorted cmp (insert_by cmp x ys)
  unfolding insert_by
  insert_by-IsSorted x [] h = (tt, tt)
  insert_by-IsSorted x (y ∷ ys) h = elim (Bool-cases (is_gt (cmp x y))) [
    | inl e ↦ rw e (
      insert_by-All (λ z. cmp y z ≢ Ordering.gt) cmp x ys (c.total x y (is_gt-true cmp x y e)) h.0,
      insert_by-IsSorted x ys h.1,
    )
    | inr e ↦
        let first = is_gt-false cmp x y e in
        rw e ((first, All-imp (λ z p. c.trans x y z first p) ys h.0), h)
  ]

  pub sort_by-IsSorted : (xs : List A) → IsSorted cmp (sort_by cmp xs)
  unfolding sort_by
  sort_by-IsSorted [] = tt
  sort_by-IsSorted (x ∷ xs) = insert_by-IsSorted x (sort_by cmp xs) (sort_by-IsSorted xs)

-- A comparator stays consistent when a number is compared first, upwards or downwards.
pub then_key-IsConsistent {ℓ} :
    {A : Type ℓ} (key : A → ℕ) {cmp : A → A → Ordering}
    → IsConsistent cmp
    → IsConsistent (λ a b. then_by (compare (key a) (key b)) (cmp a b))
then_key-IsConsistent key {cmp} c = record {
  total = λ a b g. ground (arith, c.total a b);
  trans = λ a b d p q. ground (arith, c.trans a b d);
}

pub then_key_down-IsConsistent {ℓ} :
    {A : Type ℓ} (key : A → ℕ) {cmp : A → A → Ordering}
    → IsConsistent cmp
    → IsConsistent (λ a b. then_by (compare (key b) (key a)) (cmp a b))
then_key_down-IsConsistent key {cmp} c = record {
  total = λ a b g. ground (arith, c.total a b);
  trans = λ a b d p q. ground (arith, c.trans a b d);
}
