-- ===== src/Prelude/Tables.antt =====
-- Database tables as lists of rows: updates of the rows that a condition selects, unique columns.
use Prim.Native.Nat.{ℕ, zero, suc, ◌≤◌, Ordering}
use Prim.Native.String.{String}
use mathlib.Core.Path.{◌≡◌, refl, sym, ap, subst, ◌∙◌}
use mathlib.Core.Logic.{◌≢◌, ◌⊎◌, inl, inr}
use mathlib.Core.Bool.{Bool, true, false}
use mathlib.Core.List.{List, [], ◌∷◌, ◌++◌, map, Memᴰ}
use native.Mathlib.Omega.{arith}
use text.Mathlib.Text.{◌==◌ as str_eq}
use text.Mathlib.TextEquality.{eq_iff}
use ticketguy.Prelude.Tests.{if◌then◌else◌, Bool-cases}
use ticketguy.Prelude.Lists.{length, All, any, keep, take, contains}
use ticketguy.Prelude.Sorting.{is_gt, insert_by, sort_by, sort_by-All}

module _ {ℓ} {A : Type ℓ} where
  -- `update … set … where …`
  unfoldable pub update_where : (A → Bool) → (A → A) → List A → List A
  update_where p f [] = []
  update_where p f (r ∷ rs) = (if p r then f r else r) ∷ update_where p f rs

  pub update_where-All {κ} :
      (P : A → Type κ) (p : A → Bool) (f : A → A) (rs : List A)
      → ((r : A) → Memᴰ r rs → p r ≡ true → P r → P (f r))
      → All P rs
      → All P (update_where p f rs)
  unfolding update_where
  update_where-All P p f [] keeps h = tt
  update_where-All P p f (r ∷ rs) keeps h =
      let rest = update_where-All P p f rs (λ q m. keeps q (Memᴰ.tail m)) h.1 in
      elim (Bool-cases (p r)) [
        | inl e ↦ rw e (keeps r (Memᴰ.head refl) e h.0, rest)
        | inr e ↦ rw e (h.0, rest)
      ]

  pub All-update_where {κ} :
      (P : A → Type κ) (p : A → Bool) (f : A → A) (rs : List A)
      → ((r : A) → Memᴰ r rs → P (if p r then f r else r))
      → All P (update_where p f rs)
  unfolding update_where
  All-update_where P p f [] each = tt
  All-update_where P p f (r ∷ rs) each =
      (each r (Memᴰ.head refl), All-update_where P p f rs (λ q m. each q (Memᴰ.tail m)))

  pub mem-any : (p : A → Bool) {r : A} (rs : List A) → Memᴰ r rs → p r ≡ true → any p rs ≡ true
  mem-any p [] m h = elim m [ ]
  mem-any p (x ∷ xs) (Memᴰ.head e) h = rw (sym (ap p e) ∙ h) refl
  mem-any p (x ∷ xs) (Memᴰ.tail m) h = ground (arith, mem-any p xs m h)

  pub any_none : (p : A → Bool) (rs : List A) → All (λ r. p r ≡ false) rs → any p rs ≡ false
  any_none p [] h = refl
  any_none p (r ∷ rs) h = rw h.0 (any_none p rs h.1)

  -- A column that the update does not write.
  pub map-update_where {κ} :
      {B : Type κ} (k : A → B) (p : A → Bool) (f : A → A)
      → ((r : A) → k (f r) ≡ k r)
      → (rs : List A) → map k (update_where p f rs) ≡ map k rs
  unfolding update_where
  map-update_where k p f keeps [] = refl
  map-update_where k p f keeps (r ∷ rs) = cc (map-update_where k p f keeps rs, same (p r))
    where
      same : (b : Bool) → k (if b then f r else r) ≡ k r
      same true = keeps r
      same false = refl

  pub update_where_none :
      (p : A → Bool) (f : A → A) (rs : List A) → any p rs ≡ false → update_where p f rs ≡ rs
  unfolding update_where
  update_where_none p f [] h = refl
  update_where_none p f (r ∷ rs) h = ground (arith, update_where_none p f rs)

  pub mem-update_where :
      (p : A → Bool) (f : A → A) {r : A} (rs : List A)
      → Memᴰ r rs
      → Memᴰ (if p r then f r else r) (update_where p f rs)
  unfolding update_where
  mem-update_where p f [] m = elim m [ ]
  mem-update_where p f (r ∷ rs) (Memᴰ.head e) = Memᴰ.head (rw e refl)
  mem-update_where p f (r ∷ rs) (Memᴰ.tail m) = Memᴰ.tail (mem-update_where p f rs m)

  mem_if :
      {r x : A} {l : List A} (b : Bool)
      → Memᴰ r (if b then x ∷ l else l)
      → ((r ≡ x) × (b ≡ true)) ⊎ Memᴰ r l
  mem_if true (Memᴰ.head e) = inl (e, refl)
  mem_if true (Memᴰ.tail m) = inr m
  mem_if false m = inr m

  pub mem-keep :
      (p : A → Bool) {r : A} (rs : List A) → Memᴰ r (keep p rs) → Memᴰ r rs × (p r ≡ true)
  mem-keep p [] m = elim m [ ]
  mem-keep p (x ∷ xs) m = elim (mem_if (p x) m) [
    | inl (e, t) ↦ (Memᴰ.head e, ap p e ∙ t)
    | inr m' ↦ let (later, q) = mem-keep p xs m' in (Memᴰ.tail later, q)
  ]

  pub keep-mem : (p : A → Bool) {r : A} (rs : List A) → Memᴰ r rs → p r ≡ true → Memᴰ r (keep p rs)
  keep-mem p [] m h = elim m [ ]
  keep-mem p {r} (x ∷ xs) (Memᴰ.head e) h = rw (sym (ap p e) ∙ h) (Memᴰ.head e)
  keep-mem p (x ∷ xs) (Memᴰ.tail m) h = elim (Bool-cases (p x)) [
    | inl e ↦ rw e (Memᴰ.tail (keep-mem p xs m h))
    | inr e ↦ rw e (keep-mem p xs m h)
  ]

  pub mem-take : (n : ℕ) {r : A} (rs : List A) → Memᴰ r (take n rs) → Memᴰ r rs
  mem-take zero rs m = elim m [ ]
  mem-take (suc n) [] m = elim m [ ]
  mem-take (suc n) (x ∷ xs) (Memᴰ.head e) = Memᴰ.head e
  mem-take (suc n) (x ∷ xs) (Memᴰ.tail m) = Memᴰ.tail (mem-take n xs m)

  pub take_all : (n : ℕ) (rs : List A) → length rs ≤ n → take n rs ≡ rs
  take_all zero [] h = refl
  take_all zero (x ∷ xs) h = absurd (omega arith)
  take_all (suc n) [] h = refl
  take_all (suc n) (x ∷ xs) h = ap (λ l. x ∷ l) (take_all n xs (omega arith))

  pub All-mem {κ} : (P : A → Type κ) {r : A} (xs : List A) → All P xs → Memᴰ r xs → P r
  All-mem P [] h m = elim m [ ]
  All-mem P (x ∷ xs) h (Memᴰ.head e) = subst P (sym e) h.0
  All-mem P (x ∷ xs) h (Memᴰ.tail m) = All-mem P xs h.1 m

  mem-All : (xs : List A) {l : List A} → ((r : A) → Memᴰ r xs → Memᴰ r l) → All (λ r. Memᴰ r l) xs
  mem-All [] into = tt
  mem-All (x ∷ xs) into = (into x (Memᴰ.head refl), mem-All xs (λ r m. into r (Memᴰ.tail m)))

  pub mem-sort_by :
      (cmp : A → A → Ordering) {r : A} (xs : List A) → Memᴰ r (sort_by cmp xs) → Memᴰ r xs
  mem-sort_by cmp xs m =
      All-mem (λ r. Memᴰ r xs) (sort_by cmp xs)
        (sort_by-All (λ r. Memᴰ r xs) cmp xs (mem-All xs (λ r q. q))) m

  insert_by-mem :
      (cmp : A → A → Ordering) (x : A) {r : A} (ys : List A)
      → (r ≡ x) ⊎ Memᴰ r ys
      → Memᴰ r (insert_by cmp x ys)
  unfolding insert_by
  insert_by-mem cmp x [] (inl e) = Memᴰ.head e
  insert_by-mem cmp x (y ∷ ys) (inl e) = elim (Bool-cases (is_gt (cmp x y))) [
    | inl g ↦ rw g (Memᴰ.tail (insert_by-mem cmp x ys (inl e)))
    | inr g ↦ rw g (Memᴰ.head e)
  ]
  insert_by-mem cmp x [] (inr m) = elim m [ ]
  insert_by-mem cmp x (y ∷ ys) (inr (Memᴰ.head e)) = elim (Bool-cases (is_gt (cmp x y))) [
    | inl g ↦ rw g (Memᴰ.head e)
    | inr g ↦ rw g (Memᴰ.tail (Memᴰ.head e))
  ]
  insert_by-mem cmp x (y ∷ ys) (inr (Memᴰ.tail m)) = elim (Bool-cases (is_gt (cmp x y))) [
    | inl g ↦ rw g (Memᴰ.tail (insert_by-mem cmp x ys (inr m)))
    | inr g ↦ rw g (Memᴰ.tail (Memᴰ.tail m))
  ]

  pub sort_by-mem :
      (cmp : A → A → Ordering) {r : A} (xs : List A) → Memᴰ r xs → Memᴰ r (sort_by cmp xs)
  unfolding sort_by
  sort_by-mem cmp [] m = elim m [ ]
  sort_by-mem cmp (x ∷ xs) (Memᴰ.head e) = insert_by-mem cmp x (sort_by cmp xs) (inl e)
  sort_by-mem cmp (x ∷ xs) (Memᴰ.tail m) =
      insert_by-mem cmp x (sort_by cmp xs) (inr (sort_by-mem cmp xs m))

  insert_by-length :
      (cmp : A → A → Ordering) (x : A) (ys : List A) → length (insert_by cmp x ys) ≡ suc (length ys)
  unfolding insert_by
  insert_by-length cmp x [] = refl
  insert_by-length cmp x (y ∷ ys) = ground (arith, insert_by-length cmp x ys)

  pub length-sort_by : (cmp : A → A → Ordering) (xs : List A) → length (sort_by cmp xs) ≡ length xs
  unfolding sort_by
  length-sort_by cmp [] = refl
  length-sort_by cmp (x ∷ xs) =
      insert_by-length cmp x (sort_by cmp xs) ∙ ap suc (length-sort_by cmp xs)

-- No text stands twice in the column.
abbrev pub Distinct : List String → Type 0
Distinct [] = Unit
Distinct (x ∷ xs) = All (λ y. x ≢ y) xs × Distinct xs

fresh_last :
    (x s : String) (xs : List String)
    → All (λ y. x ≢ y) xs
    → str_eq x s ≡ false
    → All (λ y. x ≢ y) (xs ++ s ∷ [])
fresh_last x s [] h k = ((λ e. ground (arith, eq_iff x s)), tt)
fresh_last x s (y ∷ ys) h k = (h.0, fresh_last x s ys h.1 k)

pub Distinct-append_fresh :
    (xs : List String) (s : String) → Distinct xs → contains s xs ≡ false → Distinct (xs ++ s ∷ [])
Distinct-append_fresh [] s d f = (tt, tt)
Distinct-append_fresh (x ∷ xs) s d f =
    (fresh_last x s xs d.0 (ground arith), Distinct-append_fresh xs s d.1 (ground arith))

module _ {ℓ} {A : Type ℓ} (k : A → String) where
  pub contains-map :
      (s : String) (xs : List A) → contains s (map k xs) ≡ true → (a : A) × Memᴰ a xs × (k a ≡ s)
  contains-map s [] h = absurd (cc)
  contains-map s (x ∷ xs) h = elim (Bool-cases (str_eq (k x) s)) [
    | inl e ↦ (x, Memᴰ.head refl, (eq_iff (k x) s).0 e)
    | inr e ↦ let (a, m, q) = contains-map s xs (rw e at h) in (a, Memᴰ.tail m, q)
  ]

  pub map-contains :
      {a : A} (s : String) (xs : List A) → Memᴰ a xs → k a ≡ s → contains s (map k xs) ≡ true
  map-contains s [] m e = elim m [ ]
  map-contains s (x ∷ xs) (Memᴰ.head p) e =
      let q = (eq_iff (k x) s).1 (ap k (sym p) ∙ e) in rw q refl
  map-contains s (x ∷ xs) (Memᴰ.tail m) e = ground (arith, map-contains s xs m e)

  not-All_ne : {a b : A} {xs : List A} → All (λ y. k a ≢ y) (map k xs) → Memᴰ b xs → k a ≢ k b
  not-All_ne {xs = []} h m = elim m [ ]
  not-All_ne {xs = x ∷ xs} h (Memᴰ.head e) = λ q. h.0 (q ∙ ap k e)
  not-All_ne {xs = x ∷ xs} h (Memᴰ.tail m) = not-All_ne h.1 m

  -- In a unique column a value stands in one row.
  pub Distinct-row :
      {a b : A} (xs : List A) → Distinct (map k xs) → Memᴰ a xs → Memᴰ b xs → k a ≡ k b → a ≡ b
  Distinct-row [] d m n e = elim m [ ]
  Distinct-row (x ∷ xs) d (Memᴰ.head p) (Memᴰ.head q) e = p ∙ sym q
  Distinct-row (x ∷ xs) d (Memᴰ.head p) (Memᴰ.tail n) e =
      absurd (not-All_ne d.0 n (sym (ap k p) ∙ e))
  Distinct-row (x ∷ xs) d (Memᴰ.tail m) (Memᴰ.head q) e =
      absurd (not-All_ne d.0 m (sym (ap k q) ∙ sym e))
  Distinct-row (x ∷ xs) d (Memᴰ.tail m) (Memᴰ.tail n) e = Distinct-row xs d.1 m n e

  insert_by-ne :
      (cmp : A → A → Ordering) (s : String) (x : A) (ys : List A)
      → s ≢ k x
      → All (λ y. s ≢ y) (map k ys)
      → All (λ y. s ≢ y) (map k (insert_by cmp x ys))
  unfolding insert_by
  insert_by-ne cmp s x [] ne h = (ne, tt)
  insert_by-ne cmp s x (y ∷ ys) ne h = elim (Bool-cases (is_gt (cmp x y))) [
    | inl e ↦ rw e (h.0, insert_by-ne cmp s x ys ne h.1)
    | inr e ↦ rw e (ne, h)
  ]

  insert_by-Distinct :
      (cmp : A → A → Ordering) (x : A) (ys : List A)
      → All (λ y. k x ≢ y) (map k ys)
      → Distinct (map k ys)
      → Distinct (map k (insert_by cmp x ys))
  unfolding insert_by
  insert_by-Distinct cmp x [] ne d = (tt, tt)
  insert_by-Distinct cmp x (y ∷ ys) ne d = elim (Bool-cases (is_gt (cmp x y))) [
    | inl e ↦
        rw e (
          insert_by-ne cmp (k y) x ys (λ q. ne.0 (sym q)) d.0,
          insert_by-Distinct cmp x ys ne.1 d.1,
        )
    | inr e ↦ rw e (ne, d)
  ]

  sort_by-ne :
      (cmp : A → A → Ordering) (s : String) (xs : List A)
      → All (λ y. s ≢ y) (map k xs)
      → All (λ y. s ≢ y) (map k (sort_by cmp xs))
  unfolding sort_by
  sort_by-ne cmp s [] h = tt
  sort_by-ne cmp s (x ∷ xs) h = insert_by-ne cmp s x _ h.0 (sort_by-ne cmp s xs h.1)

  -- Sorting keeps a column unique.
  pub sort_by-Distinct :
      (cmp : A → A → Ordering) (xs : List A)
      → Distinct (map k xs)
      → Distinct (map k (sort_by cmp xs))
  unfolding sort_by
  sort_by-Distinct cmp [] d = tt
  sort_by-Distinct cmp (x ∷ xs) d =
      insert_by-Distinct cmp x _ (sort_by-ne cmp (k x) xs d.0) (sort_by-Distinct cmp xs d.1)
