-- ===== src/Benchmark/Quantiles.antt =====
-- src/lib/advice/benchmark.ts, `quantileType7`: bounds and order of the quartiles.
use ticketguy.Prelude.{
  ℕ, zero, suc, ◌+◌, ◌-◌, ◌*◌, ◌/◌, ◌%◌, ◌≤◌, ◌<◌, ◌≡◌, ◌⊎◌, inl, inr, compare, Ordering, arith,
  List, [], ◌∷◌, length, All, ◌∙◌,
}
use ticketguy.Prelude.Sorting.{sort_by, IsSorted, IsConsistent, sort_by-IsSorted, sort_by-All}
use ticketguy.Prelude.Tables.{length-sort_by}
use ticketguy.Benchmark.{at_index, interpolate, quantile_type7}

compare-IsConsistent : IsConsistent compare
compare-IsConsistent = record { total = λ a b g. ground arith; trans = λ a b c p q. ground arith }

at_index-All : (P : ℕ → Type 0) (s : List ℕ) (i : ℕ) → i < length s → All P s → P (at_index s i)
unfolding at_index
at_index-All P [] i h p = absurd (omega arith)
at_index-All P (x ∷ xs) zero h p = p.0
at_index-All P (x ∷ xs) (suc i) h p = at_index-All P xs i (omega arith) p.1

not_gt : (a b : ℕ) → ¬ (compare a b ≡ Ordering.gt) → a ≤ b
not_gt a b h = ground arith

at_index_mono :
    (s : List ℕ) (i j : ℕ) → IsSorted compare s → i ≤ j → j < length s → at_index s i ≤ at_index s j
unfolding at_index
at_index_mono [] i j sorted le lt = omega arith
at_index_mono (x ∷ xs) zero zero sorted le lt = omega arith
at_index_mono (x ∷ xs) zero (suc j) sorted le lt =
    not_gt x _ (at_index-All _ xs j (omega arith) sorted.0)
at_index_mono (x ∷ xs) (suc i) zero sorted le lt = absurd (omega arith)
at_index_mono (x ∷ xs) (suc i) (suc j) sorted le lt =
    at_index_mono xs i j sorted.1 (omega arith) (omega arith)

-- The value at a position between two indices.
interpolate_between :
    (s : List ℕ) (h : ℕ)
    → interpolate s h
      ≡ 4 * at_index s (h / 4) + h % 4 * (at_index s (h / 4 + 1) - at_index s (h / 4))
unfolding interpolate
interpolate_between s h = ground arith

-- the quarter after h: in the same gap, or at the next index
next_quarter :
    (h : ℕ)
    → ((suc h / 4 ≡ h / 4) × (suc h % 4 ≡ h % 4 + 1))
      ⊎ ((suc h / 4 ≡ h / 4 + 1) × (suc h % 4 ≡ 0) × (h % 4 ≡ 3))
next_quarter h = ground arith

interpolate_step :
    (s : List ℕ) (h : ℕ)
    → IsSorted compare s
    → suc h ≤ 4 * (length s - 1)
    → interpolate s h ≤ interpolate s (suc h)
interpolate_step s h sorted fits =
    let rises = at_index_mono s (h / 4) (h / 4 + 1) sorted (omega arith) (omega arith) in
    rw (interpolate_between s h, interpolate_between s (suc h))
      (elim (next_quarter h) [
        | inl (q, r) ↦ rw (q, r) (omega arith)
        | inr (q, r, three) ↦ rw (q, r, three) (omega arith)
      ])

same_or_less : (h m : ℕ) → h ≤ suc m → (h ≤ m) ⊎ (h ≡ suc m)
same_or_less h m le = ground arith

interpolate_mono :
    (s : List ℕ) (h m : ℕ)
    → IsSorted compare s
    → h ≤ m
    → m ≤ 4 * (length s - 1)
    → interpolate s h ≤ interpolate s m
interpolate_mono s zero zero sorted le fits = omega arith
interpolate_mono s (suc h) zero sorted le fits = absurd (omega arith)
interpolate_mono s h (suc m) sorted le fits = elim (same_or_less h m le) [
  | inl before ↦ omega (
    arith,
    interpolate_mono s h m sorted before (omega arith),
    interpolate_step s m sorted (omega arith),
  )
  | inr same ↦ rw same (omega arith)
]

-- The first and the last quarter are the first and the last value.
interpolate_first : (s : List ℕ) → interpolate s 0 ≡ 4 * at_index s 0
unfolding interpolate
interpolate_first s = omega arith

interpolate_index : (s : List ℕ) (i : ℕ) → interpolate s (4 * i) ≡ 4 * at_index s i
interpolate_index s i =
    let quotient : 4 * i / 4 ≡ i = omega arith in
    let remainder : 4 * i % 4 ≡ 0 = omega arith in
    interpolate_between s (4 * i) ∙ rw (quotient, remainder) (omega arith)

scaled : (n j k : ℕ) → j ≤ k → k ≤ 4 → (n * j ≤ n * k) × (n * k ≤ 4 * n)
scaled n j k le top = (grind arith, grind arith)

module _ (values : List ℕ) where
  quantile_type7_mono :
      (j k : ℕ) → j ≤ k → k ≤ 4 → quantile_type7 values j ≤ quantile_type7 values k
  unfolding quantile_type7
  quantile_type7_mono j k le top =
      let (before, inside) = scaled (length (sort_by compare values) - 1) j k le top in
      interpolate_mono _ _ _ (sort_by-IsSorted compare-IsConsistent values) before inside

  module _ (lo hi : ℕ) (inside : All (λ v. (lo ≤ v) × (v ≤ hi)) values)
      (some_value : 1 ≤ length values) where
    within :
        (i : ℕ)
        → i < length values
        → (lo ≤ at_index (sort_by compare values) i) × (at_index (sort_by compare values) i ≤ hi)
    within i lt =
        at_index-All (λ v. (lo ≤ v) × (v ≤ hi)) _ i (rw (length-sort_by compare values) lt)
          (sort_by-All _ compare values inside)

    quantile_least : 4 * lo ≤ quantile_type7 values 0
    unfolding quantile_type7
    quantile_least =
        let n = length (sort_by compare values) - 1 in
        let first : n * 0 ≡ 4 * 0 = omega arith in
        let value = interpolate_index (sort_by compare values) 0 in
        rw (first, value) (omega (arith, within 0 (omega arith)))

    quantile_greatest : quantile_type7 values 4 ≤ 4 * hi
    unfolding quantile_type7
    quantile_greatest =
        let n = length (sort_by compare values) - 1 in
        let last : n * 4 ≡ 4 * n = omega arith in
        let value = interpolate_index (sort_by compare values) n in
        rw (last, value)
          (omega (arith, within n (rw (length-sort_by compare values) (omega arith))))

  -- On at least one value, all of them between lo and hi, the quartiles are in order and lie
  -- between lo and hi.
  pub quantile_type7_bounds :
      (lo hi : ℕ)
      → 1 ≤ length values
      → All (λ v. (lo ≤ v) × (v ≤ hi)) values
      → (4 * lo ≤ quantile_type7 values 1)
        × (quantile_type7 values 1 ≤ quantile_type7 values 2)
        × (quantile_type7 values 2 ≤ quantile_type7 values 3)
        × (quantile_type7 values 3 ≤ 4 * hi)
  quantile_type7_bounds lo hi some_value inside =
      let least = quantile_least lo hi inside some_value in
      let greatest = quantile_greatest lo hi inside some_value in
      let q01 = quantile_type7_mono 0 1 (omega arith) (omega arith) in
      let q34 = quantile_type7_mono 3 4 (omega arith) (omega arith) in
      (
        omega arith,
        quantile_type7_mono 1 2 (omega arith) (omega arith),
        quantile_type7_mono 2 3 (omega arith) (omega arith),
        omega arith,
      )
