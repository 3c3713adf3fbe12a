-- ===== src/Benchmark/Statistics.antt =====
-- src/lib/advice/benchmark.ts: the quartiles and the adequacy of the result.
use ticketguy.Prelude.{
  ℕ, ◌*◌, ◌≤◌, ◌<◌, ◌≡◌, ◌↔◌, ◌⊎◌, false, Ordering, String, none, some, arith, List, [], ◌∷◌, map,
  length-map, All, All-imp,
}
use ticketguy.Prelude.Tables.{All-mem}
use ticketguy.Benchmark.{
  HistoricalSnapshot, BenchmarkInput, sufficient, insufficient, quantile_type7,
}
use ticketguy.Benchmark.Quantiles.{quantile_type7_bounds}
use ticketguy.Benchmark.Cohort.{compute_benchmark-representatives}
use ticketguy.Benchmark.Compute.{compute_benchmark, adequacy_of, value_of, representatives_from}

All-map :
    {A B : Type 0} (P : B → Type 0) (f : A → B) (xs : List A)
    → All (λ x. P (f x)) xs
    → All P (map f xs)
All-map P f [] h = tt
All-map P f (x ∷ xs) h = (h.0, All-map P f xs h.1)

-- the prices of the snapshot, if it has one, lies between lo and hi
abbrev pub PricedWithin : ℕ → ℕ → HistoricalSnapshot → Type 0
PricedWithin lo hi s = (v : ℕ) → s.cheapest_eligible_total_cents ≡ some v → (lo ≤ v) × (v ≤ hi)

priced_value :
    (lo hi v : ℕ) (s : HistoricalSnapshot)
    → s.cheapest_eligible_total_cents ≡ some v
    → PricedWithin lo hi s
    → (lo ≤ value_of s) × (value_of s ≤ hi)
priced_value lo hi v s e h = rw e (h v e)

module _ (collate : String → String → Ordering) (input : BenchmarkInput) where
  values_within :
      (lo hi : ℕ)
      → All (PricedWithin lo hi) input.snapshots
      → All
          (λ v. (lo ≤ v) × (v ≤ hi))
          (map value_of (compute_benchmark collate input).representatives)
  values_within lo hi h = All-map _ value_of _ (
      All-imp
        (λ s (m, a).
          priced_value lo hi a.priced.0 s a.priced.1
            (All-mem (PricedWithin lo hi) input.snapshots h m))
        _ (compute_benchmark-representatives input collate).1)

  -- With five comparable events or more the three quartiles are reported, in order, and lie
  -- between any two bounds that hold for every price of the input.
  pub compute_benchmark_quartiles :
      (lo hi : ℕ)
      → All (PricedWithin lo hi) input.snapshots
      → 5 ≤ (compute_benchmark collate input).independent_event_count
      → (q1 q2 q3 : ℕ) × ((compute_benchmark collate input).p25 ≡ some q1)
        × ((compute_benchmark collate input).median ≡ some q2)
        × ((compute_benchmark collate input).p75 ≡ some q3)
        × (4 * lo ≤ q1)
        × (q1 ≤ q2)
        × (q2 ≤ q3)
        × (q3 ≤ 4 * hi)
  unfolding compute_benchmark
  compute_benchmark_quartiles lo hi h five =
      let values = map value_of (representatives_from collate input) in
      let counted = length-map value_of (representatives_from collate input) in
      let (least, rise, rise2, greatest) =
        quantile_type7_bounds values lo hi (omega (arith, counted, five)) (values_within lo hi h) in
      (
        quantile_type7 values 1,
        quantile_type7 values 2,
        quantile_type7 values 3,
        ground arith,
        ground arith,
        ground arith,
        least,
        rise,
        rise2,
        greatest,
      )

  -- The evidence counts as sufficient exactly from ten comparable events on, as insufficient
  -- exactly below five, which is exactly when no median is reported; without a comparable event
  -- nothing may be shown to a customer.
  pub compute_benchmark_adequacy :
      (((compute_benchmark collate input).adequacy ≡ sufficient)
        ↔ (10 ≤ (compute_benchmark collate input).independent_event_count))
      × (((compute_benchmark collate input).adequacy ≡ insufficient)
          ↔ ((compute_benchmark collate input).independent_event_count < 5))
      × (((compute_benchmark collate input).median ≡ none)
          ↔ ((compute_benchmark collate input).independent_event_count < 5))
      × (((compute_benchmark collate input).customer_display_allowed ≡ false)
          ⊎ (1 ≤ (compute_benchmark collate input).independent_event_count))
  unfolding compute_benchmark adequacy_of
  compute_benchmark_adequacy = ground arith
