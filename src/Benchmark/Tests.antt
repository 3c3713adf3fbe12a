-- ===== src/Benchmark/Tests.antt =====
-- src/lib/advice/benchmark.ts: runs of the benchmark, and each theorem at a concrete input.
use Prim.Native.String.{count}
use mathlib.Core.List.{Memᴰ}
use ticketguy.Prelude.{
  ℕ, ◌*◌, ◌≤◌, ◌<◌, ◌≡◌, refl, ◌↔◌, ◌⊎◌, compare, Ordering, String, true, false, none, some, arith,
  List, [], ◌∷◌, map, All,
}
use ticketguy.Prelude.Sorting.{IsConsistent, insert_by, sort_by}
use ticketguy.Prelude.Tables.{Distinct}
use ticketguy.Benchmark.{
  EventContext, HistoricalSnapshot, DatasetRights, BenchmarkInput, approved, verified_total,
  distance, sufficient, insufficient, lead_bucket, at_index, interpolate, quantile_type7,
  context_matches, dataset_reason, dataset_of, source_reason, cohort_reason, quality_reason,
}
use ticketguy.Benchmark.Compute.{
  exclude, note_rights, note_zone, add_to_group, admit_snapshot, tally_from, representatives_of,
  representatives_from, compute_benchmark, adequacy_of,
}
use ticketguy.Benchmark.Admission.{IsAdmissible, admitted, admitted-IsAdmissible}
use ticketguy.Benchmark.Quantiles.{quantile_type7_bounds}
use ticketguy.Benchmark.Cohort.{compute_benchmark-representatives, compute_benchmark_nearest}
use ticketguy.Benchmark.Statistics.{
  PricedWithin, compute_benchmark_quartiles, compute_benchmark_adequacy,
}

rules : Unit {0}
unfolding lead_bucket at_index interpolate quantile_type7 context_matches dataset_reason dataset_of
    source_reason cohort_reason quality_reason insert_by sort_by exclude note_rights note_zone
    add_to_group admit_snapshot tally_from representatives_of representatives_from compute_benchmark
    adequacy_of
rules = tt

-- shorter ids first
abbrev collate : String → String → Ordering
collate a b = compare (count a) (count b)

collate-IsConsistent : IsConsistent collate
collate-IsConsistent = record { total = λ a b g. ground arith; trans = λ a b c p q. ground arith }

abbrev show : EventContext
show = record {
  entity_slug = "band";
  venue_id = "hall";
  layout_version = none;
  category = "music";
  subtype = none;
  is_home = none;
  day_type = none;
}

abbrev snapshot : String → String → ℕ → ℕ → HistoricalSnapshot
snapshot id event lead price = record {
  id = id;
  event_id = event;
  dataset_id = some "set";
  quantity = 4;
  seat_zone = some "floor";
  section = none;
  lead_time_minutes = lead;
  cheapest_eligible_total_cents = some price;
  fee_basis = verified_total;
  coverage_complete = true;
  is_fixture = false;
  context = show;
}

abbrev licence : DatasetRights
licence = record {
  id = "set";
  status = approved;
  approved_uses = "benchmark" ∷ "customer_display" ∷ [];
  raw_retention_until = some 9000;
  derived_retention_until = none;
  is_fixture = false;
}

abbrev past_shows : List HistoricalSnapshot
past_shows =
    snapshot "s1" "a" 500 10000
    ∷ snapshot "s2" "a" 610 20000
    ∷ snapshot "s3" "bb" 600 30000
    ∷ snapshot "s4" "target" 600 99999
    ∷ snapshot "s5" "ccc" 700 40000
    ∷ snapshot "s6" "dddd" 720 50000
    ∷ snapshot "s7" "eeeee" 800 60000
    ∷ snapshot "s8" "f" 100 70000
    ∷ []

abbrev request : BenchmarkInput
request = record {
  target_event_id = "target";
  target_context = show;
  target_quantity = 4;
  target_seat_zone = some "floor";
  target_lead_minutes = 600;
  snapshots = past_shows;
  datasets = ("set", licence) ∷ [];
  now = 8000;
  allow_fixtures = false;
  allow_zone_fallback = true;
  max_lead_distance_minutes = none;
}

runs :
    (map (λ (s : HistoricalSnapshot). s.id) (compute_benchmark collate request).representatives
      ≡ "s2" ∷ "s3" ∷ "s5" ∷ "s6" ∷ "s7" ∷ [])
    × ((compute_benchmark collate request).median ≡ some 160000)
    × ((compute_benchmark collate request).license_expires_at ≡ some 9000)
    × ((compute_benchmark collate request).fallback_applied ≡ true)
    × (quantile_type7 (5 ∷ 1 ∷ 4 ∷ 2 ∷ []) 1 ≡ 7)
unfolding rules
runs = (refl, refl, refl, refl, refl)

five : 5 ≤ (compute_benchmark collate request).independent_event_count
unfolding rules
five = omega arith

admitted_first : admitted request (snapshot "s1" "a" 500 10000) ≡ true
unfolding rules
admitted_first = refl

between : (p : ℕ) → 10000 ≤ p → p ≤ 99999 → (v : ℕ) → some p ≡ some v → (10000 ≤ v) × (v ≤ 99999)
between p least most v e = ground arith

priced : All (PricedWithin 10000 99999) past_shows
priced = (
  between 10000 (omega arith) (omega arith),
  (
    between 20000 (omega arith) (omega arith),
    (
      between 30000 (omega arith) (omega arith),
      (
        between 99999 (omega arith) (omega arith),
        (
          between 40000 (omega arith) (omega arith),
          (
            between 50000 (omega arith) (omega arith),
            (
              between 60000 (omega arith) (omega arith),
              (between 70000 (omega arith) (omega arith), tt),
            ),
          ),
        ),
      ),
    ),
  ),
)

quantile_type7_bounds_example :
    (4 * 1 ≤ quantile_type7 (5 ∷ 1 ∷ 4 ∷ []) 1)
    × (quantile_type7 (5 ∷ 1 ∷ 4 ∷ []) 1 ≤ quantile_type7 (5 ∷ 1 ∷ 4 ∷ []) 2)
    × (quantile_type7 (5 ∷ 1 ∷ 4 ∷ []) 2 ≤ quantile_type7 (5 ∷ 1 ∷ 4 ∷ []) 3)
    × (quantile_type7 (5 ∷ 1 ∷ 4 ∷ []) 3 ≤ 4 * 5)
quantile_type7_bounds_example =
    quantile_type7_bounds (5 ∷ 1 ∷ 4 ∷ []) 1 5 (omega arith)
      ((omega arith, omega arith), ((omega arith, omega arith), ((omega arith, omega arith), tt)))

compute_benchmark-representatives_example :
    Distinct (
      map
        (λ (s : HistoricalSnapshot). s.event_id)
        (compute_benchmark collate request).representatives)
    × All
        (λ s. Memᴰ s request.snapshots × IsAdmissible request s)
        (compute_benchmark collate request).representatives
compute_benchmark-representatives_example = compute_benchmark-representatives request collate

compute_benchmark_nearest_example :
    (q : HistoricalSnapshot) × Memᴰ q (compute_benchmark collate request).representatives
    × (q.event_id ≡ "a")
    × (distance q.lead_time_minutes 600 ≤ distance 500 600)
compute_benchmark_nearest_example =
    compute_benchmark_nearest request collate (snapshot "s1" "a" 500 10000) collate-IsConsistent
      (Memᴰ.head refl) (admitted-IsAdmissible request _ admitted_first)

compute_benchmark_quartiles_example :
    (q1 q2 q3 : ℕ) × ((compute_benchmark collate request).p25 ≡ some q1)
    × ((compute_benchmark collate request).median ≡ some q2)
    × ((compute_benchmark collate request).p75 ≡ some q3)
    × (4 * 10000 ≤ q1)
    × (q1 ≤ q2)
    × (q2 ≤ q3)
    × (q3 ≤ 4 * 99999)
compute_benchmark_quartiles_example =
    compute_benchmark_quartiles collate request 10000 99999 priced five

compute_benchmark_adequacy_example :
    (((compute_benchmark collate request).adequacy ≡ sufficient)
      ↔ (10 ≤ (compute_benchmark collate request).independent_event_count))
    × (((compute_benchmark collate request).adequacy ≡ insufficient)
        ↔ ((compute_benchmark collate request).independent_event_count < 5))
    × (((compute_benchmark collate request).median ≡ none)
        ↔ ((compute_benchmark collate request).independent_event_count < 5))
    × (((compute_benchmark collate request).customer_display_allowed ≡ false)
        ⊎ (1 ≤ (compute_benchmark collate request).independent_event_count))
compute_benchmark_adequacy_example = compute_benchmark_adequacy collate request
