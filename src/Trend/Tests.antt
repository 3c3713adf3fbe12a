-- ===== src/Trend/Tests.antt =====
-- src/lib/advice/trend.ts: runs of the trend, and each theorem at a concrete input.
use ticketguy.Prelude.{
  ℕ, ◌+◌, ◌-◌, ◌*◌, ◌<◌, ◌≡◌, refl, ◌↔◌, String, true, false, some, List, [], ◌∷◌,
}
use ticketguy.Prelude.Int.{sub_ℕ}
use ticketguy.Prelude.Sorting.{sort_by, insert_by}
use ticketguy.Benchmark.{verified_total}
use ticketguy.Policy.{down, no_direction}
use ticketguy.Trend.{
  TrendObservation, endpoint_stale, sorted_past, is_valid, valid_of, window_of, intersection_of,
  span_minutes_of, slopes_from, slopes_of,
}
use ticketguy.Trend.Finish.{
  baseline_from, window_change, floor_lowered, median, direction_of, base_result, conclude,
  finish_trend, compute_trend,
}
use ticketguy.Trend.Direction.{compute_trend-insufficient_iff, compute_trend_down}

rules : Unit {0}
unfolding sort_by insert_by sorted_past is_valid valid_of window_of intersection_of span_minutes_of
    slopes_from slopes_of baseline_from window_change floor_lowered median direction_of base_result
    conclude finish_trend compute_trend
rules = tt

abbrev hour : ℕ
hour = 3600000

abbrev seen : String → ℕ → ℕ → TrendObservation
seen id at price = record {
  id = id;
  observed_at = at;
  basket_key = "4 floor";
  cheapest_eligible_total_cents = some price;
  source_ids = "s1" ∷ "s2" ∷ [];
  fee_basis = verified_total;
  coverage_complete = true;
  quality_flags = [];
  cheapest_source_id = some "s1";
}

abbrev series : List TrendObservation
series =
    seen "c" (8 * hour) 42000
    ∷ seen "a" (2 * hour) 50000
    ∷ seen "b" (5 * hour) 46000
    ∷ seen "d" (10 * hour) 41000
    ∷ []

runs :
    ((compute_trend series (11 * hour)).direction ≡ down)
    × ((compute_trend series (11 * hour)).is_sufficient ≡ true)
    × ((compute_trend series (11 * hour)).span_minutes ≡ 480)
    × ((compute_trend series (35 * hour)).direction ≡ no_direction)
    × ((compute_trend series (35 * hour)).reasons ≡ endpoint_stale 25 ∷ [])
unfolding rules
runs = (refl, refl, refl, refl, refl)

compute_trend-insufficient_iff_example :
    ((compute_trend series (11 * hour)).is_sufficient ≡ false)
    ↔ ((compute_trend series (11 * hour)).direction ≡ no_direction)
compute_trend-insufficient_iff_example = compute_trend-insufficient_iff series (11 * hour)

compute_trend_down_example :
    ((compute_trend series (11 * hour)).is_sufficient ≡ true)
    × (before after : ℕ) × ((compute_trend series (11 * hour)).endpoint_change_cents
        ≡ some (sub_ℕ after before))
    × (after + 500 < before)
    × (3 * before < 100 * (before - after))
compute_trend_down_example = compute_trend_down series (11 * hour) runs.0
