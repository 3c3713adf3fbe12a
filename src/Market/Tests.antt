-- ===== src/Market/Tests.antt =====
-- src/lib/market/series.ts: runs on small series, and each theorem at a concrete input.
use ticketguy.Prelude.{
  ℕ, ◌*◌, ◌≤◌, ◌≡◌, refl, String, true, false, none, some, List, [], ◌∷◌, arith, All, length,
}
use ticketguy.Prelude.Tables.{Distinct}
use ticketguy.Prelude.Sorting.{sort_by}
use ticketguy.Prelude.Int.{pos}
use ticketguy.Benchmark.{at_index}
use ticketguy.Market.{
  Point, pair, group, week, nearest_from, change, lead_bucket_for, lead_minutes_of,
  basis_for_quantity, hour,
}
use ticketguy.Market.Past.{
  Comparable, Typical, offer, per_event_from, last_from, late_move_from, quantile_quarters,
  typical_at_lead,
}
use ticketguy.Market.Context.{
  ContextArgs, down, insufficient, shrinking, sorted_past, timed_of, untimed_of, supply_of,
  inadequacies, base_context, with_current, compute_market_context,
}
use ticketguy.Market.Direction.{IsFall, compute_market_context_down}
use ticketguy.Market.Undated.{dated, trend_of, compute_market_context-dated}
use ticketguy.Market.History.{HasPast, Between, typical_at_lead_bounds}

rules : Unit {0}
unfolding sort_by at_index nearest_from change lead_bucket_for lead_minutes_of basis_for_quantity
    offer per_event_from last_from late_move_from quantile_quarters typical_at_lead sorted_past
    timed_of untimed_of supply_of inadequacies base_context with_current compute_market_context
rules = tt

abbrev point : ℕ → ℕ → ℕ → Point
point t price count = record {
  observed_at = t * hour;
  price_cents = price;
  active_listings = some count;
  time_known = true;
}

abbrev series : List Point
series =
    point 100 20000 80
    ∷ record (point 150 100 5) { time_known = false }
    ∷ point 172 15000 30
    ∷ point 120 19900 78
    ∷ point 148 17000 60
    ∷ []

abbrev past : String → ℕ → ℕ → Comparable
past key lead price = record { event_key = key; lead_minutes = pos lead; price_cents = price }

abbrev comparables : List Comparable
comparables =
    past "a" 9000 10000
    ∷ past "b" 9000 12000
    ∷ past "c" 9000 14000
    ∷ past "d" 9000 16000
    ∷ past "e" 9000 18000
    ∷ past "a" 60 9000
    ∷ past "b" 60 12100
    ∷ past "c" 60 16000
    ∷ past "d" 60 8000
    ∷ past "e" 60 18000
    ∷ []

abbrev args : ContextArgs
args = record {
  basis = pair;
  zone = none;
  series = series;
  now = 173 * hour;
  event_start_at = 323 * hour;
  comparables = comparables;
}

context_runs :
    ((compute_market_context args).direction ≡ down)
    × ((compute_market_context args).points ≡ 4)
    × ((compute_market_context args).supply.trend ≡ shrinking)
    × ((compute_market_context (record args { now = 200 * hour })).direction ≡ insufficient)
    × (basis_for_quantity 20 ≡ group 12)
unfolding rules
context_runs = (refl, refl, refl, refl, refl)

abbrev typical : Typical
typical = record {
  events = 5;
  p25_cents = 12000;
  median_cents = 14000;
  p75_cents = 16000;
  lead_bucket = week;
}

past_runs :
    (typical_at_lead comparables (pos 9000) ≡ some typical)
    × (late_move_from comparables (pos 9000)
        ≡ some (record { events = 5; fell = 2; rose = 1; held = 2; lead_bucket = week }))
    × (late_move_from comparables (pos 2880) ≡ none)
unfolding rules
past_runs = (refl, refl, refl)

compute_market_context_down_example :
    (current : Point) × IsFall (timed_of args) (173 * hour) current (compute_market_context args)
compute_market_context_down_example = compute_market_context_down args context_runs.0

compute_market_context-dated_example :
    trend_of (compute_market_context (dated args)) ≡ trend_of (compute_market_context args)
compute_market_context-dated_example = compute_market_context-dated args

priced : All (λ (c : Comparable). Between 8000 18000 c.price_cents) comparables
priced = omega arith

typical_at_lead_bounds_example :
    (keys : List String) × Distinct keys
    × All (HasPast (pos 9000) comparables) keys
    × (length keys ≡ 5)
    × (5 ≤ 5)
    × (8000 ≤ 12000)
    × (12000 ≤ 14000)
    × (14000 ≤ 16000)
    × (16000 ≤ 18000)
typical_at_lead_bounds_example =
    typical_at_lead_bounds comparables (pos 9000) 8000 18000 {t = typical} past_runs.0 priced
