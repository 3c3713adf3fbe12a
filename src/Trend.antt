-- ===== src/Trend.antt =====
-- src/lib/advice/trend.ts: `computeTrend`. Instants are milliseconds, prices whole cents. A slope
-- is kept as the exact fraction of two prices and a time, and compared by cross-multiplication; the
-- percentages are compared in whole cents, without the rounding of floats. The set of quality
-- flags, which only labels the result, and the percentages of the windows are left out.
pub mod Finish
pub mod Direction
mod Tests
use ticketguy.Prelude.{
  ℕ, ◌+◌, ◌-◌, ◌*◌, ◌/◌, compare, Ordering, Bool, true, false, not, ◌&&◌, ◌||◌, String, Option,
  none, some, List, [], ◌∷◌, ◌++◌, keep, any, contains, str_eq, ltb, leb, if◌then◌else◌, is_some,
}
use ticketguy.Prelude.Sorting.{sort_by}
use ticketguy.Benchmark.{FeeBasis, is_verified, distance}

pub record TrendObservation : Type 0 where
  pub id : String
  pub observed_at : ℕ
  pub basket_key : String
  pub cheapest_eligible_total_cents : Option ℕ
  pub source_ids : List String
  pub fee_basis : FeeBasis
  pub coverage_complete : Bool
  pub quality_flags : List String
  pub cheapest_source_id : Option String

abbrev pub trend_min_observations : ℕ
trend_min_observations = 4

abbrev pub trend_min_span_minutes : ℕ
trend_min_span_minutes = 6 * 60

abbrev pub trend_direction_min_cents : ℕ
trend_direction_min_cents = 500

abbrev pub trend_max_endpoint_age_hours : ℕ
trend_max_endpoint_age_hours = 24

abbrev pub trend_lookback_hours : ℕ
trend_lookback_hours = 72

abbrev pub future_skew_minutes : ℕ
future_skew_minutes = 5

abbrev pub window_tolerance_minutes : ℕ
window_tolerance_minutes = 90

pub data TrendReason : Type 0 where
  future_observations_excluded : ℕ → TrendReason
  basket_changed no_common_source_coverage : TrendReason
  fewer_than_4_valid_observations span_under_6h endpoint_stale : ℕ → TrendReason

abbrev pub is_future : ℕ → TrendObservation → Bool
is_future now o = ltb (now + future_skew_minutes * 60000) o.observed_at

abbrev pub by_time : TrendObservation → TrendObservation → Ordering
by_time a b = compare a.observed_at b.observed_at

unfoldable pub sorted_past : ℕ → List TrendObservation → List TrendObservation
sorted_past now observations = sort_by by_time (keep (λ o. not (is_future now o)) observations)

-- more than one basket key
abbrev pub many_baskets : List TrendObservation → Bool
many_baskets [] = false
many_baskets (o ∷ os) = any (λ q. not (str_eq q.basket_key o.basket_key)) os

abbrev pub is_degraded : String → Bool
is_degraded f =
    str_eq f "source_outage"
    || str_eq f "pagination_incomplete"
    || str_eq f "seat_quality_substituted"

unfoldable pub is_valid : TrendObservation → Bool
is_valid o =
    is_some o.cheapest_eligible_total_cents
    && is_verified o.fee_basis
    && o.coverage_complete
    && not (any is_degraded o.quality_flags)

abbrev pub last_of : List TrendObservation → Option TrendObservation
last_of [] = none
last_of (o ∷ []) = some o
last_of (o ∷ p ∷ os) = last_of (p ∷ os)

-- at most 72 hours and the tolerance before the latest valid observation
abbrev pub in_lookback : Option TrendObservation → TrendObservation → Bool
in_lookback none o = true
in_lookback (some latest) o =
    leb (latest.observed_at - o.observed_at)
      ((trend_lookback_hours * 60 + window_tolerance_minutes) * 60000)

unfoldable pub valid_of : List TrendObservation → List TrendObservation
valid_of sorted = if many_baskets sorted then [] else keep is_valid sorted

unfoldable pub window_of : List TrendObservation → List TrendObservation
window_of valid = keep (in_lookback (last_of valid)) valid

abbrev pub unique : List String → List String
unique [] = []
unique (s ∷ ss) = let rest = unique ss in if contains s rest then rest else s ∷ rest

-- the sources that every observation has, as a set (the source sorts it for the result)
unfoldable pub intersection_of : List TrendObservation → List String
intersection_of [] = []
intersection_of (o ∷ []) = unique o.source_ids
intersection_of (o ∷ p ∷ os) = keep (λ s. contains s o.source_ids) (intersection_of (p ∷ os))

-- with a common source every observation is usable, and without one none is
abbrev pub usable_of : List TrendObservation → List String → List TrendObservation
usable_of valid [] = []
usable_of valid (_ ∷ _) = valid

-- `Math.round` of the minutes from the first to the last
unfoldable pub span_minutes_of : List TrendObservation → ℕ
span_minutes_of [] = 0
span_minutes_of (o ∷ os) = between (last_of os)
  where
    between : Option TrendObservation → ℕ
    between none = 0
    between (some latest) = (latest.observed_at - o.observed_at + 30000) / 60000

-- (later - earlier) cents in `time` milliseconds
pub record Slope : Type 0 where
  pub later : ℕ
  pub earlier : ℕ
  pub time : ℕ

abbrev pub price_of : TrendObservation → ℕ
price_of o = elim o.cheapest_eligible_total_cents [ some v ↦ v | none ↦ 0 ]

unfoldable pub slopes_from : TrendObservation → List TrendObservation → List Slope
slopes_from o [] = []
slopes_from o (p ∷ ps) =
    let rest = slopes_from o ps in
    if ltb o.observed_at p.observed_at
    then (record { later = price_of p; earlier = price_of o; time = p.observed_at - o.observed_at })
      ∷ rest
    else rest

unfoldable pub slopes_of : List TrendObservation → List Slope
slopes_of [] = []
slopes_of (o ∷ os) = slopes_from o os ++ slopes_of os

abbrev pub compare_slopes : Slope → Slope → Ordering
compare_slopes a b =
    compare (a.later * b.time + b.earlier * a.time) (b.later * a.time + a.earlier * b.time)
