-- ===== src/Trend/Finish.antt =====
-- src/lib/advice/trend.ts, `finishTrend` and the end of `computeTrend`: windows, direction, result.
use ticketguy.Prelude.{
  ℕ, zero, suc, ◌+◌, ◌-◌, ◌*◌, ◌/◌, ◌%◌, Bool, true, false, not, ◌&&◌, ◌||◌, String, Option, none,
  some, List, [], ◌∷◌, ◌++◌, map, keep, length, str_eq, ltb, leb, ◌==◌, if◌then◌else◌,
}
use ticketguy.Prelude.Int.{ℤ, sub_ℕ}
use ticketguy.Prelude.Pushes.{push_if}
use ticketguy.Prelude.Sorting.{sort_by}
use ticketguy.Benchmark.{distance}
use ticketguy.Policy.{Direction, up, down, flat, mixed, no_direction, TrendSummary}
use ticketguy.Trend.{
  TrendObservation, TrendReason, future_observations_excluded, basket_changed,
  no_common_source_coverage, fewer_than_4_valid_observations, span_under_6h, endpoint_stale,
  trend_min_observations, trend_min_span_minutes, trend_direction_min_cents,
  trend_max_endpoint_age_hours, window_tolerance_minutes, is_future, sorted_past, many_baskets,
  last_of, valid_of, window_of, intersection_of, usable_of, span_minutes_of, Slope, price_of,
  slopes_of, compare_slopes,
}

pub record WindowChange : Type 0 where
  pub window_hours : ℕ
  pub baseline_observation_id : String
  pub baseline_cents : ℕ
  pub current_cents : ℕ
  pub absolute_change_cents : ℤ

-- `Math.abs(o.observedAt - target)`, with the target h hours before the current observation
abbrev pub off_target : ℕ → TrendObservation → TrendObservation → ℕ
off_target h current o = distance (o.observed_at + h * 3600000) current.observed_at

abbrev pub nearer_target :
    ℕ → TrendObservation → Option TrendObservation → TrendObservation → Option TrendObservation
nearer_target h current none o = some o
nearer_target h current (some best) o =
    if ltb (off_target h current o) (off_target h current best) then some o else some best

-- the loop over the observations, all but the current one
unfoldable pub baseline_from :
    ℕ → TrendObservation → Option TrendObservation → List TrendObservation → Option TrendObservation
baseline_from h current best [] = best
baseline_from h current best (_ ∷ []) = best
baseline_from h current best (o ∷ p ∷ os) =
    baseline_from h current
      (if leb (off_target h current o) (window_tolerance_minutes * 60000)
        then nearer_target h current best o
        else best)
      (p ∷ os)

abbrev pub change_since : ℕ → TrendObservation → Option TrendObservation → Option WindowChange
change_since h current none = none
change_since h current (some best) =
    if ltb 0 (price_of best)
    then some (record {
      window_hours = h;
      baseline_observation_id = best.id;
      baseline_cents = price_of best;
      current_cents = price_of current;
      absolute_change_cents = sub_ℕ (price_of current) (price_of best);
    })
    else none

unfoldable pub window_change : ℕ → List TrendObservation → Option WindowChange
window_change h usable = elim (last_of usable) [
  | none ↦ none
  | some current ↦ change_since h current (baseline_from h current none usable)
]

abbrev pub differ : Option String → Option String → Bool
differ (some a) (some b) = not (str_eq a "") && not (str_eq b "") && not (str_eq a b)
differ _ _ = false

-- the floor fell because another source supplied it
unfoldable pub floor_lowered : List TrendObservation → Bool
floor_lowered [] = false
floor_lowered (_ ∷ []) = false
floor_lowered (prev ∷ current ∷ []) =
    differ current.cheapest_source_id prev.cheapest_source_id
    && ltb (price_of current) (price_of prev)
floor_lowered (_ ∷ p ∷ q ∷ os) = floor_lowered (p ∷ q ∷ os)

-- the one or two slopes in the middle, whose mean is the median
pub data Median : Type 0 where
  no_slopes : Median
  middle : Slope → Median
  between : Slope → Slope → Median

abbrev pub drop_to : ℕ → List Slope → List Slope
drop_to zero s = s
drop_to (suc n) [] = []
drop_to (suc n) (x ∷ s) = drop_to n s

abbrev pub first_of : List Slope → Median
first_of [] = no_slopes
first_of (x ∷ _) = middle x

abbrev pub first_two : List Slope → Median
first_two (x ∷ y ∷ _) = between x y
first_two _ = no_slopes

unfoldable pub median : List Slope → Median
median xs =
    let s = sort_by compare_slopes xs in
    let m = length s / 2 in
    if length s % 2 == 1 then first_of (drop_to m s) else first_two (drop_to (m - 1) s)

abbrev pub median_rises : Median → Bool
median_rises no_slopes = false
median_rises (middle a) = ltb a.earlier a.later
median_rises (between a b) =
    ltb (a.earlier * b.time + b.earlier * a.time) (a.later * b.time + b.later * a.time)

abbrev pub median_falls : Median → Bool
median_falls no_slopes = false
median_falls (middle a) = ltb a.later a.earlier
median_falls (between a b) =
    ltb (a.later * b.time + b.later * a.time) (a.earlier * b.time + b.earlier * a.time)

-- more than 3% and more than $5
abbrev pub moves_enough : ℕ → ℕ → Bool
moves_enough first current =
    ltb (3 * first) (100 * distance current first)
    && ltb trend_direction_min_cents (distance current first)

unfoldable pub direction_of : ℕ → ℕ → Median → Direction
direction_of first current m =
    if not (moves_enough first current)
    then flat
    else if ltb first current && median_rises m
    then up
    else if ltb current first && median_falls m
    then down
    else mixed

pub data Freshness : Type 0 where
  current historical nothing : Freshness

pub record Historical : Type 0 where
  pub from_at : ℕ
  pub to_at : ℕ
  pub from_cents : ℕ
  pub to_cents : ℕ
  pub direction : Direction

pub record TrendResult : Type 0 where
  pub direction : Direction
  pub is_sufficient : Bool
  pub reasons : List TrendReason
  pub valid_observation_ids : List String
  pub span_minutes : ℕ
  pub source_intersection : List String
  pub h6 : Option WindowChange
  pub h24 : Option WindowChange
  pub h72 : Option WindowChange
  pub endpoint_change_cents : Option ℤ
  pub median_slope : Median
  pub floor_lowered_by_new_source : Bool
  pub latest_observed_at : Option ℕ
  pub freshness : Freshness
  pub history : Option Historical

-- more than a day before now
abbrev pub is_stale : ℕ → TrendObservation → Bool
is_stale now o = ltb (o.observed_at + trend_max_endpoint_age_hours * 3600000) now

abbrev pub freshness_of : ℕ → Option TrendObservation → Freshness
freshness_of now none = nothing
freshness_of now (some o) = if is_stale now o then historical else current

abbrev pub at_of : Option TrendObservation → Option ℕ
at_of none = none
at_of (some o) = some o.observed_at

abbrev pub endpoint_change : List TrendObservation → Option TrendObservation → Option ℤ
endpoint_change (first ∷ _) (some latest) = some (sub_ℕ (price_of latest) (price_of first))
endpoint_change _ _ = none

-- the result as far as it does not depend on the direction
unfoldable pub base_result :
    ℕ → List String → List TrendReason → List TrendObservation → TrendResult
base_result now common reasons usable = record {
  direction = no_direction;
  is_sufficient = false;
  reasons =
      reasons
      ++ (push_if (ltb (length usable) trend_min_observations)
            (fewer_than_4_valid_observations (length usable))
          ++ push_if (ltb (span_minutes_of usable) trend_min_span_minutes)
              (span_under_6h (span_minutes_of usable)));
  valid_observation_ids = map (λ (o : TrendObservation). o.id) usable;
  span_minutes = span_minutes_of usable;
  source_intersection = common;
  h6 = window_change 6 usable;
  h24 = window_change 24 usable;
  h72 = window_change 72 usable;
  endpoint_change_cents = endpoint_change usable (last_of usable);
  median_slope = no_slopes;
  floor_lowered_by_new_source = floor_lowered usable;
  latest_observed_at = at_of (last_of usable);
  freshness = freshness_of now (last_of usable);
  history = none;
}

-- `Math.round` of the age in hours
abbrev pub age_hours : ℕ → TrendObservation → ℕ
age_hours now o = (now - o.observed_at + 1800000) / 3600000

-- a long enough series, from `first` to `latest`
unfoldable pub conclude :
    ℕ → TrendResult → List TrendObservation → TrendObservation → TrendObservation → TrendResult
conclude now base usable first latest =
    let m = median (slopes_of usable) in
    let d = direction_of (price_of first) (price_of latest) m in
    if is_stale now latest
    then record base {
      reasons = base.reasons ++ endpoint_stale (age_hours now latest) ∷ [];
      median_slope = m;
      history = some (record {
        from_at = first.observed_at;
        to_at = latest.observed_at;
        from_cents = price_of first;
        to_cents = price_of latest;
        direction = d;
      });
    }
    else record base { direction = d; is_sufficient = true; median_slope = m }

abbrev pub conclude_ends :
    ℕ → TrendResult → List TrendObservation → Option TrendObservation → TrendResult
conclude_ends now base (first ∷ os) (some latest) = conclude now base (first ∷ os) first latest
conclude_ends now base _ _ = base

abbrev pub is_short : List TrendObservation → Bool
is_short usable =
    ltb (length usable) trend_min_observations
    || ltb (span_minutes_of usable) trend_min_span_minutes

unfoldable pub finish_trend : ℕ → List TrendReason → List TrendObservation → TrendResult
finish_trend now reasons valid =
    let common = intersection_of valid in
    let usable = usable_of valid common in
    let uncovered = ltb 0 (length valid) && (length common == 0) in
    let base =
      base_result now common (reasons ++ push_if uncovered no_common_source_coverage) usable in
    if is_short usable || (length common == 0)
    then base
    else conclude_ends now base usable (last_of usable)

unfoldable pub compute_trend : List TrendObservation → ℕ → TrendResult
compute_trend observations now =
    let future = length (keep (is_future now) observations) in
    let sorted = sorted_past now observations in
    finish_trend now
      (push_if (ltb 0 future) (future_observations_excluded future)
        ++ push_if (many_baskets sorted) basket_changed)
      (window_of (valid_of sorted))

-- what the policy reads
abbrev pub to_summary : TrendResult → TrendSummary
to_summary r = record { direction = r.direction; is_sufficient = r.is_sufficient }
