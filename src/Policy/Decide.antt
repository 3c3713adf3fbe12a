-- ===== src/Policy/Decide.antt =====
-- src/lib/advice/policy.ts, `decide`: its branches in their order. The lists that the source
-- pushes to are passed along.
use ticketguy.Prelude.{
  String, ℕ, ◌+◌, ◌*◌, Bool, true, false, not, ◌&&◌, ◌||◌, Option, none, some, List, [], ◌∷◌, ◌++◌,
  ltb, if◌then◌else◌, is_some,
}
use ticketguy.Prelude.Int.{pos, min_ℤ}
use ticketguy.Prelude.Pushes.{push_if}
use ticketguy.Benchmark.{Adequacy, sufficient, limited, insufficient}
use ticketguy.Benchmark.Compute.{BenchmarkResult}
use ticketguy.Policy.{
  Decision, buy_now, wait_and_recheck, consider_alternative, insufficient_evidence,
  PriceAttractiveness, below_typical, within_typical, above_typical, WaitRisk, low, medium, high,
  PolicyInput, PolicyResult, TrendSummary, MarketSummary, ReasonCode, historical_sample_small,
  market_listings_shrinking, market_mixed_no_clear_direction, market_scope_broader_than_request,
  market_prices_falling_listings_holding, customer_accepts_wait_risk,
  market_falling_but_risk_tolerance_or_deadline_unknown, no_offer_within_budget,
  no_verified_eligible_offer, offers_pending_review, past_safe_wait_window, delivery_uncertain,
  must_attend_low_risk_tolerance, trend_down_but_certainty_prioritized,
  suitable_verified_offer_within_budget, wait_possible_but_risk_tolerance_or_deadline_unknown,
  group_basket_trending_down, no_watch_consent_customer_rechecks_manually,
  monitoring_coverage_unavailable_customer_rechecks_manually, group_basket_trending_up,
  price_below_typical, price_within_typical, Abstention, no_historical_range, no_reliable_trend,
  StopCondition, listings_shrink, eligible_group_options_narrow, price_reverses_up,
  delivery_cutoff_approaches, customer_deadline, event_status_change, Clarification,
  wait_risk_tolerance, decision_deadline, price_attractiveness_of, wait_deadline, window_open,
  within_budget, is_down, is_mixed, is_up, has_direction, market_shrinking, market_falling,
}

abbrev benchmark_reasons : Option BenchmarkResult → List ReasonCode
benchmark_reasons none = []
benchmark_reasons (some b) = by_size b.adequacy
  where
    by_size : Adequacy → List ReasonCode
    by_size limited = historical_sample_small ∷ []
    by_size _ = []

abbrev benchmark_abstentions : Option BenchmarkResult → List Abstention
benchmark_abstentions none = no_historical_range ∷ []
benchmark_abstentions (some b) = by_size b.adequacy
  where
    by_size : Adequacy → List Abstention
    by_size insufficient = no_historical_range ∷ []
    by_size _ = []

abbrev trend_abstentions : Option TrendSummary → List Abstention
trend_abstentions none = no_reliable_trend ∷ []
trend_abstentions (some t) = push_if (not t.is_sufficient) no_reliable_trend

abbrev market_reasons : Option MarketSummary → List ReasonCode
market_reasons none = []
market_reasons (some m) =
    push_if (market_shrinking (some m)) market_listings_shrinking
    ++ push_if (is_mixed m.direction) market_mixed_no_clear_direction
    ++ push_if (m.broader_scope && has_direction m.direction) market_scope_broader_than_request

abbrev pub opening_reasons : PolicyInput → List ReasonCode
opening_reasons input = benchmark_reasons input.benchmark ++ market_reasons input.market

-- `finish(decision)`
unfoldable pub finish : PolicyInput → Decision → List ReasonCode → List Clarification → PolicyResult
finish input d reasons clarify = record {
  decision = d;
  price_attractiveness =
      price_attractiveness_of input.offers.best_eligible_total_cents input.benchmark;
  reason_codes = reasons;
  abstentions = benchmark_abstentions input.benchmark ++ trend_abstentions input.trend;
  next_checkpoint_at = none;
  wait_deadline_at = none;
  stop_conditions = [];
  clarification_needed = clarify;
  watch_scheduled = false;
}

-- `finish('wait_and_recheck', { nextCheckpointAt, waitDeadlineAt, watchScheduled })`
unfoldable pub finish_waiting : PolicyInput → List ReasonCode → List StopCondition → PolicyResult
finish_waiting input reasons stop = record (finish input wait_and_recheck reasons []) {
  next_checkpoint_at = some (min_ℤ (wait_deadline input) (pos (input.now + 24 * 3600000)));
  wait_deadline_at = some (wait_deadline input);
  stop_conditions = stop;
  watch_scheduled = input.priorities.watch_consent_given && input.monitoring_coverage_available;
}

-- `waitRiskTolerance === 'high' || waitRiskTolerance === 'medium'`
abbrev pub tolerates_waiting : Option WaitRisk → Bool
tolerates_waiting (some medium) = true
tolerates_waiting (some high) = true
tolerates_waiting _ = false

-- `=== true`
abbrev pub is_true : Option Bool → Bool
is_true (some b) = b
is_true none = false

abbrev pub is_false : Option Bool → Bool
is_false (some b) = not b
is_false none = false

abbrev unknowns : PolicyInput → List Clarification
unknowns input =
    push_if (not (is_some input.priorities.wait_risk_tolerance)) wait_risk_tolerance
    ++ push_if (not (is_some input.priorities.decision_deadline)) decision_deadline

abbrev has_offer : PolicyInput → Bool
has_offer input = is_some input.offers.best_eligible_total_cents

-- no qualifying offer inside the budget
unfoldable pub no_fit : PolicyInput → List ReasonCode → List Clarification → PolicyResult
no_fit input reasons clarify =
    finish input
      (if input.offers.alternative_available then consider_alternative else insufficient_evidence)
      (reasons
        ++ (if has_offer input then no_offer_within_budget else no_verified_eligible_offer) ∷ []
        ++ push_if (ltb 0 input.offers.needs_review_count) offers_pending_review)
      clarify

abbrev above_nine_tenths : Option ℕ → Option ℕ → Bool
above_nine_tenths (some best) (some budget) = ltb (9 * budget) (10 * best)
above_nine_tenths _ _ = false

abbrev is_above : PriceAttractiveness → Bool
is_above above_typical = true
is_above _ = false

abbrev price_reasons : PriceAttractiveness → List ReasonCode
price_reasons below_typical = price_below_typical ∷ []
price_reasons within_typical = price_within_typical ∷ []
price_reasons _ = []

-- `trend?.adequacy === 'sufficient' && trend.direction === 'down'`
abbrev trend_down : Option TrendSummary → Bool
trend_down none = false
trend_down (some t) = t.is_sufficient && is_down t.direction

abbrev trend_up : Option TrendSummary → Bool
trend_up none = false
trend_up (some t) = t.is_sufficient && is_up t.direction

-- `trend?.direction === 'down'`
abbrev points_down : Option TrendSummary → Bool
points_down none = false
points_down (some t) = is_down t.direction

-- `groupTrendDown && aboveTarget`
unfoldable pub could_improve : PolicyInput → Bool
could_improve input =
    (trend_down input.trend || market_falling input.market)
    && (is_above (price_attractiveness_of input.offers.best_eligible_total_cents input.benchmark)
        || above_nine_tenths input.offers.best_eligible_total_cents
            input.priorities.budget_total_cents)

abbrev watch_reasons : PolicyInput → List ReasonCode
watch_reasons input =
    if not input.priorities.watch_consent_given
    then no_watch_consent_customer_rechecks_manually ∷ []
    else push_if (not input.monitoring_coverage_available)
        monitoring_coverage_unavailable_customer_rechecks_manually

-- the end of `decide`: nothing speaks for waiting
unfoldable pub secure : PolicyInput → List ReasonCode → PolicyResult
secure input reasons =
    finish input buy_now
      (reasons
        ++ push_if (trend_up input.trend) group_basket_trending_up
        ++ price_reasons
            (price_attractiveness_of input.offers.best_eligible_total_cents input.benchmark)
        ++ suitable_verified_offer_within_budget ∷ [])
      []

-- the price is above target and falling
unfoldable pub weigh_waiting : PolicyInput → List ReasonCode → PolicyResult
weigh_waiting input reasons =
    if not (is_some input.priorities.wait_risk_tolerance)
      || not (is_some input.priorities.decision_deadline)
    then finish input buy_now (reasons ++ wait_possible_but_risk_tolerance_or_deadline_unknown ∷ [])
        (unknowns input)
    else if tolerates_waiting input.priorities.wait_risk_tolerance
    then finish_waiting input
        (reasons ++ group_basket_trending_down ∷ customer_accepts_wait_risk ∷ watch_reasons input)
        (eligible_group_options_narrow ∷ price_reverses_up ∷ delivery_cutoff_approaches
          ∷ customer_deadline ∷ event_status_change ∷ [])
    else secure input reasons

-- a verified offer within the budget
unfoldable pub with_offer : PolicyInput → List ReasonCode → PolicyResult
with_offer input reasons =
    if not (window_open input) || is_false input.offers.delivery_feasible
    then finish input buy_now
        (reasons ++ (if window_open input then delivery_uncertain else past_safe_wait_window) ∷ [])
        []
    else if is_true input.priorities.must_attend
        && (not (is_some input.priorities.wait_risk_tolerance)
            || is_low input.priorities.wait_risk_tolerance)
    then finish input buy_now
        (reasons
          ++ must_attend_low_risk_tolerance
            ∷ push_if (points_down input.trend) trend_down_but_certainty_prioritized)
        []
    else if market_shrinking input.market
    then finish input buy_now (reasons ++ suitable_verified_offer_within_budget ∷ []) []
    else if could_improve input
    then weigh_waiting input reasons
    else secure input reasons
  where
    is_low : Option WaitRisk → Bool
    is_low (some low) = true
    is_low _ = false

-- no verified offer, but the market for exactly this group size is falling
unfoldable pub falling_market : PolicyInput → List ReasonCode → PolicyResult
falling_market input reasons =
    if tolerates_waiting input.priorities.wait_risk_tolerance
      && is_some input.priorities.decision_deadline
    then finish_waiting input
        (reasons ++ market_prices_falling_listings_holding ∷ customer_accepts_wait_risk ∷ [])
        (listings_shrink ∷ price_reverses_up ∷ delivery_cutoff_approaches ∷ customer_deadline
          ∷ event_status_change ∷ [])
    else no_fit input (reasons ++ market_falling_but_risk_tolerance_or_deadline_unknown ∷ [])
        (unknowns input)

unfoldable pub decide : PolicyInput → PolicyResult
decide input =
    let reasons = opening_reasons input in
    if not (has_offer input)
      && market_falling input.market
      && window_open input
      && not (is_true input.priorities.must_attend)
    then falling_market input reasons
    else if not (has_offer input) || not (within_budget input)
    then no_fit input reasons []
    else with_offer input reasons

abbrev pub adequacy_label : Adequacy → String
adequacy_label sufficient = "sufficient"
adequacy_label limited = "limited"
adequacy_label insufficient = "insufficient"
