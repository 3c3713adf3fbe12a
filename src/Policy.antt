-- ===== src/Policy.antt =====
-- src/lib/advice/policy.ts: the buy/wait decision. Instants are integers of milliseconds (a safe
-- delivery cutoff may lie before the epoch); the tenth of the budget is compared in whole cents,
-- `best > 0.9 * budget` as `10 * best > 9 * budget`, without the rounding of a float.
pub mod Decide
pub mod Waiting
pub mod Deadlines
pub mod Buying
mod Tests
use ticketguy.Prelude.{
  ℕ, ◌+◌, ◌*◌, Bool, true, false, not, ◌&&◌, ◌||◌, Option, none, some, List, [], ◌∷◌, ◌++◌, ltb,
  leb, if◌then◌else◌, or_else, is_some,
}
use ticketguy.Prelude.Int.{ℤ, pos, sub_ℕ, min_ℤ, ltb_ℤ}
use ticketguy.Prelude.Pushes.{push_if}
use ticketguy.Benchmark.{Adequacy, sufficient, limited, insufficient}
use ticketguy.Benchmark.Compute.{BenchmarkResult}

pub data Decision : Type 0 where
  buy_now wait_and_recheck consider_alternative insufficient_evidence : Decision

pub data PriceAttractiveness : Type 0 where
  below_typical within_typical above_typical unknown : PriceAttractiveness

pub data WaitRisk : Type 0 where
  low medium high : WaitRisk

pub record CustomerPriorities : Type 0 where
  pub must_attend : Option Bool
  pub wait_risk_tolerance : Option WaitRisk
  pub decision_deadline : Option ℕ
  pub budget_total_cents : Option ℕ
  pub together_required : Option Bool
  pub split_group_allowed : Option Bool
  pub watch_consent_given : Bool

pub record CurrentOfferSummary : Type 0 where
  pub best_eligible_total_cents : Option ℕ
  pub eligible_count : ℕ
  pub needs_review_count : ℕ
  pub alternative_available : Bool
  pub delivery_feasible : Option Bool
  pub safe_delivery_buffer_minutes : Option ℕ

pub data Direction : Type 0 where
  up down flat mixed no_direction : Direction

-- the part of `TrendResult` that the policy reads
pub record TrendSummary : Type 0 where
  pub direction : Direction
  pub is_sufficient : Bool

pub data Supply : Type 0 where
  shrinking stable growing supply_unknown : Supply

pub record MarketSummary : Type 0 where
  pub basis_matches_group : Bool
  pub direction : Direction
  pub supply : Supply
  pub broader_scope : Bool

pub record PolicyInput : Type 0 where
  pub now : ℕ
  pub event_start_at : ℕ
  pub offers : CurrentOfferSummary
  pub benchmark : Option BenchmarkResult
  pub trend : Option TrendSummary
  pub priorities : CustomerPriorities
  pub monitoring_coverage_available : Bool
  pub staffed_until : Option ℕ
  pub market : Option MarketSummary

pub data ReasonCode : Type 0 where
  historical_sample_small market_listings_shrinking market_mixed_no_clear_direction : ReasonCode
  market_scope_broader_than_request market_prices_falling_listings_holding : ReasonCode
  customer_accepts_wait_risk market_falling_but_risk_tolerance_or_deadline_unknown : ReasonCode
  no_offer_within_budget no_verified_eligible_offer offers_pending_review : ReasonCode
  past_safe_wait_window delivery_uncertain must_attend_low_risk_tolerance : ReasonCode
  trend_down_but_certainty_prioritized suitable_verified_offer_within_budget : ReasonCode
  wait_possible_but_risk_tolerance_or_deadline_unknown group_basket_trending_down : ReasonCode
  no_watch_consent_customer_rechecks_manually : ReasonCode
  monitoring_coverage_unavailable_customer_rechecks_manually group_basket_trending_up : ReasonCode
  price_below_typical price_within_typical : ReasonCode

pub data Abstention : Type 0 where
  no_historical_range no_reliable_trend : Abstention

pub data StopCondition : Type 0 where
  listings_shrink eligible_group_options_narrow price_reverses_up : StopCondition
  delivery_cutoff_approaches customer_deadline event_status_change : StopCondition

pub data Clarification : Type 0 where
  wait_risk_tolerance decision_deadline : Clarification

pub record PolicyResult : Type 0 where
  pub decision : Decision
  pub price_attractiveness : PriceAttractiveness
  pub reason_codes : List ReasonCode
  pub abstentions : List Abstention
  pub next_checkpoint_at : Option ℤ
  pub wait_deadline_at : Option ℤ
  pub stop_conditions : List StopCondition
  pub clarification_needed : List Clarification
  pub watch_scheduled : Bool

-- the benchmark's quartiles are in quarter cents
abbrev pub against_quartiles : ℕ → Option ℕ → Option ℕ → PriceAttractiveness
against_quartiles best (some p25) (some p75) =
    if ltb (4 * best) p25
    then below_typical
    else if ltb p75 (4 * best)
    then above_typical
    else within_typical
against_quartiles best _ _ = unknown

abbrev pub by_adequacy : Adequacy → PriceAttractiveness → PriceAttractiveness
by_adequacy insufficient a = unknown
by_adequacy _ a = a

unfoldable pub price_attractiveness_of : Option ℕ → Option BenchmarkResult → PriceAttractiveness
price_attractiveness_of none b = unknown
price_attractiveness_of (some best) none = unknown
price_attractiveness_of (some best) (some b) =
    by_adequacy b.adequacy (against_quartiles best b.p25 b.p75)

abbrev pub default_safe_delivery_buffer_minutes : ℕ
default_safe_delivery_buffer_minutes = 24 * 60

abbrev pub earlier : Option ℕ → ℤ → ℤ
earlier none t = t
earlier (some u) t = min_ℤ t (pos u)

-- `deliveryCutoff`
unfoldable pub delivery_cutoff : PolicyInput → ℤ
delivery_cutoff input =
    sub_ℕ input.event_start_at (
      or_else input.offers.safe_delivery_buffer_minutes default_safe_delivery_buffer_minutes
      * 60000)

unfoldable pub wait_deadline : PolicyInput → ℤ
wait_deadline input =
    earlier input.staffed_until (earlier input.priorities.decision_deadline (delivery_cutoff input))

-- `waitWindowMinutes > 0`
unfoldable pub window_open : PolicyInput → Bool
window_open input = ltb_ℤ (pos input.now) (wait_deadline input)

abbrev pub fits_budget : Option ℕ → Option ℕ → Bool
fits_budget none budget = false
fits_budget (some best) none = true
fits_budget (some best) (some budget) = leb best budget

unfoldable pub within_budget : PolicyInput → Bool
within_budget input =
    fits_budget input.offers.best_eligible_total_cents input.priorities.budget_total_cents

abbrev pub is_shrinking : Supply → Bool
is_shrinking shrinking = true
is_shrinking _ = false

abbrev pub is_down : Direction → Bool
is_down down = true
is_down _ = false

abbrev pub is_mixed : Direction → Bool
is_mixed mixed = true
is_mixed _ = false

abbrev pub is_up : Direction → Bool
is_up up = true
is_up _ = false

abbrev pub has_direction : Direction → Bool
has_direction no_direction = false
has_direction _ = true

abbrev pub market_shrinking : Option MarketSummary → Bool
market_shrinking none = false
market_shrinking (some m) = is_shrinking m.supply

abbrev pub market_falling : Option MarketSummary → Bool
market_falling none = false
market_falling (some m) =
    m.basis_matches_group && is_down m.direction && not (is_shrinking m.supply)
