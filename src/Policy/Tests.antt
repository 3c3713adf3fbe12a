-- ===== src/Policy/Tests.antt =====
-- src/lib/advice/policy.ts: runs of `decide`, and each theorem at a concrete input.
use ticketguy.Prelude.{
  ℕ, ◌+◌, ◌*◌, ◌≤◌, ◌≡◌, refl, ◌↔◌, ◌⊎◌, inl, true, false, Option, none, some, or_else,
}
use ticketguy.Prelude.Int.{ℤ, pos, ◌≤ℤ◌, ◌<ℤ◌, sub_ℕ}
use ticketguy.Policy.{
  PolicyInput, CurrentOfferSummary, CustomerPriorities, down, WaitRisk, medium, low,
  wait_and_recheck, buy_now, insufficient_evidence, price_attractiveness_of, delivery_cutoff,
  wait_deadline, window_open, within_budget,
}
use ticketguy.Policy.Decide.{
  decide, finish, finish_waiting, no_fit, could_improve, secure, weigh_waiting, with_offer,
  falling_market,
}
use ticketguy.Policy.Waiting.{AcceptsWaiting, IsFallingMarket, IsFallingOffer, decide_waits_iff}
use ticketguy.Policy.Deadlines.{decide_watch, decide_deadlines}
use ticketguy.Policy.Buying.{decide_buys, decide_urgent}

rules : Unit {0}
unfolding price_attractiveness_of delivery_cutoff wait_deadline window_open within_budget decide
    finish finish_waiting no_fit could_improve secure weigh_waiting with_offer falling_market
rules = tt

abbrev day : ℕ
day = 86400000

abbrev offer : Option ℕ → CurrentOfferSummary
offer best = record {
  best_eligible_total_cents = best;
  eligible_count = 3;
  needs_review_count = 0;
  alternative_available = false;
  delivery_feasible = some true;
  safe_delivery_buffer_minutes = none;
}

abbrev customer : WaitRisk → CustomerPriorities
customer risk = record {
  must_attend = some false;
  wait_risk_tolerance = some risk;
  decision_deadline = some (5 * day);
  budget_total_cents = some 50000;
  together_required = some true;
  split_group_allowed = some false;
  watch_consent_given = true;
}

abbrev request : ℕ → Option ℕ → WaitRisk → PolicyInput
request now best risk = record {
  now = now;
  event_start_at = 10 * day;
  offers = offer best;
  benchmark = none;
  trend = some (record { direction = down; is_sufficient = true });
  priorities = customer risk;
  monitoring_coverage_available = true;
  staffed_until = none;
  market = none;
}

runs :
    ((decide (request day (some 49000) medium)).decision ≡ wait_and_recheck)
    × ((decide (request day (some 49000) medium)).watch_scheduled ≡ true)
    × ((decide (request day (some 49000) medium)).next_checkpoint_at ≡ some (pos (2 * day)))
    × ((decide (request day (some 49000) low)).decision ≡ buy_now)
    × ((decide (request day (some 45000) medium)).decision ≡ buy_now)
    × ((decide (request (6 * day) (some 49000) medium)).decision ≡ buy_now)
    × ((decide (request day (some 50001) medium)).decision ≡ insufficient_evidence)
    × ((decide (request day none medium)).decision ≡ insufficient_evidence)
unfolding rules
runs = (refl, refl, refl, refl, refl, refl, refl, refl)

abbrev falling : PolicyInput
falling = request day (some 49000) medium

abbrev late : PolicyInput
late = request (6 * day) (some 49000) medium

late_state : (within_budget late ≡ true) × (window_open late ≡ false)
unfolding rules
late_state = (refl, refl)

decide_waits_iff_example :
    ((decide falling).decision ≡ wait_and_recheck)
    ↔ AcceptsWaiting falling
      × (window_open falling ≡ true)
      × (IsFallingMarket falling ⊎ IsFallingOffer falling)
decide_waits_iff_example = decide_waits_iff falling

decide_watch_example :
    ((decide falling).decision ≡ wait_and_recheck) × (true ≡ true) × (true ≡ true)
decide_watch_example = decide_watch falling runs.1

decide_deadlines_example :
    (until checkpoint : ℤ) × ((decide falling).wait_deadline_at ≡ some until)
    × ((decide falling).next_checkpoint_at ≡ some checkpoint)
    × (pos day <ℤ checkpoint)
    × (checkpoint ≤ℤ until)
    × (checkpoint ≤ℤ pos (day + 24 * 3600000))
    × (until ≤ℤ pos (5 * day))
    × (until ≤ℤ sub_ℕ (10 * day) (or_else none (24 * 60) * 60000))
decide_deadlines_example = decide_deadlines falling (5 * day) refl runs.0

decide_buys_example : (best : ℕ) × (some 49000 ≡ some best) × (best ≤ 50000)
decide_buys_example = decide_buys (request day (some 49000) low) 50000 refl runs.3

decide_urgent_example : (decide late).decision ≡ buy_now
decide_urgent_example = decide_urgent late late_state.0 (inl late_state.1)
