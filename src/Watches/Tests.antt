-- ===== src/Watches/Tests.antt =====
-- src/lib/domain/watches.ts: runs of the rules, and each theorem at a concrete input.
use ticketguy.Prelude.{
  ℕ, ◌+◌, ◌*◌, ◌≤◌, ◌<◌, ◌≡◌, ◌↔◌, ◌⊎◌, refl, true, false, Option, none, some, [], ◌∷◌, length,
  arith,
}
use ticketguy.Money.{per_ticket, ok, whole_party_budget_cents}
use ticketguy.Prelude.Int.{pos}
use ticketguy.Watches.{
  RepeatArgs, needed_reduction, target_and_repeats, should_alert, should_alert_market,
  cadence_minutes, watch_expiry, hour_ms, Brief, BasketExtra, constraint_basket, market_watchable,
  accessible_seating, meets_delivery, build_basket,
}
use ticketguy.Watches.Alerts.{
  IsWorthAlerting, should_alert_iff, should_alert_market_iff, cadence_minutes_lem, watch_expiry_lem,
}
use ticketguy.Watches.Repeats.{Alerted, nothing, alerts, invalidated, Alerted-bound}

rules : Unit {0}
unfolding target_and_repeats needed_reduction should_alert should_alert_market cadence_minutes
    watch_expiry market_watchable meets_delivery constraint_basket whole_party_budget_cents
rules = tt

abbrev drop_to : ℕ → Option ℕ → RepeatArgs
drop_to candidate last = record {
  target_total_cents = 40000;
  candidate_total_cents = candidate;
  last_alerted_total_cents = last;
  alerts_in_last_24h = 1;
  dedupe_key_exists = false;
}

abbrev brief : Brief
brief = record {
  together_required = some true;
  budget_cents = some (pos 5000);
  budget_basis = some per_ticket;
  accessibility_needs = some "wheelchair";
}

abbrev no_extra : BasketExtra
no_extra = record {
  acceptable_sections = none;
  pairs_ok = false;
  delivery_by = none;
  unverifiable = [];
  revision = none;
}

rule_tests :
    ((should_alert true true (drop_to 26000 (some 39000))).alert ≡ true)
    × ((should_alert true true (drop_to 38001 (some 39000))).alert ≡ false)
    × (constraint_basket brief 2 900 no_extra ≡ ok (build_basket brief 2 900 no_extra (some 10000)))
    × (market_watchable (build_basket brief 2 900 no_extra none) ≡ some accessible_seating)
    × (meets_delivery none (some 5) ≡ false)
unfolding rules
rule_tests = (refl, refl, refl, refl, refl)

should_alert_iff_example :
    ((should_alert true true (drop_to 26000 (some 39000))).alert ≡ true)
    ↔ ((true ≡ true) × (true ≡ true) × IsWorthAlerting (drop_to 26000 (some 39000)))
should_alert_iff_example = should_alert_iff true true (drop_to 26000 (some 39000))

should_alert_market_iff_example :
    ((should_alert_market (some 5000) 700000 (drop_to 26000 none)).alert ≡ true) ↔ (
      (at : ℕ) × (some 5000 ≡ some at)
      × (at ≤ 700000 + 10 * 60000)
      × (700000 ≤ at + 180 * 60000)
      × IsWorthAlerting (drop_to 26000 none))
should_alert_market_iff_example = should_alert_market_iff (some 5000) 700000 (drop_to 26000 none)

cadences :
    (cadence_minutes 100000000 0 false ≡ some 120)
    × (cadence_minutes 100000000 90000000 false ≡ some 30)
unfolding rules
cadences = (refl, refl)

cadence_minutes_lem_example :
    (30 ≤ 120)
    × (0 < 100000000)
    × ((0 + 120 * 60000 < 100000000) ⊎ ((false ≡ true) × (100000000 ≤ 0 + 2 * hour_ms)))
cadence_minutes_lem_example =
    cadence_minutes_lem 100000000 0 90000000 false 120 30 (omega arith) cadences.0 cadences.1

watch_expiry_lem_example :
    (watch_expiry 1000 9000 (some 5000) ≤ watch_expiry 1000 9000 none)
    × (watch_expiry 1000 9000 none ≤ 9000)
    × (watch_expiry 1000 9000 (some 5000) ≤ 5000)
    × (watch_expiry 1000 9000 none ≤ 1000 + 30 * 24 * hour_ms)
    × ((watch_expiry 1000 9000 (some 5000) ≡ watch_expiry 1000 9000 none)
        ⊎ (watch_expiry 1000 9000 (some 5000) ≡ 5000))
watch_expiry_lem_example = watch_expiry_lem 1000 9000 5000

-- the second alert is invalidated, so that the third is measured against the first
two_alerts : Alerted 40000 (25000 ∷ 39000 ∷ [])
unfolding rules
two_alerts =
    alerts (drop_to 25000 (some 39000)) (39000 ∷ [])
      (invalidated [] 26000 (39000 ∷ []) (
        alerts (drop_to 26000 (some 39000)) (39000 ∷ [])
          (alerts (drop_to 39000 none) [] nothing refl refl refl) refl refl refl))
      refl refl refl

Alerted-bound_example : 1000 * length {A = ℕ} (25000 ∷ 39000 ∷ []) ≤ 40000 + 1000
Alerted-bound_example = Alerted-bound two_alerts
