-- ===== src/Watches.antt =====
-- src/lib/domain/watches.ts: the cadence of a price watch, its expiry, and the rules by which a
-- price is worth an alert. Instants are milliseconds since the epoch. `Math.round` of a quotient
-- is the quotient rounded half up; amounts are whole cents.
pub mod Repeats
pub mod Alerts
mod Tests
use ticketguy.Prelude.{
  ℕ, ◌+◌, ◌-◌, ◌*◌, ◌/◌, min, max, String, Bool, true, false, not, ◌&&◌, ◌||◌, Option, none, some,
  List, [], ◌∷◌, str_eq, ltb, leb, if◌then◌else◌, or_else,
}
use ticketguy.Money.{BudgetBasis, Checked, ok, range_error, whole_party_budget_cents}
use ticketguy.Prelude.Int.{ℤ, pos}

abbrev pub watch_max_days : ℕ
watch_max_days = 30

abbrev pub watch_max_alerts_per_day : ℕ
watch_max_alerts_per_day = 2

abbrev pub realert_min_cents : ℕ
realert_min_cents = 1000

abbrev pub hour_ms : ℕ
hour_ms = 3600000

-- The tests on the hours until the event, with `now` on the other side.
unfoldable pub cadence_minutes : ℕ → ℕ → Bool → Option ℕ
cadence_minutes event_start now last_minute_approved =
    if leb event_start now
    then none
    else if ltb (now + 7 * 24 * hour_ms) event_start
    then some (6 * 60)
    else if ltb (now + 24 * hour_ms) event_start
    then some (2 * 60)
    else if ltb (now + 2 * hour_ms) event_start
    then some 30
    else if last_minute_approved
    then some 10
    else none

unfoldable pub watch_expiry : ℕ → ℕ → Option ℕ → ℕ
watch_expiry now event_start none = min (now + watch_max_days * 86400000) event_start
watch_expiry now event_start (some deadline) =
    min (min (now + watch_max_days * 86400000) event_start) deadline

-- The parts of the key, in order; the source joins them by colons.
pub record AlertDedupeKey : Type 0 where
  pub watch_id : String
  pub generation : ℕ
  pub offer_identity : String
  pub total_cents : ℕ

pub data AlertReason : Type 0 where
  unverified_total_cannot_meet_threshold stale_observation above_target : AlertReason
  duplicate_alert_key daily_alert_cap improvement_below_realert_threshold : AlertReason
  undated_observation future_observation qualified : AlertReason

pub record AlertDecision : Type 0 where
  pub alert : Bool
  pub reason : AlertReason

abbrev pub declined : AlertReason → AlertDecision
declined r = record { alert = false; reason = r }

-- `Math.max(REALERT_MIN_CENTS, Math.round(last * 0.05))`
unfoldable pub needed_reduction : ℕ → ℕ
needed_reduction last = max realert_min_cents ((last + 10) / 20)

-- `last - candidate < needed`, without the difference
abbrev pub too_small : Option ℕ → ℕ → Bool
too_small none candidate = false
too_small (some last) candidate = ltb last (candidate + needed_reduction last)

pub record RepeatArgs : Type 0 where
  pub target_total_cents : ℕ
  pub candidate_total_cents : ℕ
  pub last_alerted_total_cents : Option ℕ
  pub alerts_in_last_24h : ℕ
  pub dedupe_key_exists : Bool

unfoldable pub target_and_repeats : RepeatArgs → AlertDecision
target_and_repeats a =
    if ltb a.target_total_cents a.candidate_total_cents
    then declined above_target
    else if a.dedupe_key_exists
    then declined duplicate_alert_key
    else if leb watch_max_alerts_per_day a.alerts_in_last_24h
    then declined daily_alert_cap
    else if too_small a.last_alerted_total_cents a.candidate_total_cents
    then declined improvement_below_realert_threshold
    else record { alert = true; reason = qualified }

unfoldable pub should_alert : Bool → Bool → RepeatArgs → AlertDecision
should_alert candidate_verified candidate_fresh a =
    if not candidate_verified
    then declined unverified_total_cannot_meet_threshold
    else if not candidate_fresh
    then declined stale_observation
    else target_and_repeats a

abbrev pub market_alert_max_age_minutes : ℕ
market_alert_max_age_minutes = 3 * 60

abbrev pub market_alert_future_tolerance_minutes : ℕ
market_alert_future_tolerance_minutes = 10

-- The age of the provider's read against both limits.
unfoldable pub should_alert_market : Option ℕ → ℕ → RepeatArgs → AlertDecision
should_alert_market none now a = declined undated_observation
should_alert_market (some observed) now a =
    if ltb (now + market_alert_future_tolerance_minutes * 60000) observed
    then declined future_observation
    else if ltb (observed + market_alert_max_age_minutes * 60000) now
    then declined stale_observation
    else target_and_repeats a

-- Every hard requirement of a request revision (with the fields of `HardConstraints`).
pub record ConstraintBasket : Type 0 where
  pub quantity : ℕ
  pub together_required : Option Bool
  pub budget_total_cents : Option ℕ
  pub exclude_obstructed_view : Bool
  pub require_accessible : Bool
  pub acceptable_sections : Option (List String)
  pub event_start_at : ℕ
  pub pairs_ok : Bool
  pub delivery_by : Option ℕ
  pub unverifiable : List String
  pub revision : Option ℕ

-- The brief's fields; `accessibility_needs` is trimmed text, empty when there is none.
pub record Brief : Type 0 where
  pub together_required : Option Bool
  pub budget_cents : Option ℤ
  pub budget_basis : Option BudgetBasis
  pub accessibility_needs : Option String

pub record BasketExtra : Type 0 where
  pub acceptable_sections : Option (List String)
  pub pairs_ok : Bool
  pub delivery_by : Option ℕ
  pub unverifiable : List String
  pub revision : Option ℕ

abbrev pub is_stated : Option String → Bool
is_stated none = false
is_stated (some s) = not (str_eq s "")

abbrev pub build_basket : Brief → ℕ → ℕ → BasketExtra → Option ℕ → ConstraintBasket
build_basket brief quantity event_start extra budget = record {
  quantity = quantity;
  together_required = brief.together_required;
  budget_total_cents = budget;
  exclude_obstructed_view = true;
  require_accessible = is_stated brief.accessibility_needs;
  acceptable_sections = extra.acceptable_sections;
  event_start_at = event_start;
  pairs_ok = extra.pairs_ok;
  delivery_by = extra.delivery_by;
  unverifiable = extra.unverifiable;
  revision = extra.revision;
}

-- the budget may throw, as `wholePartyBudgetCents` does
unfoldable pub constraint_basket : Brief → ℕ → ℕ → BasketExtra → Checked ConstraintBasket
constraint_basket brief quantity event_start extra =
    elim (whole_party_budget_cents brief.budget_cents brief.budget_basis (some quantity)) [
      | ok budget ↦ ok (build_basket brief quantity event_start extra budget)
      | range_error ↦ range_error
    ]

pub data Unwatchable : Type 0 where
  accessible_seating sections delivery_deadline : Unwatchable
  unverifiable_requirement : String → Unwatchable

abbrev pub has_sections : Option (List String) → Bool
has_sections (some (s ∷ ss)) = true
has_sections _ = false

abbrev pub first_unverifiable : List String → Option Unwatchable
first_unverifiable [] = none
first_unverifiable (u ∷ us) = some (unverifiable_requirement u)

abbrev pub is_given : Option ℕ → Bool
is_given none = false
is_given (some t) = true

-- The reason code of an unverifiable requirement is a function of its label.
unfoldable pub market_watchable : ConstraintBasket → Option Unwatchable
market_watchable b =
    if b.require_accessible
    then some accessible_seating
    else if has_sections b.acceptable_sections
    then some sections
    else if is_given b.delivery_by
    then some delivery_deadline
    else first_unverifiable b.unverifiable

-- `o` is the offer's expected delivery.
unfoldable pub meets_delivery : Option ℕ → Option ℕ → Bool
meets_delivery o none = true
meets_delivery none (some by) = false
meets_delivery (some at) (some by) = leb at by
