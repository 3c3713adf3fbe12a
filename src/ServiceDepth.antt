-- ===== src/ServiceDepth.antt =====
-- src/lib/domain/service-depth.ts: how much the service invests in a request. The rule table, the
-- format of an event, and the depth that a request resolves to.
-- The regular expressions on names and venues are the record Words. A category is a text; the test
-- `category in DEPTH_RULES` is membership among the keys that the table lists.
pub mod Capability
pub mod Enforcement
pub mod Gate
pub mod Policy
pub mod Resolution
pub mod Rights
pub mod Snapshot
pub mod Sources
mod Tests
use ticketguy.Prelude.{
  ℕ, String, Bool, true, false, not, ◌&&◌, ◌||◌, Option, none, some, List, [], ◌∷◌, ◌++◌, str_eq,
  ltb, if◌then◌else◌, contains, any, find, is_some, or_else,
}
use ticketguy.Prelude.Pushes.{push_if}

pub data ServiceDepth : Type 0 where
  outside guide compare core : ServiceDepth

abbrev pub depth_rank : ServiceDepth → ℕ
depth_rank outside = 0
depth_rank guide = 1
depth_rank compare = 2
depth_rank core = 3

pub data Operation : Type 0 where
  official_lookup provided_offer_check live_comparison historical_context trend_advice : Operation
  market_tracking price_watch event_alert staff_comparison : Operation

abbrev pub operations : List Operation
operations =
    official_lookup ∷ provided_offer_check ∷ live_comparison ∷ historical_context ∷ trend_advice
    ∷ market_tracking ∷ price_watch ∷ event_alert ∷ staff_comparison ∷ []

abbrev pub operation_number : Operation → ℕ
operation_number official_lookup = 0
operation_number provided_offer_check = 1
operation_number live_comparison = 2
operation_number historical_context = 3
operation_number trend_advice = 4
operation_number market_tracking = 5
operation_number price_watch = 6
operation_number event_alert = 7
operation_number staff_comparison = 8

pub data ReasonCode : Type 0 where
  outside_product non_us_event operator_blocked unknown_format guide_official_only : ReasonCode
  compare_no_tracking core_override_approved source_not_integrated : ReasonCode
  source_access_unapproved event_not_covered product_not_equivalent group_unverified : ReasonCode
  fees_unconfirmed history_not_comparable history_use_unapproved : ReasonCode
  monitoring_unavailable delivery_disabled policy_changed budget_exhausted : ReasonCode
  category_default touring_format club_or_local_format unknown_category festival_format : ReasonCode

pub data EventFormat : Type 0 where
  touring club festival local unknown : EventFormat

pub record Limits : Type 0 where
  pub official_documents : ℕ
  pub automated_offer_sources : ℕ
  pub proactive_clarifications : ℕ
  pub max_displayed_offers : ℕ

pub record ServicePolicyDecision : Type 0 where
  pub policy_version : String
  pub category : String
  pub format : Option EventFormat
  pub depth : ServiceDepth
  pub reasons : List ReasonCode
  pub override_id : Option String
  pub allowed_operations : List Operation
  pub limits : Limits

-- `note`, which only documents a rule, is left out
pub record Rule : Type 0 where
  pub base : ServiceDepth
  pub club : Option ServiceDepth
  pub touring : Option ServiceDepth
  pub unknown : Option ServiceDepth

abbrev plain : ServiceDepth → Rule
plain d = record { base = d; club = none; touring = none; unknown = none }

abbrev small : ServiceDepth → ServiceDepth → Rule
small d c = record (plain d) { club = some c }

abbrev large : ServiceDepth → ServiceDepth → Rule
large d t = record (plain d) { touring = some t }

abbrev pub depth_rules : List (String × Rule)
depth_rules =
    ("nhl", plain core)
    ∷ ("nba", plain core)
    ∷ ("wnba", plain core)
    ∷ ("nfl", plain core)
    ∷ ("mlb", plain core)
    ∷ ("soccer", small core guide)
    ∷ ("ncaa_regular", plain guide)
    ∷ ("ncaa_championship", plain compare)
    ∷ ("minor_league", plain guide)
    ∷ ("high_school", plain guide)
    ∷ ("combat", plain compare)
    ∷ ("motorsport", plain compare)
    ∷ ("tennis_golf", plain compare)
    ∷ ("emerging_sports", plain guide)
    ∷ ("concert", record (small core guide) { unknown = some compare })
    ∷ ("club_concert", large guide compare)
    ∷ ("festival", plain compare)
    ∷ ("electronic_nightlife", large guide core)
    ∷ ("broadway", plain compare)
    ∷ ("touring_theater", small compare guide)
    ∷ ("classical", plain guide)
    ∷ ("comedy", large guide compare)
    ∷ ("family", small compare guide)
    ∷ ("fairs_community", plain guide)
    ∷ ("conventions", plain guide)
    ∷ ("las_vegas", small compare guide)
    ∷ ("attractions", plain guide)
    ∷ ("theme_parks", plain guide)
    ∷ ("cinema", plain guide)
    ∷ ("food_drink", plain guide)
    ∷ ("unknown", plain guide)
    ∷ ("classes_workshops", plain outside)
    ∷ ("tours_experiences", plain outside)
    ∷ ("participation_permits", plain outside)
    ∷ ("travel_reservations", plain outside)
    ∷ ("virtual_gambling", plain outside)
    ∷ []

abbrev pub operations_by_depth : ServiceDepth → List Operation
operations_by_depth core = operations
operations_by_depth compare =
    official_lookup ∷ provided_offer_check ∷ live_comparison ∷ event_alert ∷ []
operations_by_depth guide = official_lookup ∷ provided_offer_check ∷ []
operations_by_depth outside = []

abbrev pub limits_of : ServiceDepth → Limits
limits_of core = record {
  official_documents = 4;
  automated_offer_sources = 8;
  proactive_clarifications = 2;
  max_displayed_offers = 3;
}
limits_of compare = record {
  official_documents = 3;
  automated_offer_sources = 4;
  proactive_clarifications = 1;
  max_displayed_offers = 3;
}
limits_of guide = record {
  official_documents = 2;
  automated_offer_sources = 0;
  proactive_clarifications = 1;
  max_displayed_offers = 2;
}
limits_of outside = record {
  official_documents = 0;
  automated_offer_sources = 0;
  proactive_clarifications = 0;
  max_displayed_offers = 0;
}

-- what the regular expressions say of a text
pub record Words : Type 0 where
  pub large_venue : String → Bool
  pub theater_venue : String → Bool
  pub club_venue : String → Bool
  pub club_event : String → Bool
  pub local_event : String → Bool
  pub says_festival : String → Bool

-- `venue && test(venue)`: an empty text is no venue
abbrev venue_has : (String → Bool) → String → Bool
venue_has test venue = not (str_eq venue "") && test venue

unfoldable pub event_format : Words → String → String → Option String → EventFormat
event_format w category name venue_name =
    let venue = or_else venue_name "" in
    if str_eq category "festival" || w.says_festival name
    then festival
    else if w.local_event name
    then local
    else if w.club_event name || (venue_has w.club_venue venue && not (w.large_venue venue))
    then club
    else if venue_has (λ v. w.large_venue v || w.theater_venue v) venue
    then touring
    else unknown

abbrev pub rule_in : String → List (String × Rule) → Option Rule
rule_in key [] = none
rule_in key ((k, rule) ∷ rest) = if str_eq k key then some rule else rule_in key rest

-- `policyCategory`
unfoldable pub policy_category : Option String → String
policy_category none = "unknown"
policy_category (some category) =
    if is_some (rule_in category depth_rules) then category else "unknown"

unfoldable pub rule_of : String → Rule
rule_of category = elim (rule_in category depth_rules) [ some rule ↦ rule | none ↦ plain guide ]
