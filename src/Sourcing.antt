-- ===== src/Sourcing.antt =====
-- src/lib/sources/routing.ts: the category routes. Labels and notes, which only document a route,
-- are left out; the registry is the argument `ids` of validate_routing.
pub mod Budget
pub mod Plan
mod Tests
use ticketguy.Prelude.{
  String, Bool, true, false, not, ◌&&◌, Option, none, some, List, [], ◌∷◌, ◌++◌, map, str_eq, ◌==◌,
  if◌then◌else◌, contains, find, keep, length,
}
use ticketguy.Reconcile.{unique}

pub data Routine : Type 0 where
  core_extended core_extended_where_listed primary_plus_exchanges : Routine
  official_first category_specific : Routine

pub record CategoryRoute : Type 0 where
  pub key : String
  pub official_start : List String
  pub routine : Routine
  pub conditional : List String
  pub pilot_default : Bool

abbrev pub core_sources : List String
core_sources =
    "ticketmaster" ∷ "axs-us-axs-official-resale" ∷ "seatgeek" ∷ "stubhub" ∷ "vivid-seats"
    ∷ "tickpick" ∷ "gametime" ∷ []

abbrev pub extended_sources : List String
extended_sources =
    "ticketiq" ∷ "ticketnetwork" ∷ "ticketsmarter" ∷ "ticketcity" ∷ "megaseats" ∷ "gotickets"
    ∷ "soldout-com" ∷ "ticket-club" ∷ "scorebig" ∷ "ticket-liquidator" ∷ "event-tickets-center"
    ∷ "tickets-center" ∷ "ticketsonsale" ∷ "ticketfaster" ∷ "viagogo" ∷ "seatpick" ∷ []

abbrev route : String → List String → Routine → List String → Bool → CategoryRoute
route key start routine conditional pilot = record {
  key = key;
  official_start = start;
  routine = routine;
  conditional = conditional;
  pilot_default = pilot;
}

abbrev pub category_routes : List CategoryRoute
category_routes =
    route "nhl" ("nhl-ticket-exchange" ∷ []) core_extended ("fevo" ∷ []) true
    ∷ route "nba" ("nba-tickets" ∷ []) core_extended ([]) true
    ∷ route "wnba" ("wnba-tickets" ∷ []) core_extended_where_listed ([]) false
    ∷ route "nfl" ("nfl-tickets" ∷ []) core_extended ("on-location" ∷ []) true
    ∷ route "mlb" ("mlb-tickets" ∷ []) core_extended
        ("fevo" ∷ "tickets-com-provenue" ∷ "seatgeek" ∷ []) true
    ∷ route "soccer" ("mls-tickets" ∷ "nwsl" ∷ []) core_extended_where_listed ([]) false
    ∷ route "ncaa_regular" ([]) core_extended_where_listed
        ("paciolan-evenue" ∷ "ticketmaster" ∷ "seatgeek" ∷ "tickets-com-provenue" ∷ "vivenu"
          ∷ "ticketreturn" ∷ "hometown-ticketing" ∷ [])
        false
    ∷ route "ncaa_championship" ("ncaa-tickets" ∷ []) core_extended_where_listed ([]) false
    ∷ route "minor_league" ("milb-tickets" ∷ []) core_extended_where_listed
        ("etix" ∷ "ticketreturn" ∷ "tickets-com-provenue" ∷ "vivenu" ∷ "paciolan-evenue" ∷ []) false
    ∷ route "high_school" ([]) official_first ("gofan" ∷ "hometown-ticketing" ∷ []) false
    ∷ route "combat" ("wwe-events" ∷ "aew-events" ∷ []) core_extended ([]) false
    ∷ route "motorsport" ("nascar-tickets" ∷ "indycar-schedule" ∷ "nhra-schedule" ∷ [])
        core_extended_where_listed ("formula-1-ticket-store" ∷ "f1-experiences" ∷ []) false
    ∷ route "tennis_golf" ("us-open-tennis" ∷ "masters-tickets" ∷ []) core_extended_where_listed
        ([]) false
    ∷ route "emerging_sports" ("pbr" ∷ []) core_extended_where_listed
        ("etix" ∷ "tixr" ∷ "eventbrite" ∷ "showclix-leap-events" ∷ []) false
    ∷ route "concert" ("live-nation" ∷ "aeg-presents" ∷ []) core_extended
        ("ticketstoday" ∷ "cashortrade" ∷ "tixel-us" ∷ "ticketswap" ∷ "american-express-experiences"
          ∷ "citi-entertainment" ∷ "capital-one-entertainment" ∷ [])
        true
    ∷ route "club_concert" ([]) primary_plus_exchanges
        ("dice" ∷ "ticketweb" ∷ "etix" ∷ "eventim-us-see-tickets-us" ∷ "tixr" ∷ "prekindle"
          ∷ "eventbrite" ∷ "venuepilot" ∷ "cashortrade" ∷ "tixel-us" ∷ "ticketswap" ∷ [])
        true
    ∷ route "festival" ([]) primary_plus_exchanges
        ("front-gate-tickets" ∷ "axs-us-axs-official-resale" ∷ "tixr" ∷ "eventim-us-see-tickets-us"
          ∷ "etix" ∷ "ticket-fairy" ∷ "cashortrade" ∷ "tixel-us" ∷ "ticketswap" ∷ [])
        false
    ∷ route "electronic_nightlife" ([]) primary_plus_exchanges
        ("dice" ∷ "resident-advisor-ra-tickets" ∷ "shotgun" ∷ "posh" ∷ "ticket-fairy" ∷ "tixr"
          ∷ "eventbrite" ∷ [])
        false
    ∷ route "broadway" ("broadway-org" ∷ []) category_specific
        ("telecharge" ∷ "broadway-direct" ∷ "todaytix" ∷ "broadwaybox" ∷ "playbill-discounts"
          ∷ "theatermania" ∷ "tkts-by-tdf" ∷ "tdf-membership" ∷ "telecharge-lottery-rush"
          ∷ "broadway-direct-lottery" ∷ "broadway-com" ∷ "broadway-inbound" ∷ [])
        true
    ∷ route "touring_theater" ([]) category_specific
        ("todaytix" ∷ "lucky-seat" ∷ "audienceview-ovationtix" ∷ "spektrix" ∷ "tessitura" ∷ []) true
    ∷ route "classical" ([]) category_specific
        ("todaytix" ∷ "tessitura" ∷ "spektrix" ∷ "audienceview-ovationtix" ∷ []) false
    ∷ route "comedy" ([]) category_specific
        ("ticketweb" ∷ "etix" ∷ "tixr" ∷ "prekindle" ∷ "eventbrite" ∷ "helium-comedy"
          ∷ "comedy-cellar" ∷ [])
        true
    ∷ route "family" ([]) core_extended_where_listed ("groupon" ∷ "fever" ∷ []) false
    ∷ route "fairs_community" ([]) official_first
        ("etix" ∷ "ticketspice" ∷ "big-tickets" ∷ "freshtix" ∷ "ticketleap" ∷ "humanitix-us"
          ∷ "events-com" ∷ [])
        false
    ∷ route "conventions" ([]) official_first
        ("showclix-leap-events" ∷ "eventbrite" ∷ "tixr" ∷ "universe" ∷ "ticket-fairy" ∷ []) false
    ∷ route "las_vegas" ([]) category_specific
        ("vegas-com" ∷ "tix4-tix4vegas" ∷ "todaytix" ∷ "groupon" ∷ "fever" ∷ []) false
    ∷ route "attractions" ([]) category_specific
        ("fever" ∷ "tiqets" ∷ "groupon" ∷ "universe" ∷ "simpletix" ∷ "citypass" ∷ []) false
    ∷ route "theme_parks" ([]) category_specific ("undercover-tourist" ∷ []) false
    ∷ route "cinema" ([]) category_specific ("fandango" ∷ "atom-tickets" ∷ []) false
    ∷ []

-- what is wrong with the routes: unknown ids, then repeated keys, then their number; empty when
-- nothing is, where the source throws
abbrev unknown_ids : List String → List String → List String
unknown_ids ids = keep (λ id. not (contains id ids))

abbrev unknown_in : List String → List CategoryRoute → List String
unknown_in ids [] = []
unknown_in ids (r ∷ rs) = unknown_ids ids (r.official_start ++ r.conditional) ++ unknown_in ids rs

abbrev repeated_from : List String → List CategoryRoute → List String
repeated_from keys [] = []
repeated_from keys (r ∷ rs) =
    let rest = repeated_from (r.key ∷ keys) rs in if contains r.key keys then r.key ∷ rest else rest

abbrev wrong_number : List String
wrong_number = if length category_routes == 29 then [] else "expected 29 routes" ∷ []

unfoldable pub validate_routing : List String → List String
validate_routing ids =
    unknown_ids ids (core_sources ++ extended_sources)
    ++ (unknown_in ids category_routes ++ (repeated_from [] category_routes ++ wrong_number))

unfoldable pub route_for : String → Option CategoryRoute
route_for category = find (λ r. str_eq r.key category) category_routes

pub record SourcePlan : Type 0 where
  pub required : List String
  pub conditional : List String

abbrev pub routine_sources : Routine → List String
routine_sources core_extended = core_sources ++ extended_sources
routine_sources core_extended_where_listed = core_sources ++ extended_sources
routine_sources primary_plus_exchanges = core_sources
routine_sources _ = []

abbrev pub plan_of : Option CategoryRoute → SourcePlan
plan_of none = record { required = []; conditional = [] }
plan_of (some route) =
    let required = unique (route.official_start ++ routine_sources route.routine) in
    record {
      required = required;
      conditional = keep (λ c. not (contains c required)) route.conditional;
    }

unfoldable pub source_plan : String → SourcePlan
unfolding route_for
source_plan category = plan_of (route_for category)
