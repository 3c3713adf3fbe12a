-- ===== src/Sourcing/Plan.antt =====
-- src/lib/sources/routing.ts: planSources, the sources that the research for one request calls.
use ticketguy.Prelude.{
  ℕ, ◌+◌, String, Bool, not, ◌&&◌, ◌||◌, Option, none, some, List, [], ◌∷◌, ◌++◌, map, str_eq, ◌==◌,
  leb, if◌then◌else◌, contains, keep, is_some,
}
use ticketguy.Reconcile.{unique}
use ticketguy.Sourcing.{CategoryRoute, route_for, source_plan}

pub record Adapter : Type 0 where
  pub source_id : String
  pub implementation : String
  pub enabled : Bool
  pub capabilities : List String
  pub access_approved : Bool

pub record PlanArgs : Type 0 where
  pub category : String
  pub max_automated_sources : ℕ
  pub adapters : List Adapter
  pub covered_source_ids : List String
  pub fixture_event : Bool

pub data Unavailable : Type 0 where
  source_not_integrated source_access_unapproved event_not_covered budget_exhausted : Unavailable
  depth_no_automated_sources : Unavailable

pub record Missed : Type 0 where
  pub source_id : String
  pub reason : Unavailable

pub record PlannedSources : Type 0 where
  pub executable : List String
  pub official_pointers : List String
  pub unavailable : List Missed

-- `bySource.get(id)`: of two adapters for one source the later one counts
abbrev pub by_source : String → List Adapter → Option Adapter
by_source id [] = none
by_source id (c ∷ cs) = elim (by_source id cs) [
  | some d ↦ some d
  | none ↦ if str_eq c.source_id id then some c else none
]

abbrev pub pointers_of : Option CategoryRoute → List String
pointers_of none = []
pointers_of (some route) = route.official_start

unfoldable pub fixtures_of : PlanArgs → List String
fixtures_of a =
    if a.fixture_event
    then map (λ (c : Adapter). c.source_id)
        (keep (λ (c : Adapter). c.enabled && str_eq c.implementation "fixture") a.adapters)
    else []

abbrev pub is_candidate : PlanArgs → List String → String → Bool
is_candidate a pointers s = not (contains s pointers) || is_some (by_source s a.adapters)

unfoldable pub candidates_of : PlanArgs → List String
unfolding fixtures_of source_plan route_for
candidates_of a = unique (
    keep (is_candidate a (pointers_of (route_for a.category))) (source_plan a.category).required
    ++ fixtures_of a)

-- `reason` where the depth has a budget at all
abbrev in_budget : ℕ → Unavailable → Unavailable
in_budget budget reason = if budget == 0 then depth_no_automated_sources else reason

abbrev pub is_integrated : Adapter → Bool
is_integrated c = c.enabled && contains "quote_search" c.capabilities

abbrev pub covers : PlanArgs → String → Adapter → Bool
covers a id c =
    contains id a.covered_source_ids
    || (str_eq c.implementation "fixture" || str_eq c.implementation "manual")

-- why a candidate is not called when `taken` are, or none when it is
abbrev pub refusal_of : PlanArgs → ℕ → String → Option Adapter → Option Unavailable
refusal_of a taken id none = some (in_budget a.max_automated_sources source_not_integrated)
refusal_of a taken id (some c) =
    if not (is_integrated c)
    then some (in_budget a.max_automated_sources source_not_integrated)
    else if not c.access_approved
    then some source_access_unapproved
    else if not (covers a id c)
    then some event_not_covered
    else if leb a.max_automated_sources taken
    then some (in_budget a.max_automated_sources budget_exhausted)
    else none

pub record Sorted : Type 0 where
  pub called : List String
  pub missed : List Missed

abbrev pub place : String → Option Unavailable → Sorted → Sorted
place id none r = record r { called = id ∷ r.called }
place id (some reason) r = record r {
  missed = (record { source_id = id; reason = reason }) ∷ r.missed;
}

abbrev pub count_of : ℕ → Option Unavailable → ℕ
count_of taken none = taken + 1
count_of taken (some reason) = taken

-- the loop, with the number of sources that are taken so far
unfoldable pub sort_from : PlanArgs → ℕ → List String → Sorted
sort_from a taken [] = record { called = []; missed = [] }
sort_from a taken (id ∷ ids) =
    let refusal = refusal_of a taken id (by_source id a.adapters) in
    place id refusal (sort_from a (count_of taken refusal) ids)

unfoldable pub plan_sources : PlanArgs → PlannedSources
unfolding sort_from candidates_of route_for
plan_sources a =
    let r = sort_from a 0 (candidates_of a) in
    record {
      executable = r.called;
      official_pointers = pointers_of (route_for a.category);
      unavailable = r.missed;
    }
