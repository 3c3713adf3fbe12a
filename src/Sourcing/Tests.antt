-- ===== src/Sourcing/Tests.antt =====
-- src/lib/sources/routing.ts: runs of the planner, and its theorem at a concrete input.
use ticketguy.Prelude.{◌≤◌, ◌≡◌, refl, String, true, false, List, [], ◌∷◌, ◌++◌, length, All, Perm}
use ticketguy.Sourcing.{route_for, source_plan, validate_routing}
use ticketguy.Sourcing.Plan.{
  Adapter, PlanArgs, budget_exhausted, source_not_integrated, Missed, fixtures_of, candidates_of,
  sort_from, plan_sources,
}
use ticketguy.Sourcing.Budget.{IsReady, Explains, missed_ids, plan_sources_lem}

rules : Unit {0}
unfolding route_for source_plan validate_routing fixtures_of candidates_of sort_from plan_sources
rules = tt

abbrev adapter : String → List String → Adapter
adapter id caps = record {
  source_id = id;
  implementation = "http";
  enabled = true;
  capabilities = caps;
  access_approved = true;
}

abbrev args : PlanArgs
args = record {
  category = "club_concert";
  max_automated_sources = 1;
  adapters =
      adapter "seatgeek" ("quote_search" ∷ [])
      ∷ adapter "stubhub" ("quote_search" ∷ [])
      ∷ adapter "tickpick" ("discovery" ∷ [])
      ∷ [];
  covered_source_ids = "seatgeek" ∷ "stubhub" ∷ [];
  fixture_event = false;
}

abbrev missing : String → Missed
missing id = record { source_id = id; reason = source_not_integrated }

plan_runs :
    ((plan_sources args).executable ≡ "seatgeek" ∷ [])
    × ((plan_sources args).unavailable
        ≡ missing "ticketmaster"
          ∷ missing "axs-us-axs-official-resale"
          ∷ record { source_id = "stubhub"; reason = budget_exhausted }
          ∷ missing "vivid-seats"
          ∷ missing "tickpick"
          ∷ missing "gametime"
          ∷ [])
    × ((source_plan "no such category").required ≡ [])
unfolding rules
plan_runs = (refl, refl, refl)

plan_sources_lem_example :
    let p = plan_sources args in
    (length p.executable ≤ 1)
    × All (IsReady args) p.executable
    × Perm (p.executable ++ missed_ids p.unavailable) (candidates_of args)
    × All (λ (m : Missed). Explains args (length p.executable) m.source_id m.reason) p.unavailable
plan_sources_lem_example = plan_sources_lem args
