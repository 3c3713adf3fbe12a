-- ===== src/ServiceDepth/Tests.antt =====
-- src/lib/domain/service-depth.ts, src/lib/intake/service-policy.ts: runs of the policy, and each
-- theorem at a concrete input.
use ticketguy.Prelude.{◌≡◌, ◌↔◌, ◌⊎◌, refl, true, false, none, some, List, [], ◌∷◌, arith}
use ticketguy.ServiceDepth.{
  outside, core, compare, official_lookup, trend_advice, live_comparison, EventFormat, Words,
  event_format, policy_category, rule_of,
}
use ticketguy.ServiceDepth.Policy.{
  DepthOverride, PolicyContext, depth_for, resolve_category, resolve_for, resolve_service_policy,
  allows,
}
use ticketguy.ServiceDepth.Capability.{
  available, compare_capability, watch_capability, rights_of, evaluate_operation_capability,
}
use ticketguy.ServiceDepth.Resolution.{
  Permits, resolve_service_policy-allows_iff, block_opens_outside,
}
use ticketguy.ServiceDepth.Rights.{IsReady, evaluate_operation_capability-available_iff}
use ticketguy.ServiceDepth.Snapshot.{
  shadow, enforce, is_enforce, PolicySnapshot, PolicyTables, PolicyEnv, EventRows, capability,
  adapter_facts, covered_source_ids, licence_facts, capability_context, capabilities_for,
  decision_for_event, snapshot_of, policy_for_event, seatdata_dataset_id,
}
use ticketguy.ServiceDepth.Enforcement.{policy_for_event-capability_iff}
use ticketguy.ServiceDepth.Gate.{AuditRow, refusal_row, gate, gate_logs_once}

rules : Unit {0}
unfolding event_format policy_category rule_of depth_for resolve_category resolve_for
    resolve_service_policy allows compare_capability watch_capability rights_of
    evaluate_operation_capability capability adapter_facts covered_source_ids licence_facts
    capability_context capabilities_for decision_for_event snapshot_of policy_for_event gate
rules = tt

abbrev approved : DepthOverride
approved = record {
  id = "o1";
  depth = core;
  event_ids = "e1" ∷ [];
  entity_slugs = [];
  expires_at = 900;
}

abbrev concert : PolicyContext
concert = record {
  category = some "concert";
  format = some EventFormat.unknown;
  outside_intent = none;
  event_id = some "e1";
  entity_slug = none;
  country = some "US";
  blocked_categories = [];
  overrides = approved ∷ [];
  now = 500;
}

abbrev workshop : PolicyContext
workshop = record concert {
  category = some "classes_workshops";
  blocked_categories = "classes_workshops" ∷ [];
}

resolution_runs :
    ((resolve_service_policy concert).depth ≡ core)
    × ((resolve_service_policy (record concert { now = 900 })).depth ≡ compare)
    × ((resolve_service_policy (record concert { country = some "CA" })).depth ≡ outside)
    × (allows (resolve_service_policy (record concert { now = 900 })) trend_advice ≡ false)
unfolding rules
resolution_runs = (refl, refl, refl, refl)

resolve_service_policy-allows_iff_example :
    (allows (resolve_service_policy concert) trend_advice ≡ true)
    ↔ Permits concert none trend_advice
resolve_service_policy-allows_iff_example = resolve_service_policy-allows_iff concert trend_advice

block_opens_outside_example :
    (allows (resolve_service_policy workshop) official_lookup ≡ true)
    × (allows (resolve_service_policy (record workshop { blocked_categories = [] })) official_lookup
        ≡ false)
unfolding rules
block_opens_outside_example = block_opens_outside workshop refl refl refl refl refl

abbrev words : Words
words = record {
  large_venue = λ v. false;
  theater_venue = λ v. false;
  club_venue = λ v. false;
  club_event = λ v. false;
  local_event = λ v. false;
  says_festival = λ v. false;
}

abbrev db : PolicyTables
db = record {
  adapter_configs =
      record {
        source_id = "seatgeek";
        implementation = "manual";
        enabled = true;
        capabilities = [];
        monitoring_allowed = false;
        access_approval_evidence = some "contract";
      }
      ∷ [];
  event_source_mappings = record { event_id = "e1"; source_id = "seatgeek" } ∷ [];
  market_datasets =
      record {
        id = seatdata_dataset_id;
        status = "approved";
        approved_uses = "advice" ∷ [];
        raw_retention_until = none;
      }
      ∷ [];
  tracked_events = [];
}

abbrev env : PolicyEnv
env = record {
  seatdata_api_key = none;
  watch_send_enabled = false;
  test_recipient_allowlist = [];
  service_policy_mode = enforce;
  blocked_categories = [];
  service_depth_overrides = [];
}

abbrev row : EventRows
row = record {
  event = record { id = "e1"; is_fixture = false };
  category = "concert";
  name = "Evening";
  venue_name = "Hall";
  venue_country = "US";
  entity_slug = none;
}

abbrev snap : PolicySnapshot
unfolding snapshot_of
snap = snapshot_of words db env row 500 none

snapshot_runs :
    (policy_for_event words db env (some row) 500 none ≡ some snap)
    × ((capability snap live_comparison).state ≡ available)
    × ((snap.rights trend_advice).state ≡ available)
    × (allows snap.decision trend_advice ≡ false)
    × ((capability snap trend_advice).source_ids ≡ [])
unfolding rules
snapshot_runs = (refl, refl, refl, refl, refl)

evaluate_operation_capability-available_iff_example :
    let ctx = capability_context db env snap.decision row.event 500 in
    ((evaluate_operation_capability ctx live_comparison).state ≡ available)
    ↔ ((allows snap.decision live_comparison ≡ true) × IsReady ctx live_comparison)
unfolding capability_context
evaluate_operation_capability-available_iff_example =
    evaluate_operation_capability-available_iff
      (capability_context db env snap.decision row.event 500) live_comparison

policy_for_event-capability_iff_example : ((capability snap trend_advice).state ≡ available) ↔ (
    ((is_enforce snap.mode ≡ false) ⊎ (allows snap.decision trend_advice ≡ true))
    × ((snap.rights trend_advice).state ≡ available))
policy_for_event-capability_iff_example =
    policy_for_event-capability_iff words db env row 500 none trend_advice snap snapshot_runs.0

abbrev shadowed : PolicySnapshot
shadowed = record snap { mode = shadow }

abbrev logged : List AuditRow
logged = refusal_row shadowed trend_advice "event" "e1" 100000000 ∷ []

gate_logs_once_example :
    (gate (some shadowed) trend_advice "event" "e1" 100000000 [] ≡ (logged, true))
    × (gate (some shadowed) trend_advice "event" "e1" 100000500 logged ≡ (logged, true))
unfolding rules
gate_logs_once_example =
    gate_logs_once shadowed trend_advice "event" "e1" 100000000 100000500 [] refl snapshot_runs.3
      refl (omega arith)
