-- ===== src/Rollout/Tests.antt =====
-- src/lib/intake/reconcile-service-depth.ts: a sweep, and its theorem at a concrete input.
use ticketguy.Prelude.{◌≡◌, refl, true, false, none, some, [], ◌∷◌, str_eq, if◌then◌else◌, length}
use ticketguy.Prelude.Tables.{update_where}
use ticketguy.ServiceDepth.{event_format, policy_category, rule_of}
use ticketguy.ServiceDepth.Policy.{
  depth_for, resolve_category, resolve_for, resolve_service_policy, allows,
}
use ticketguy.ServiceDepth.Capability.{
  compare_capability, watch_capability, rights_of, evaluate_operation_capability,
}
use ticketguy.ServiceDepth.Snapshot.{
  shadow, EventRows, adapter_facts, covered_source_ids, licence_facts, capability_context,
  capabilities_for, decision_for_event, snapshot_of, policy_for_event,
}
use ticketguy.ServiceDepth.Gate.{gate}
use ticketguy.Tracker.Rows.{Tracked, new_tracked, paused}
use ticketguy.Rollout.{
  WatchState, Watch, pending, invalidated, WatchAlert, Draft, Work, Reads, snapshot_for,
  valid_reasons, plan_tracked, plan_watches, operations_for_claims, lost_operations, plan_drafts,
  plan,
}
use ticketguy.Rollout.Apply.{pause_watch, act, act_all, reconcile_service_depth}
use ticketguy.Rollout.Eligible.{IsEligible, reconcile_service_depth-IsEligible}

rules : Unit {0}
unfolding event_format policy_category rule_of depth_for resolve_category resolve_for
    resolve_service_policy allows compare_capability watch_capability rights_of
    evaluate_operation_capability adapter_facts covered_source_ids licence_facts capability_context
    capabilities_for decision_for_event snapshot_of policy_for_event gate snapshot_for valid_reasons
    plan_tracked plan_watches operations_for_claims lost_operations plan_drafts plan update_where
    pause_watch act act_all reconcile_service_depth
rules = tt

abbrev row : EventRows
row = record {
  event = record { id = "e1"; is_fixture = false };
  category = "theme_parks";
  name = "Day ticket";
  venue_name = "Park";
  venue_country = "US";
  entity_slug = none;
}

abbrev reads : Reads
reads = record {
  words = record {
    large_venue = λ v. false;
    theater_venue = λ v. false;
    club_venue = λ v. false;
    club_event = λ v. false;
    local_event = λ v. false;
    says_festival = λ v. false;
  };
  tables = record {
    adapter_configs = [];
    event_source_mappings = [];
    market_datasets = [];
    tracked_events = [];
  };
  env = record {
    seatdata_api_key = none;
    watch_send_enabled = false;
    test_recipient_allowlist = [];
    service_policy_mode = shadow;
    blocked_categories = [];
    service_depth_overrides = [];
  };
  event_rows = λ id. if str_eq id "e1" then some row else none;
  in_cohort = λ id. str_eq id "e2";
  has_open_request = λ id. str_eq id "e1";
  text_of = λ r. "policy";
  now = 100;
}

abbrev guided : Tracked
guided = new_tracked "t1" "e1" ("request" ∷ []) 10

abbrev cohort : Tracked
cohort = new_tracked "t2" "e2" ("cohort" ∷ []) 10

abbrev a_watch : Watch
a_watch = record {
  id = "w";
  event_id = "e1";
  state = WatchState.active;
  pause_reason = none;
  generation = 1;
}

abbrev an_alert : WatchAlert
an_alert = record { id = "a"; watch_id = "w"; approval_state = pending; send_intent_id = none }

abbrev a_draft : Draft
a_draft = record {
  id = "d";
  event_id = some "e1";
  claim_kinds = "current_offer" ∷ "checkpoint" ∷ [];
  review_status = pending;
  review_note = none;
}

abbrev work : Work
work = record {
  tracked = guided ∷ cohort ∷ [];
  watches = a_watch ∷ [];
  alerts = an_alert ∷ [];
  drafts = a_draft ∷ [];
  intents = [];
  audit_log = [];
}

abbrev swept : Work
swept = (reconcile_service_depth reads true work).0

sweep_runs :
    (swept.tracked ≡ (record guided { state = paused; pause_reason = some "policy" }) ∷ cohort ∷ [])
    × (swept.watches
        ≡ (record a_watch {
          state = WatchState.paused;
          pause_reason = some "policy";
          generation = 2;
        })
          ∷ [])
    × (swept.alerts ≡ (record an_alert { approval_state = invalidated }) ∷ [])
    × (swept.drafts
        ≡ (record a_draft { review_status = invalidated; review_note = some "policy" }) ∷ [])
    × (length swept.audit_log ≡ 4)
    × ((reconcile_service_depth reads false work).0 ≡ work)
unfolding rules
sweep_runs = (refl, refl, refl, refl, refl, refl)

reconcile_service_depth-IsEligible_example : IsEligible reads work swept
reconcile_service_depth-IsEligible_example = reconcile_service_depth-IsEligible reads work
