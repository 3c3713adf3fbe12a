-- ===== src/ServiceDepth/Snapshot.antt =====
-- src/lib/intake/service-policy.ts: the policy read against the tables, and the gate that each
-- worker asks. A table is a list of its rows, each with the columns that are read.
use ticketguy.Prelude.{
  ℕ, String, Bool, true, false, not, ◌&&◌, ◌||◌, Option, none, some, List, [], ◌∷◌, ◌++◌, map,
  str_eq, ltb, if◌then◌else◌, contains, any, keep, find, length, is_some,
}
use ticketguy.Reconcile.{unique}
use ticketguy.ServiceDepth.{Operation, operations, Words, ServicePolicyDecision, event_format}
use ticketguy.ServiceDepth.Policy.{DepthOverride, resolve_service_policy}
use ticketguy.ServiceDepth.Capability.{
  EventCapabilityDecision, AdapterFacts, CapabilityContext, evaluate_operation_capability,
}

pub data PolicyMode : Type 0 where
  off shadow enforce : PolicyMode

-- the two records are functions from the operations
pub record PolicySnapshot : Type 0 where
  pub mode : PolicyMode
  pub decision : ServicePolicyDecision
  pub capabilities : Operation → EventCapabilityDecision
  pub rights : Operation → EventCapabilityDecision

abbrev pub is_enforce : PolicyMode → Bool
is_enforce enforce = true
is_enforce _ = false

unfoldable pub capability : PolicySnapshot → Operation → EventCapabilityDecision
capability snap op = if is_enforce snap.mode then snap.capabilities op else snap.rights op

pub record AdapterConfig : Type 0 where
  pub source_id : String
  pub implementation : String
  pub enabled : Bool
  pub capabilities : List String
  pub monitoring_allowed : Bool
  pub access_approval_evidence : Option String

abbrev implementation_capabilities : String → List String
implementation_capabilities implementation =
    if str_eq implementation "manual"
    then "quote_search" ∷ "quote_revalidation" ∷ []
    else if str_eq implementation "fixture"
    then "event_lookup" ∷ "quote_search" ∷ "quote_revalidation" ∷ "monitoring" ∷ []
    else if str_eq implementation "ticketmaster_discovery"
    then "discovery" ∷ "event_lookup" ∷ []
    else []

-- `!!text`
abbrev is_given : Option String → Bool
is_given none = false
is_given (some t) = not (str_eq t "")

abbrev capabilities_or : List String → List String → List String
capabilities_or [] others = others
capabilities_or (c ∷ cs) others = c ∷ cs

unfoldable pub adapter_facts : List AdapterConfig → List AdapterFacts
adapter_facts = map (λ (c : AdapterConfig). record {
  source_id = c.source_id;
  implementation = c.implementation;
  enabled = c.enabled;
  capabilities = capabilities_or c.capabilities (implementation_capabilities c.implementation);
  monitoring_allowed = c.monitoring_allowed;
  access_approved = is_given c.access_approval_evidence;
})

pub record SourceMapping : Type 0 where
  pub event_id : String
  pub source_id : String

pub record PolicyEvent : Type 0 where
  pub id : String
  pub is_fixture : Bool

unfoldable pub covered_source_ids :
    List SourceMapping → PolicyEvent → List AdapterFacts → List String
covered_source_ids mappings event adapters =
    let mapped =
      map (λ (m : SourceMapping). m.source_id)
        (keep (λ (m : SourceMapping). str_eq m.event_id event.id) mappings) in
    let fixtures =
      if event.is_fixture
      then map (λ (a : AdapterFacts). a.source_id)
          (keep (λ (a : AdapterFacts). str_eq a.implementation "fixture") adapters)
      else [] in
    unique (mapped ++ fixtures)

pub record MarketDataset : Type 0 where
  pub id : String
  pub status : String
  pub approved_uses : List String
  pub raw_retention_until : Option ℕ

abbrev pub seatdata_dataset_id : String
seatdata_dataset_id = "5ea7da7a-0000-4000-8000-000000000001"

-- `!until || until > now`
abbrev pub is_retained : ℕ → Option ℕ → Bool
is_retained now none = true
is_retained now (some until) = ltb now until

abbrev pub is_live : ℕ → MarketDataset → Bool
is_live now r = str_eq r.status "approved" && is_retained now r.raw_retention_until

abbrev uses_of : ℕ → Option MarketDataset → List String
uses_of now none = []
uses_of now (some seat) = if is_live now seat then seat.approved_uses else []

pub record Licence : Type 0 where
  pub tracking : Bool
  pub benchmark : Bool
  pub advice : Bool
  pub alerts : Bool

unfoldable pub licence_facts : ℕ → List MarketDataset → Licence
licence_facts now rows =
    let seat_uses = uses_of now (find (λ r. str_eq r.id seatdata_dataset_id) rows) in
    record {
      tracking = contains "tracking" seat_uses;
      benchmark = any (λ r. is_live now r && contains "benchmark" r.approved_uses) rows;
      advice = contains "advice" seat_uses;
      alerts = contains "alerts" seat_uses;
    }

pub record TrackedRow : Type 0 where
  pub event_id : String
  pub provider : String
  pub state : String
  pub provider_event_id : Option String

pub record PolicyEnv : Type 0 where
  pub seatdata_api_key : Option String
  pub watch_send_enabled : Bool
  pub test_recipient_allowlist : List String
  pub service_policy_mode : PolicyMode
  pub blocked_categories : List String
  pub service_depth_overrides : List DepthOverride

pub record PolicyTables : Type 0 where
  pub adapter_configs : List AdapterConfig
  pub event_source_mappings : List SourceMapping
  pub market_datasets : List MarketDataset
  pub tracked_events : List TrackedRow

abbrev is_followed_row : String → TrackedRow → Bool
is_followed_row event r =
    str_eq r.event_id event
    && (str_eq r.provider "seatdata" && (str_eq r.state "active" && is_some r.provider_event_id))

unfoldable pub capability_context :
    PolicyTables → PolicyEnv → ServicePolicyDecision → PolicyEvent → ℕ → CapabilityContext
unfolding adapter_facts licence_facts covered_source_ids
capability_context db env decision event now =
    let adapters = adapter_facts db.adapter_configs in
    let licence = licence_facts now db.market_datasets in
    let alerts =
      licence.tracking && (licence.alerts || ltb 0 (length env.test_recipient_allowlist)) in
    record {
      decision = decision;
      adapters = adapters;
      covered_source_ids = covered_source_ids db.event_source_mappings event adapters;
      licence = record {
        tracking = licence.tracking;
        benchmark = licence.benchmark;
        advice = licence.advice;
      };
      market_key = is_given env.seatdata_api_key;
      watch_send_enabled = env.watch_send_enabled;
      market = some (record {
        alerts = alerts;
        covered = alerts && any (is_followed_row event.id) db.tracked_events;
      });
      now = now;
    }

-- `capabilitiesFor`: the decision as it is, and with every operation permitted
unfoldable pub capabilities_for :
    PolicyTables
    → PolicyEnv
    → ServicePolicyDecision
    → PolicyEvent
    → ℕ
    → (Operation → EventCapabilityDecision) × (Operation → EventCapabilityDecision)
capabilities_for db env decision event now =
    let ctx = capability_context db env decision event now in
    (
      evaluate_operation_capability ctx,
      evaluate_operation_capability
          (record ctx { decision = record decision { allowed_operations = operations } }),
    )

pub record EventRows : Type 0 where
  pub event : PolicyEvent
  pub category : String
  pub name : String
  pub venue_name : String
  pub venue_country : String
  pub entity_slug : Option String

unfoldable pub decision_for_event :
    Words → PolicyEnv → EventRows → ℕ → Option String → ServicePolicyDecision
unfolding event_format
decision_for_event words env row now outside_intent = resolve_service_policy (record {
  category = some row.category;
  format = some (event_format words row.category row.name (some row.venue_name));
  outside_intent = outside_intent;
  event_id = some row.event.id;
  entity_slug = row.entity_slug;
  country = some row.venue_country;
  blocked_categories = env.blocked_categories;
  overrides = env.service_depth_overrides;
  now = now;
})

unfoldable pub snapshot_of :
    Words → PolicyTables → PolicyEnv → EventRows → ℕ → Option String → PolicySnapshot
unfolding decision_for_event capabilities_for
snapshot_of words db env row now outside_intent =
    let decision = decision_for_event words env row now outside_intent in
    let both = capabilities_for db env decision row.event now in
    record {
      mode = env.service_policy_mode;
      decision = decision;
      capabilities = both.0;
      rights = both.1;
    }

-- `policyForEvent`, given the joined row that `loadEventRows` finds
unfoldable pub policy_for_event :
    Words → PolicyTables → PolicyEnv → Option EventRows → ℕ → Option String → Option PolicySnapshot
policy_for_event words db env none now outside_intent = none
policy_for_event words db env (some row) now outside_intent =
    some (snapshot_of words db env row now outside_intent)
