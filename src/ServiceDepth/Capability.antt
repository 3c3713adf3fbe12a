-- ===== src/ServiceDepth/Capability.antt =====
-- src/lib/domain/service-depth.ts: evaluateOperationCapability, whether an operation can run now,
-- by business policy and by rights, configuration and coverage.
use ticketguy.Prelude.{
  ℕ, String, Bool, true, false, not, ◌&&◌, ◌||◌, Option, none, some, List, [], ◌∷◌, map, str_eq,
  if◌then◌else◌, contains, any, keep,
}
use ticketguy.ServiceDepth.{
  ServiceDepth, outside, guide, compare, core, Operation, live_comparison, historical_context,
  trend_advice, market_tracking, price_watch, ReasonCode, ServicePolicyDecision,
}
use ticketguy.ServiceDepth.Policy.{allows}

pub data CapabilityState : Type 0 where
  available unavailable not_known : CapabilityState

pub record EventCapabilityDecision : Type 0 where
  pub operation : Operation
  pub state : CapabilityState
  pub source_ids : List String
  pub reasons : List ReasonCode
  pub evaluated_at : ℕ
  pub expires_at : Option ℕ

abbrev pub market_watch_source : String
market_watch_source = "seatdata"

unfoldable pub is_market_watch : List String → Bool
is_market_watch (id ∷ []) = str_eq id market_watch_source
is_market_watch _ = false

pub record AdapterFacts : Type 0 where
  pub source_id : String
  pub implementation : String
  pub enabled : Bool
  pub capabilities : List String
  pub monitoring_allowed : Bool
  pub access_approved : Bool

pub record LicenceFacts : Type 0 where
  pub tracking : Bool
  pub benchmark : Bool
  pub advice : Bool

pub record MarketFacts : Type 0 where
  pub alerts : Bool
  pub covered : Bool

pub record CapabilityContext : Type 0 where
  pub decision : ServicePolicyDecision
  pub adapters : List AdapterFacts
  pub covered_source_ids : List String
  pub licence : LicenceFacts
  pub market_key : Bool
  pub watch_send_enabled : Bool
  pub market : Option MarketFacts
  pub now : ℕ

abbrev pub denied_by_depth : ServiceDepth → ReasonCode
denied_by_depth outside = ReasonCode.outside_product
denied_by_depth guide = ReasonCode.guide_official_only
denied_by_depth compare = ReasonCode.compare_no_tracking
denied_by_depth core = ReasonCode.policy_changed

abbrev is_operator_blocked : ReasonCode → Bool
is_operator_blocked ReasonCode.operator_blocked = true
is_operator_blocked _ = false

abbrev is_non_us_event : ReasonCode → Bool
is_non_us_event ReasonCode.non_us_event = true
is_non_us_event _ = false

abbrev denial : ServicePolicyDecision → ReasonCode
denial d =
    if any is_operator_blocked d.reasons
    then ReasonCode.operator_blocked
    else if any is_non_us_event d.reasons
    then ReasonCode.non_us_event
    else denied_by_depth d.depth

module _ (ctx : CapabilityContext) (operation : Operation) where
  abbrev pub out : CapabilityState → List ReasonCode → List String → EventCapabilityDecision
  out state reasons source_ids = record {
    operation = operation;
    state = state;
    source_ids = source_ids;
    reasons = reasons;
    evaluated_at = ctx.now;
    expires_at = none;
  }

  abbrev pub can_run : List String → EventCapabilityDecision
  can_run source_ids = out available [] source_ids

  abbrev pub cannot_run : ReasonCode → EventCapabilityDecision
  cannot_run reason = out unavailable (reason ∷ []) []

abbrev pub is_usable : String → AdapterFacts → Bool
is_usable need a = a.enabled && (a.access_approved && contains need a.capabilities)

abbrev pub is_monitor : AdapterFacts → Bool
is_monitor a = is_usable "monitoring" a && a.monitoring_allowed

abbrev pub is_covered : CapabilityContext → AdapterFacts → Bool
is_covered ctx a = contains a.source_id ctx.covered_source_ids

abbrev pub ids_of : List AdapterFacts → List String
ids_of = map (λ (a : AdapterFacts). a.source_id)

abbrev pub is_empty {ℓ} : {A : Type ℓ} → List A → Bool
is_empty [] = true
is_empty (x ∷ xs) = false

unfoldable pub compare_capability : CapabilityContext → EventCapabilityDecision
compare_capability ctx =
    let integrated = keep (is_usable "quote_search") ctx.adapters in
    let covered = keep (is_covered ctx) integrated in
    if is_empty integrated
    then cannot_run ctx live_comparison ReasonCode.source_not_integrated
    else if is_empty covered
    then cannot_run ctx live_comparison ReasonCode.event_not_covered
    else can_run ctx live_comparison (ids_of covered)

-- `ctx.market?.alerts`
abbrev pub has_alerts : Option MarketFacts → Bool
has_alerts none = false
has_alerts (some m) = m.alerts

abbrev pub is_followed : Option MarketFacts → Bool
is_followed none = false
is_followed (some m) = m.covered

unfoldable pub watch_capability : CapabilityContext → EventCapabilityDecision
watch_capability ctx =
    let monitors = keep is_monitor ctx.adapters in
    let covered = keep (is_covered ctx) monitors in
    if not ctx.watch_send_enabled
    then cannot_run ctx price_watch ReasonCode.delivery_disabled
    else if not (is_empty covered)
    then can_run ctx price_watch (ids_of covered)
    else if ctx.market_key && has_alerts ctx.market
    then (if is_followed ctx.market
        then can_run ctx price_watch (market_watch_source ∷ [])
        else cannot_run ctx price_watch ReasonCode.event_not_covered)
    else if is_empty monitors
    then cannot_run ctx price_watch ReasonCode.monitoring_unavailable
    else cannot_run ctx price_watch ReasonCode.event_not_covered

unfoldable pub rights_of : CapabilityContext → Operation → EventCapabilityDecision
rights_of ctx live_comparison = compare_capability ctx
rights_of ctx historical_context =
    if ctx.licence.benchmark
    then can_run ctx historical_context []
    else cannot_run ctx historical_context ReasonCode.history_use_unapproved
rights_of ctx trend_advice =
    if ctx.licence.advice || ctx.licence.tracking
    then can_run ctx trend_advice []
    else cannot_run ctx trend_advice ReasonCode.history_use_unapproved
rights_of ctx market_tracking =
    if not ctx.market_key
    then cannot_run ctx market_tracking ReasonCode.source_not_integrated
    else if ctx.licence.tracking
    then can_run ctx market_tracking []
    else cannot_run ctx market_tracking ReasonCode.history_use_unapproved
rights_of ctx price_watch = watch_capability ctx
rights_of ctx operation = can_run ctx operation []

unfoldable pub evaluate_operation_capability :
    CapabilityContext → Operation → EventCapabilityDecision
evaluate_operation_capability ctx operation =
    if not (allows ctx.decision operation)
    then cannot_run ctx operation (denial ctx.decision)
    else rights_of ctx operation
