-- ===== src/Rollout.antt =====
-- src/lib/intake/reconcile-service-depth.ts: what enforcing the service policy changes in the work
-- that exists. A dry run lists the actions; with `apply` they are carried out. The queries on other
-- tables (the entities that are followed, the open requests, an event's row) and the wording of a
-- reason are the record Reads; a draft has the columns of its request and its advice run that are read.

pub mod Apply
pub mod Covers
pub mod Eligible
mod Tests
use ticketguy.Prelude.{
  ℕ, ◌+◌, String, Bool, true, false, not, ◌&&◌, ◌||◌, Option, none, some, List, [], ◌∷◌, ◌++◌, map,
  str_eq, ◌==◌, if◌then◌else◌, contains, any, find, keep, is_some,
}
use ticketguy.Prelude.Pushes.{push_if}
use ticketguy.Prelude.Tables.{update_where}
use ticketguy.SendIntents.{SendIntent, IntentState, queued, blocked}
use ticketguy.ServiceDepth.{
  ServiceDepth, Operation, ReasonCode, live_comparison, historical_context, trend_advice,
  price_watch, market_tracking, Words,
}
use ticketguy.ServiceDepth.Policy.{same_operation, allows}
use ticketguy.ServiceDepth.Capability.{
  CapabilityState, available, unavailable, not_known, EventCapabilityDecision,
}
use ticketguy.ServiceDepth.Snapshot.{
  PolicySnapshot, enforce, PolicyTables, PolicyEnv, EventRows, TrackedRow, policy_for_event,
}
use ticketguy.ServiceDepth.Gate.{gate}
use ticketguy.Tracker.Rows.{
  TrackState, pending_match, requested, unmatched, ended, is_open, Tracked,
}

pub data ActionKind : Type 0 where
  tracked_event watch watch_alert recommendation : ActionKind

pub data Verdict : Type 0 where
  keeps pauses invalidates : Verdict

pub data Reason : Type 0 where
  valid : List String → Reason
  no_valid_reason event_missing eligible claims_allowed : Reason
  policy : ServiceDepth → Reason
  capability : ReasonCode → Reason
  policy_changed : List Operation → Reason

pub record Action : Type 0 where
  pub kind : ActionKind
  pub id : String
  pub verdict : Verdict
  pub reason : Reason

pub data WatchState : Type 0 where
  active paused cancelled expired fulfilled : WatchState

pub record Watch : Type 0 where
  pub id : String
  pub event_id : String
  pub state : WatchState
  pub pause_reason : Option String
  pub generation : ℕ

pub data Approval : Type 0 where
  pending approved rejected invalidated sent : Approval

pub record WatchAlert : Type 0 where
  pub id : String
  pub watch_id : String
  pub approval_state : Approval
  pub send_intent_id : Option String

pub record Draft : Type 0 where
  pub id : String
  pub event_id : Option String
  pub claim_kinds : List String
  pub review_status : Approval
  pub review_note : Option String

pub record ReconcileAudit : Type 0 where
  pub actor : String
  pub verdict : Verdict
  pub kind : ActionKind
  pub entity_id : String
  pub reason : Reason

pub record Work : Type 0 where
  pub tracked : List Tracked
  pub watches : List Watch
  pub alerts : List WatchAlert
  pub drafts : List Draft
  pub intents : List SendIntent
  pub audit_log : List ReconcileAudit

pub record Reads : Type 0 where
  pub words : Words
  pub tables : PolicyTables
  pub env : PolicyEnv
  pub event_rows : String → Option EventRows
  pub in_cohort : String → Bool
  pub has_open_request : String → Bool
  pub text_of : Reason → String
  pub now : ℕ

abbrev state_text : TrackState → String
state_text pending_match = "pending_match"
state_text requested = "requested"
state_text TrackState.active = "active"
state_text unmatched = "unmatched"
state_text ended = "ended"
state_text TrackState.paused = "paused"

abbrev tracked_row : Tracked → TrackedRow
tracked_row r = record {
  event_id = r.event_id;
  provider = r.provider;
  state = state_text r.state;
  provider_event_id = r.provider_event_id;
}

-- `policyForEvent` of an event, as enforce would judge it
unfoldable pub snapshot_for : Reads → Work → String → Option PolicySnapshot
unfolding policy_for_event
snapshot_for r w event =
    policy_for_event r.words (record r.tables { tracked_events = map tracked_row w.tracked })
      (record r.env { service_policy_mode = enforce }) (r.event_rows event) r.now none

-- `validReasons` of the tracker; under enforce the gate leaves no row
unfoldable pub valid_reasons : Reads → Work → Tracked → List String
unfolding gate
valid_reasons r w row =
    push_if (contains "cohort" row.reasons && r.in_cohort row.event_id) "cohort"
    ++ push_if
        (contains "request" row.reasons
          && (r.has_open_request row.event_id
              && (gate (snapshot_for r w row.event_id) market_tracking "event" row.event_id r.now
                  []).1))
        "request"

abbrev pub tracked_action : String → List String → Action
tracked_action id [] = record {
  kind = tracked_event;
  id = id;
  verdict = pauses;
  reason = no_valid_reason;
}
tracked_action id (x ∷ xs) = record {
  kind = tracked_event;
  id = id;
  verdict = keeps;
  reason = valid (x ∷ xs);
}

unfoldable pub plan_tracked : Reads → Work → List Tracked → List Action
unfolding valid_reasons snapshot_for
plan_tracked r w [] = []
plan_tracked r w (row ∷ rows) =
    let rest = plan_tracked r w rows in
    if is_open row.state then tracked_action row.id (valid_reasons r w row) ∷ rest else rest

abbrev pub is_available : CapabilityState → Bool
is_available available = true
is_available unavailable = false
is_available not_known = false

abbrev first_reason : List ReasonCode → ReasonCode
first_reason [] = ReasonCode.monitoring_unavailable
first_reason (x ∷ xs) = x

-- why a watch may not go on, or none when it may
abbrev pub watch_refusal : Option PolicySnapshot → Option Reason
watch_refusal none = some event_missing
watch_refusal (some snap) =
    if not (allows snap.decision price_watch)
    then some (policy snap.decision.depth)
    else if not (is_available (snap.capabilities price_watch).state)
    then some (capability (first_reason (snap.capabilities price_watch).reasons))
    else none

abbrev pub is_watching : WatchState → Bool
is_watching active = true
is_watching _ = false

abbrev pub is_pending : Approval → Bool
is_pending pending = true
is_pending _ = false

abbrev pub is_pending_of : String → WatchAlert → Bool
is_pending_of id a = str_eq a.watch_id id && is_pending a.approval_state

abbrev pub invalidate_alert : Reason → WatchAlert → Action
invalidate_alert reason a = record {
  kind = watch_alert;
  id = a.id;
  verdict = invalidates;
  reason = reason;
}

abbrev pub watch_actions : List WatchAlert → String → Option Reason → List Action
watch_actions alerts id none =
    record { kind = watch; id = id; verdict = keeps; reason = eligible } ∷ []
watch_actions alerts id (some reason) =
    record { kind = watch; id = id; verdict = pauses; reason = reason }
    ∷ map (invalidate_alert reason) (keep (is_pending_of id) alerts)

unfoldable pub plan_watches : Reads → Work → List Watch → List Action
unfolding snapshot_for
plan_watches r w [] = []
plan_watches r w (x ∷ xs) =
    let rest = plan_watches r w xs in
    if is_watching x.state
    then watch_actions w.alerts x.id (watch_refusal (snapshot_for r w x.event_id)) ++ rest
    else rest

-- `CLAIM_OPERATION`
abbrev claim_operations : List (String × Operation)
claim_operations =
    ("current_offer", live_comparison)
    ∷ ("alternative_offer", live_comparison)
    ∷ ("option_count", live_comparison)
    ∷ ("benchmark_range", historical_context)
    ∷ ("trend_change", trend_advice)
    ∷ ("market_price", historical_context)
    ∷ ("market_benchmark", historical_context)
    ∷ ("market_supply", historical_context)
    ∷ ("market_read", trend_advice)
    ∷ ("alternative_market", live_comparison)
    ∷ ("checkpoint", price_watch)
    ∷ []

abbrev operation_in : String → List (String × Operation) → Option Operation
operation_in kind [] = none
operation_in kind ((k, op) ∷ rest) = if str_eq k kind then some op else operation_in kind rest

-- the operations of the kinds, the first occurrence of each
abbrev add_operation : Option Operation → List Operation → List Operation
add_operation none ops = ops
add_operation (some op) ops = op ∷ keep (λ o. not (same_operation o op)) ops

unfoldable pub operations_for_claims : List String → List Operation
operations_for_claims [] = []
operations_for_claims (kind ∷ kinds) =
    add_operation (operation_in kind claim_operations) (operations_for_claims kinds)

unfoldable pub lost_operations : Option PolicySnapshot → List String → List Operation
unfolding operations_for_claims
lost_operations none kinds = []
lost_operations (some snap) kinds =
    keep (λ op. not (allows snap.decision op)) (operations_for_claims kinds)

abbrev pub draft_action : String → List Operation → Action
draft_action id [] = record {
  kind = recommendation;
  id = id;
  verdict = keeps;
  reason = claims_allowed;
}
draft_action id (op ∷ ops) = record {
  kind = recommendation;
  id = id;
  verdict = invalidates;
  reason = policy_changed (op ∷ ops);
}

abbrev pub draft_actions : Reads → Work → Draft → Option String → List Action
draft_actions r w d none = []
draft_actions r w d (some event) =
    draft_action d.id (lost_operations (snapshot_for r w event) d.claim_kinds) ∷ []

unfoldable pub plan_drafts : Reads → Work → List Draft → List Action
unfolding snapshot_for lost_operations
plan_drafts r w [] = []
plan_drafts r w (d ∷ ds) =
    let rest = plan_drafts r w ds in
    if is_pending d.review_status then draft_actions r w d d.event_id ++ rest else rest

unfoldable pub plan : Reads → Work → List Action
unfolding plan_tracked plan_watches plan_drafts
plan r w = plan_tracked r w w.tracked ++ (plan_watches r w w.watches ++ plan_drafts r w w.drafts)
