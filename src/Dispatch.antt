-- ===== src/Dispatch.antt =====
-- src/lib/intake/pipeline.ts, `dispatchSend`: claim an intent, pass the gate, submit it to the
-- provider, and record what happened to it. What the method reads from other tables for the gate
-- (the current revision, the approval, the evidence, the policy and the event) is the argument
-- `Facts`; of what it writes, the rows of send_intents are modelled.
pub mod Sending
pub mod Window
mod Tests
use ticketguy.Prelude.{
  ℕ, String, Bool, true, false, not, ◌&&◌, ◌||◌, Option, none, some, List, [], ◌∷◌, ◌++◌, str_eq,
  map, if◌then◌else◌, find, all, is_some,
}
use Prim.Native.String
use mathlib.Core.Option
use ticketguy.Prelude.Pushes.{push_if}
use ticketguy.Prelude.Tables.{update_where}
use ticketguy.SendGate.{
  Env, Switches, SuppressionScope, MessageClass, watch_alert, marketing, GateInput, GateReason,
  suppressed_marketing, suppressed_watch, suppressed_global, app_mode_fixture, email_send_disabled,
  content_contains_fixture_data, kill_switch_all_outbound, kill_switch_recommendations,
  kill_switch_marketing, kill_switch_watches, kill_switch_follow_ups, marketing_send_disabled,
  no_marketing_permission, watch_send_disabled, event_alerts_disabled, follow_up_disabled,
  recipient_not_in_test_allowlist, not_approved, approval_hash_mismatch, revision_stale,
  evidence_stale, gate_reasons,
}
use ticketguy.SendIntents.{
  SendIntent, SendIntents, SendIntentInput, IntentState, uncertain, queued, Claim, to_blocked,
  to_suppressed, to_uncertain, claim_send_intent, release_claim, record_provider_accepted, has_id,
  RetryDecision, retry_same_key, manual_reconciliation, uncertain_retry_decision,
}

pub data DispatchReason : Type 0 where
  gate : GateReason → DispatchReason
  policy_changed recommendation_expired no_email_provider_configured : DispatchReason
  event_changed : String → DispatchReason

pub data DispatchOutcome : Type 0 where
  sent uncertain_outcome already_handled needs_reconciliation : DispatchOutcome
  held : List DispatchReason → DispatchOutcome
  opted_out : List DispatchReason → DispatchOutcome

-- What the provider answers to a submission: its message id, or an exception with its text.
pub data ProviderReply : Type 0 where
  accepted : String → ProviderReply
  throws : String → ProviderReply

-- The call `provider.send`: the idempotency key and the payload.
pub record Submission : Type 0 where
  pub idempotency_key : String
  pub from : String
  pub to : String
  pub subject : String
  pub text : String
  pub html : String
  pub headers : List (String × String)

abbrev pub submission_of : SendIntentInput → Submission
submission_of i = record {
  idempotency_key = i.dedupe_key;
  from = i.from_address;
  to = i.recipient;
  subject = i.subject;
  text = i.body_text;
  html = i.body_html;
  headers = i.headers;
}

-- What is read at the moment of sending, besides the intent. The suppressions are those of an
-- address, and what the approval's rows say counts only where the intent has an approval.
pub record Facts : Type 0 where
  pub env : Env
  pub switches : Switches
  pub normalize_email_lookup : String → String
  pub suppressed : String → List SuppressionScope
  -- the revision of the request is the intent's
  pub revision_current : Bool
  -- the alert and its watch, or the recommendation, stand approved
  pub approval_stands : Bool
  pub draft_hash : Option String
  pub evidence_fresh : Bool
  pub evidence_is_fixture : Bool
  pub permission_granted : Bool
  pub policy_ok : Bool
  pub event_change : Option String
  pub draft_expired : Bool
  -- the provider step is replaced by a recorded capture
  pub capture : Bool
  pub captured_id : String
  pub captured_rfc_id : String
  -- null when no provider is configured; otherwise the answer that it would give
  pub provider : Option ProviderReply

abbrev is_watch_alert : MessageClass → Bool
is_watch_alert watch_alert = true
is_watch_alert _ = false

abbrev is_marketing : MessageClass → Bool
is_marketing marketing = true
is_marketing _ = false

abbrev pub has_request : SendIntentInput → Bool
has_request i = is_some i.request_id && is_some i.request_revision

-- the approval whose rows are read
abbrev pub has_approval : SendIntentInput → Bool
has_approval i = has_request i && is_some i.approval_id

abbrev pub has_draft : SendIntentInput → Bool
has_draft i = has_approval i && not (is_watch_alert i.message_class)

-- `headers['X-TicketGuy-Fixture'] === 'true'`
abbrev pub fixture_header : List (String × String) → Bool
fixture_header [] = false
fixture_header ((name, value) ∷ rest) =
    if str_eq name "X-TicketGuy-Fixture" then str_eq value "true" else fixture_header rest

-- `rec?.draftHash === intent.approvedHash`
abbrev pub same_hash : Option String → Option String → Bool
same_hash (some a) (some b) = str_eq a b
same_hash _ _ = false

-- the argument of `evaluateGate`
unfoldable pub gate_input : Facts → SendIntentInput → GateInput
gate_input f i = record {
  message_class = i.message_class;
  recipient_lookup = f.normalize_email_lookup i.recipient;
  contains_fixture_data = fixture_header i.headers || (has_approval i && f.evidence_is_fixture);
  approved = if has_approval i then f.approval_stands else is_some i.approval_id;
  approval_hash_matches = not (has_draft i) || same_hash f.draft_hash i.approved_hash;
  revision_current = not (has_request i) || f.revision_current;
  evidence_fresh = not (has_approval i) || f.evidence_fresh;
  marketing_permission =
      is_marketing i.message_class && (is_some i.contact_id && f.permission_granted);
  test_mode = f.capture;
}

abbrev pub scopes_for : Facts → SendIntentInput → List SuppressionScope
scopes_for f i = f.suppressed (f.normalize_email_lookup i.recipient)

abbrev pub gate_says : Facts → SendIntentInput → List GateReason
gate_says f i = gate_reasons f.env f.switches (scopes_for f i) (gate_input f i)

abbrev pub policy_holds : Facts → SendIntentInput → Bool
policy_holds f i = not (has_approval i) || f.policy_ok

abbrev pub change_of : Facts → SendIntentInput → Option String
change_of f i = if has_approval i then f.event_change else none

-- not on a retry of a send that the provider may have accepted
abbrev pub is_expired : Facts → SendIntentInput → Bool → Bool
is_expired f i retrying = has_draft i && (f.approval_stands && (not retrying && f.draft_expired))

abbrev pub changed_reasons : Option String → List DispatchReason
changed_reasons none = []
changed_reasons (some change) = event_changed change ∷ []

-- the reasons of the gate, then the dispatcher's own
unfoldable pub all_reasons : Facts → SendIntentInput → Bool → List DispatchReason
unfolding gate_input
all_reasons f i retrying =
    map gate (gate_says f i)
    ++ (push_if (not (policy_holds f i)) policy_changed
        ++ (changed_reasons (change_of f i)
            ++ push_if (is_expired f i retrying) recommendation_expired))

abbrev pub gate_text : GateReason → String
gate_text app_mode_fixture = "app_mode_fixture"
gate_text email_send_disabled = "email_send_disabled"
gate_text content_contains_fixture_data = "content_contains_fixture_data"
gate_text kill_switch_all_outbound = "kill_switch_all_outbound"
gate_text kill_switch_recommendations = "kill_switch_recommendations"
gate_text kill_switch_marketing = "kill_switch_marketing"
gate_text kill_switch_watches = "kill_switch_watches"
gate_text kill_switch_follow_ups = "kill_switch_follow_ups"
gate_text marketing_send_disabled = "marketing_send_disabled"
gate_text no_marketing_permission = "no_marketing_permission"
gate_text suppressed_marketing = "suppressed_marketing"
gate_text watch_send_disabled = "watch_send_disabled"
gate_text suppressed_watch = "suppressed_watch"
gate_text event_alerts_disabled = "event_alerts_disabled"
gate_text follow_up_disabled = "follow_up_disabled"
gate_text suppressed_global = "suppressed_global"
gate_text recipient_not_in_test_allowlist = "recipient_not_in_test_allowlist"
gate_text not_approved = "not_approved"
gate_text approval_hash_mismatch = "approval_hash_mismatch"
gate_text revision_stale = "revision_stale"
gate_text evidence_stale = "evidence_stale"

abbrev pub reason_text : DispatchReason → String
reason_text (gate r) = gate_text r
reason_text policy_changed = "policy_changed"
reason_text recommendation_expired = "recommendation_expired"
reason_text no_email_provider_configured = "no_email_provider_configured"
reason_text (event_changed change) = change

-- `reasons.join(',')`
pub joined : List DispatchReason → String
joined [] = ""
joined (r ∷ []) = reason_text r
joined (r ∷ r' ∷ rs) = String.◌++◌ (reason_text r) (String.◌++◌ "," (joined (r' ∷ rs)))

-- `reason.startsWith('suppressed')`
abbrev pub is_suppression : DispatchReason → Bool
is_suppression (gate suppressed_marketing) = true
is_suppression (gate suppressed_watch) = true
is_suppression (gate suppressed_global) = true
is_suppression _ = false

-- The table, what was submitted to the provider, and the outcome.
pub record Dispatched : Type 0 where
  pub rows : SendIntents
  pub submitted : List Submission
  pub outcome : DispatchOutcome

abbrev pub refuse : Claim → ℕ → List DispatchReason → SendIntents → Dispatched
refuse claim wall reasons rows =
    if all is_suppression reasons
    then record {
      rows = release_claim claim to_suppressed (some (joined reasons)) wall rows;
      submitted = [];
      outcome = opted_out reasons;
    }
    else record {
      rows = release_claim claim to_blocked (some (joined reasons)) wall rows;
      submitted = [];
      outcome = held reasons;
    }

abbrev pub submit : SendIntentInput → Claim → ℕ → ℕ → ProviderReply → SendIntents → Dispatched
submit i claim now wall (accepted message_id) rows = record {
  rows = record_provider_accepted claim message_id now rows;
  submitted = submission_of i ∷ [];
  outcome = sent;
}
submit i claim now wall (throws error) rows = record {
  rows = release_claim claim to_uncertain (some error) wall rows;
  submitted = submission_of i ∷ [];
  outcome = uncertain_outcome;
}

-- the provider step, once the gate has let the message through
abbrev pub deliver : SendIntentInput → Claim → ℕ → ℕ → Facts → SendIntents → Dispatched
deliver i claim now wall f rows =
    if f.capture
    then record {
      rows =
          update_where (has_id claim.id)
            (λ r. record r { provider_rfc_message_id = some f.captured_rfc_id })
            (record_provider_accepted claim f.captured_id now rows);
      submitted = [];
      outcome = sent;
    }
    else elim f.provider [
      | none ↦ record {
        rows = release_claim claim to_blocked (some "no_email_provider_configured") wall rows;
        submitted = [];
        outcome = held (no_email_provider_configured ∷ []);
      }
      | some reply ↦ submit i claim now wall reply rows
    ]

abbrev pub gated :
    SendIntentInput → Claim → ℕ → ℕ → Facts → List DispatchReason → SendIntents → Dispatched
gated i claim now wall f [] rows = deliver i claim now wall f rows
gated i claim now wall f (r ∷ rs) rows = refuse claim wall (r ∷ rs) rows

abbrev pub is_uncertain : IntentState → Bool
is_uncertain uncertain = true
is_uncertain _ = false

-- what follows the claim; the intent is retried when it was read as uncertain
pub dispatch_claimed :
    SendIntentInput → Bool → Option Claim → ℕ → ℕ → Facts → SendIntents → Dispatched
dispatch_claimed i retrying none now wall f rows = record {
  rows = rows;
  submitted = [];
  outcome = already_handled;
}
dispatch_claimed i retrying (some claim) now wall f rows =
    gated i claim now wall f (all_reasons f i retrying) rows

-- claim, gate, provider
unfoldable pub dispatch_queued : SendIntent → String → ℕ → ℕ → Facts → SendIntents → Dispatched
unfolding dispatch_claimed
dispatch_queued intent token now wall f rows =
    let (rows', claim) = claim_send_intent intent.id token now rows in
    dispatch_claimed intent.input (is_uncertain intent.state) claim now wall f rows'

-- `submittedAt ?? claimedAt`
abbrev pub first_submitted : SendIntent → Option ℕ
first_submitted r = elim r.submitted_at [ none ↦ r.claimed_at | some t ↦ some t ]

abbrev pub requeue : String → SendIntents → SendIntents
requeue id =
    update_where (λ r. str_eq r.id id && is_uncertain r.state) (λ r. record r { state = queued })

-- an intent whose last attempt is uncertain, after the decision about it
pub dispatch_uncertain :
    RetryDecision → SendIntent → String → ℕ → ℕ → Facts → SendIntents → Dispatched
dispatch_uncertain manual_reconciliation intent token now wall f rows = record {
  rows = rows;
  submitted = [];
  outcome = needs_reconciliation;
}
dispatch_uncertain retry_same_key intent token now wall f rows =
    dispatch_queued intent token now wall f (requeue intent.id rows)

unfoldable pub dispatch_intent : SendIntent → String → ℕ → ℕ → Facts → SendIntents → Dispatched
unfolding dispatch_uncertain
dispatch_intent intent token now wall f rows =
    if is_uncertain intent.state
    then dispatch_uncertain (uncertain_retry_decision (first_submitted intent) now) intent token now
        wall f rows
    else dispatch_queued intent token now wall f rows

-- null when there is no such intent (the method throws)
unfoldable pub dispatch_send : String → String → ℕ → ℕ → Facts → SendIntents → Option Dispatched
dispatch_send id token now wall f rows =
    Option.map (λ intent. dispatch_intent intent token now wall f rows) (find (has_id id) rows)
