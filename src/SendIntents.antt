-- ===== src/SendIntents.antt =====
-- src/lib/email/send-intents.ts: immutable send intents, over the rows of the table send_intents
-- (src/lib/db/schema.ts). The digest of the content, row ids and claim tokens are arguments, as
-- are the two clocks: `now` is the caller's, `wall` is `new Date()`.
pub mod Claims
pub mod Statuses
pub mod Creation
mod Tests
use ticketguy.Prelude.{
  ℕ, ◌+◌, ◌*◌, String, Bool, true, false, ◌&&◌, ◌||◌, Option, none, some, List, [], ◌∷◌, ◌++◌,
  str_eq, ltb, if◌then◌else◌, or_else, any, find,
}
use ticketguy.Prelude.Tables.{update_where}
use ticketguy.SendGate.{MessageClass}

pub data IntentState : Type 0 where
  queued claimed provider_accepted delivered delayed bounced complained : IntentState
  failed suppressed uncertain blocked : IntentState

pub record SendIntentInput : Type 0 where
  pub dedupe_key : String
  pub message_class : MessageClass
  pub contact_id : Option String
  pub conversation_id : Option String
  pub request_id : Option String
  pub request_revision : Option ℕ
  pub approval_id : Option String
  pub approved_hash : Option String
  pub recipient : String
  pub from_address : String
  pub subject : String
  pub body_text : String
  pub body_html : String
  pub headers : List (String × String)

-- A row of send_intents: the columns of the input, and those that the dispatcher writes.
pub record SendIntent : Type 0 where
  pub id : String
  pub input : SendIntentInput
  pub open input use *
  pub content_hash : String
  pub state : IntentState
  pub claim_token : Option String
  pub claimed_at : Option ℕ
  pub provider_message_id : Option String
  pub provider_rfc_message_id : Option String
  pub attempts : ℕ
  pub last_error : Option String
  pub submitted_at : Option ℕ
  pub resolved_at : Option ℕ
  pub created_at : ℕ

abbrev pub SendIntents : Type 0
SendIntents = List SendIntent

abbrev pub provider_idempotency_window_hours : ℕ
provider_idempotency_window_hours = 24

abbrev pub new_intent : (SendIntentInput → String) → SendIntentInput → String → ℕ → SendIntent
new_intent digest input id wall = record {
  id = id;
  input = input;
  content_hash = digest input;
  state = queued;
  claim_token = none;
  claimed_at = none;
  provider_message_id = none;
  provider_rfc_message_id = none;
  attempts = 0;
  last_error = none;
  submitted_at = none;
  resolved_at = none;
  created_at = wall;
}

pub record Created : Type 0 where
  pub id : Option String
  pub created : Bool

abbrev pub has_key : String → SendIntent → Bool
has_key key r = str_eq r.dedupe_key key

abbrev pub id_of : Option SendIntent → Option String
id_of none = none
id_of (some r) = some r.id

-- `insert … on conflict (dedupe_key) do nothing`, then the id of the row that has the key
unfoldable pub create_send_intent :
    (SendIntentInput → String) → SendIntentInput → String → ℕ → SendIntents → SendIntents × Created
create_send_intent digest input id wall rows =
    if any (has_key input.dedupe_key) rows
    then (rows, record { id = id_of (find (has_key input.dedupe_key) rows); created = false })
    else (rows ++ new_intent digest input id wall ∷ [], record { id = some id; created = true })

abbrev pub is_queued : IntentState → Bool
is_queued queued = true
is_queued _ = false

pub record Claim : Type 0 where
  pub id : String
  pub claim_token : String

abbrev pub claimable : String → SendIntent → Bool
claimable id r = str_eq r.id id && is_queued r.state

abbrev pub claim_row : String → ℕ → SendIntent → SendIntent
claim_row token now r = record r {
  state = claimed;
  claim_token = some token;
  claimed_at = some now;
  attempts = r.attempts + 1;
}

unfoldable pub claim_send_intent : String → String → ℕ → SendIntents → SendIntents × Option Claim
claim_send_intent id token now rows = (
  update_where (claimable id) (claim_row token now) rows,
  if any (claimable id) rows then some (record { id = id; claim_token = token }) else none,
)

abbrev pub token_is : String → Option String → Bool
token_is token none = false
token_is token (some t) = str_eq t token

abbrev pub holds_claim : Claim → SendIntent → Bool
holds_claim claim r = str_eq r.id claim.id && token_is claim.claim_token r.claim_token

-- The states that a claim is released to.
pub data ReleaseState : Type 0 where
  to_queued to_blocked to_suppressed to_failed to_uncertain : ReleaseState

abbrev pub released_state : ReleaseState → IntentState
released_state to_queued = queued
released_state to_blocked = blocked
released_state to_suppressed = suppressed
released_state to_failed = failed
released_state to_uncertain = uncertain

abbrev pub resolved_by_release : ReleaseState → ℕ → Option ℕ
resolved_by_release to_queued wall = none
resolved_by_release _ wall = some wall

abbrev pub release_row : ReleaseState → Option String → ℕ → SendIntent → SendIntent
release_row to error wall r = record r {
  state = released_state to;
  claim_token = none;
  last_error = error;
  resolved_at = resolved_by_release to wall;
}

unfoldable pub release_claim : Claim → ReleaseState → Option String → ℕ → SendIntents → SendIntents
release_claim claim to error wall rows =
    update_where (holds_claim claim) (release_row to error wall) rows

-- `state in ('delivered', 'bounced', 'complained')`
abbrev pub is_final_report : IntentState → Bool
is_final_report delivered = true
is_final_report bounced = true
is_final_report complained = true
is_final_report _ = false

-- `claim_token = … or claim_token is null`
abbrev pub token_or_free : String → Option String → Bool
token_or_free token none = true
token_or_free token (some t) = str_eq t token

abbrev pub acceptable : Claim → SendIntent → Bool
acceptable claim r = str_eq r.id claim.id && token_or_free claim.claim_token r.claim_token

abbrev pub accept_row : String → ℕ → SendIntent → SendIntent
accept_row message_id now r = record r {
  provider_message_id = some message_id;
  submitted_at = some now;
  claim_token = none;
  state = if is_final_report r.state then r.state else provider_accepted;
}

unfoldable pub record_provider_accepted : Claim → String → ℕ → SendIntents → SendIntents
record_provider_accepted claim message_id now rows =
    update_where (acceptable claim) (accept_row message_id now) rows

-- `TERMINAL_RANK[state] ?? 0`
abbrev pub terminal_rank : IntentState → ℕ
terminal_rank queued = 0
terminal_rank claimed = 1
terminal_rank provider_accepted = 2
terminal_rank delayed = 3
terminal_rank delivered = 4
terminal_rank bounced = 5
terminal_rank complained = 6
terminal_rank _ = 0

-- The statuses that the provider's webhooks report.
pub data ProviderStatus : Type 0 where
  is_delivered is_delayed is_bounced is_complained is_failed : ProviderStatus

abbrev pub reported_state : ProviderStatus → IntentState
reported_state is_delivered = delivered
reported_state is_delayed = delayed
reported_state is_bounced = bounced
reported_state is_complained = complained
reported_state is_failed = failed

abbrev pub is_failure : ProviderStatus → Bool
is_failure is_failed = true
is_failure _ = false

pub data Applied : Type 0 where
  applied ignored unknown_message : Applied

abbrev pub has_message_id : String → SendIntent → Bool
has_message_id message_id r = token_is message_id r.provider_message_id

-- A missing or empty id leaves the column alone.
abbrev pub keep_rfc_id : Option String → Option String → Option String
keep_rfc_id none old = old
keep_rfc_id (some s) old = if str_eq s "" then old else some s

abbrev pub report_row : ProviderStatus → Option String → ℕ → SendIntent → SendIntent
report_row status rfc_id wall r = record r {
  state = reported_state status;
  resolved_at = some wall;
  provider_rfc_message_id = keep_rfc_id rfc_id r.provider_rfc_message_id;
}

abbrev pub is_regression : ProviderStatus → SendIntent → Bool
is_regression status r =
    if is_failure status
    then false
    else ltb (terminal_rank (reported_state status)) (terminal_rank r.state)

abbrev pub has_id : String → SendIntent → Bool
has_id id r = str_eq r.id id

-- the status against the row that was read
apply_to :
    ProviderStatus → Option String → ℕ → SendIntents → Option SendIntent → SendIntents × Applied
apply_to status rfc_id wall rows none = (rows, unknown_message)
apply_to status rfc_id wall rows (some r) =
    if is_regression status r
    then (rows, ignored)
    else (update_where (has_id r.id) (report_row status rfc_id wall) rows, applied)

unfoldable pub apply_provider_status :
    String → ProviderStatus → Option String → ℕ → SendIntents → SendIntents × Applied
unfolding apply_to
apply_provider_status message_id status rfc_id wall rows =
    apply_to status rfc_id wall rows (find (has_message_id message_id) rows)

pub data Upserted : Type 0 where
  mapped deferred : Upserted

abbrev pub map_row : String → ProviderStatus → ℕ → SendIntent → SendIntent
map_row message_id status wall r = record r {
  provider_message_id = some message_id;
  state = reported_state status;
  resolved_at = some wall;
}

-- the write by dedupe key, after an unknown message id
upsert_by_hint : String → Option String → ProviderStatus → ℕ → SendIntents → SendIntents × Upserted
upsert_by_hint message_id none status wall rows = (rows, deferred)
upsert_by_hint message_id (some key) status wall rows =
    if str_eq key "" then (rows, deferred) else (
      update_where (has_key key) (map_row message_id status wall) rows,
      if any (has_key key) rows then mapped else deferred,
    )

unfoldable pub upsert_provider_mapping :
    String → Option String → ProviderStatus → ℕ → SendIntents → SendIntents × Upserted
unfolding upsert_by_hint
upsert_provider_mapping message_id hint status wall rows =
    let (rows', result) = apply_provider_status message_id status none wall rows in
    elim result [
      | unknown_message ↦ upsert_by_hint message_id hint status wall rows'
      | _ ↦ (rows', mapped)
    ]

pub data RetryDecision : Type 0 where
  retry_same_key manual_reconciliation : RetryDecision

-- `now - firstSubmittedAt < 24 h`, written without the difference.
unfoldable pub uncertain_retry_decision : Option ℕ → ℕ → RetryDecision
uncertain_retry_decision none now = retry_same_key
uncertain_retry_decision (some first) now =
    if ltb now (first + provider_idempotency_window_hours * 3600000)
    then retry_same_key
    else manual_reconciliation
