-- ===== src/Reconcile.antt =====
-- src/lib/email/reconcile.ts: the sweep over the provider's list of received mail. The listing
-- (`listReceivedEmails`, a network read), the payload's hash and the ids of new rows are arguments.
pub mod Keys
pub mod Sweep
mod Tests
use Prim.Native.String.{◌++◌ as str_append}
use ticketguy.Prelude.{
  ℕ, ◌+◌, Bool, true, false, not, ◌&&◌, ◌||◌, String, Option, none, some, List, [], ◌∷◌, ◌++◌, map,
  keep, length, any, contains, str_eq, if◌then◌else◌,
}
use ticketguy.Outbox.{Outbox, EnqueueArgs, Enqueued, email_received, enqueue_outbox}

pub record ReceivedListing : Type 0 where
  pub id : String
  pub created_at : Option String

-- A row of inbound_events of the provider 'resend' and the type 'email.received'; `email_id` is
-- the id in its payload.
pub record InboundEvent : Type 0 where
  pub id : String
  pub provider_event_id : String
  pub email_id : String
  pub created_at : Option String
  pub reconciled : Bool
  pub signature_verified : Bool

-- `messages` holds the provider ids of the stored inbound messages
pub record Mailroom : Type 0 where
  pub events : List InboundEvent
  pub messages : List String
  pub outbox : Outbox

-- the ids that an event or a stored message accounts for
unfoldable pub is_known : Mailroom → String → Bool
is_known room id = any (λ e. str_eq e.email_id id) room.events || contains id room.messages

abbrev pub unique : List String → List String
unique [] = []
unique (s ∷ ss) = s ∷ keep (λ t. not (str_eq t s)) (unique ss)

unfoldable pub known_provider_ids : Mailroom → List String → List String
known_provider_ids room ids = keep (is_known room) ids

abbrev pub reconcile_key : String → String
reconcile_key id = str_append "reconcile:" id

abbrev pub inbound_of : ReceivedListing → String → InboundEvent
inbound_of m row_id = record {
  id = row_id;
  provider_event_id = reconcile_key m.id;
  email_id = m.id;
  created_at = m.created_at;
  reconciled = true;
  signature_verified = false;
}

abbrev pub enqueue_of : ℕ → ReceivedListing → String → EnqueueArgs
enqueue_of now m row_id = record {
  event_type = email_received;
  event_key = str_append "received:" (reconcile_key m.id);
  entity_id = row_id;
  revision = none;
  payload = ("inboundEventId", row_id) ∷ [];
  now = some now;
}

abbrev pub count_if : Bool → ℕ
count_if true = 1
count_if false = 0

-- one round of the loop over the missing messages: `on conflict do nothing`, then the outbox
unfoldable pub ingest : ℕ → (String → String) → ReceivedListing → Mailroom → Mailroom × ℕ
ingest now fresh m room =
    let queued = enqueue_outbox (enqueue_of now m (fresh m.id)) (fresh m.id) now room.outbox in
    if any (λ e. str_eq e.provider_event_id (reconcile_key m.id)) room.events then (room, 0) else (
      record room { events = room.events ++ inbound_of m (fresh m.id) ∷ []; outbox = queued.0 },
      count_if queued.1.inserted,
    )

unfoldable pub ingest_all : ℕ → (String → String) → List ReceivedListing → Mailroom → Mailroom × ℕ
ingest_all now fresh [] room = (room, 0)
ingest_all now fresh (m ∷ ms) room =
    let one = ingest now fresh m room in
    let rest = ingest_all now fresh ms one.0 in (rest.0, one.1 + rest.1)

pub record ReconcileOutcome : Type 0 where
  pub listed : ℕ
  pub known : ℕ
  pub missing : List String
  pub enqueued : ℕ

abbrev pub missing_of : Mailroom → List ReceivedListing → List ReceivedListing
missing_of room = keep (λ m. not (is_known room m.id))

unfoldable pub reconcile_received :
    Bool → ℕ → (String → String) → List ReceivedListing → Mailroom → Mailroom × ReconcileOutcome
reconcile_received apply now fresh listing room =
    let missing = missing_of room listing in
    let swept = if apply then ingest_all now fresh missing room else (room, 0) in
    (
      swept.0,
      record {
        listed = length listing;
        known =
            length (known_provider_ids room (unique (map (λ (m : ReceivedListing). m.id) listing)));
        missing = map (λ (m : ReceivedListing). m.id) missing;
        enqueued = swept.1;
      },
    )
