-- ===== src/Outbox.antt =====
-- src/lib/intake/outbox.ts: the transactional outbox, over the rows of the table outbox_events
-- (src/lib/db/schema.ts). Instants are milliseconds since the epoch; what the database or the
-- runtime chooses (row ids, lease tokens, the rows that other workers hold locked, the jitter) is
-- an argument. Each statement is one atomic step on the table.
pub mod Lifecycle
pub mod Leases
pub mod Retries
pub mod Health
mod Tests
use ticketguy.Prelude.{
  ℕ, ◌+◌, ◌*◌, ◌/◌, ◌^◌, min, compare, String, Bool, true, false, not, ◌&&◌, ◌||◌, Option, none,
  some, List, [], ◌∷◌, ◌++◌, map, str_eq, ltb, leb, if◌then◌else◌, or_else, take, keep, any,
  contains,
}
use ticketguy.Prelude.Sorting.{sort_by}
use ticketguy.Prelude.Tables.{update_where}

pub data OutboxEventType : Type 0 where
  email_received request_interpret research_requested staff_alert : OutboxEventType
  recommendation_review_ready email_send_requested watch_due watch_evaluate : OutboxEventType
  contact_delete_requested retention_due advice_prepare : OutboxEventType

pub data OutboxState : Type 0 where
  pending leased dispatched dead : OutboxState

-- A row of outbox_events. The payload is a record of ids and revisions; an error's text is the
-- list of its UTF-16 code units.
pub record OutboxEvent : Type 0 where
  pub id : String
  pub event_type : OutboxEventType
  pub event_key : String
  pub entity_id : String
  pub revision : ℕ
  pub payload : List (String × String)
  pub state : OutboxState
  pub attempts : ℕ
  pub lease_token : Option String
  pub lease_until : Option ℕ
  pub next_attempt_at : ℕ
  pub last_error : Option (List ℕ)
  pub created_at : ℕ
  pub dispatched_at : Option ℕ

abbrev pub Outbox : Type 0
Outbox = List OutboxEvent

abbrev pub outbox_max_attempts : ℕ
outbox_max_attempts = 8

abbrev pub outbox_lease_seconds : ℕ
outbox_lease_seconds = 60

pub record EnqueueArgs : Type 0 where
  pub event_type : OutboxEventType
  pub event_key : String
  pub entity_id : String
  pub revision : Option ℕ
  pub payload : List (String × String)
  pub now : Option ℕ

pub record Enqueued : Type 0 where
  pub inserted : Bool
  pub id : Option String

-- The row that the insert writes; `id` is the database's, `wall` the wall clock.
abbrev pub new_event : EnqueueArgs → String → ℕ → OutboxEvent
new_event args id wall = record {
  id = id;
  event_type = args.event_type;
  event_key = args.event_key;
  entity_id = args.entity_id;
  revision = or_else args.revision 1;
  payload = args.payload;
  state = pending;
  attempts = 0;
  lease_token = none;
  lease_until = none;
  next_attempt_at = or_else args.now wall;
  last_error = none;
  created_at = or_else args.now wall;
  dispatched_at = none;
}

-- `insert … on conflict (event_key) do nothing returning id`
unfoldable pub enqueue_outbox : EnqueueArgs → String → ℕ → Outbox → Outbox × Enqueued
enqueue_outbox args id wall rows =
    if contains args.event_key (map (λ (r : OutboxEvent). r.event_key) rows)
    then (rows, record { inserted = false; id = none })
    else (rows ++ new_event args id wall ∷ [], record { inserted = true; id = some id })

pub record LeasedEvent : Type 0 where
  pub id : String
  pub event_type : OutboxEventType
  pub event_key : String
  pub entity_id : String
  pub revision : ℕ
  pub payload : List (String × String)
  pub attempts : ℕ
  pub lease_token : String

abbrev pub is_pending : OutboxState → Bool
is_pending pending = true
is_pending _ = false

abbrev pub is_leased : OutboxState → Bool
is_leased leased = true
is_leased _ = false

abbrev pub is_dead : OutboxState → Bool
is_dead dead = true
is_dead _ = false

-- `t < now`, where null is not less than anything
abbrev pub before : Option ℕ → ℕ → Bool
before none now = false
before (some t) now = ltb t now

abbrev pub is_due : ℕ → OutboxEvent → Bool
is_due now r =
    (is_pending r.state || (is_leased r.state && before r.lease_until now))
    && leb r.next_attempt_at now

abbrev pub lease_row : String → ℕ → OutboxEvent → OutboxEvent
lease_row token until r = record r {
  state = leased;
  lease_token = some token;
  lease_until = some until;
  attempts = r.attempts + 1;
}

abbrev pub to_leased_event : String → OutboxEvent → LeasedEvent
to_leased_event token r = record {
  id = r.id;
  event_type = r.event_type;
  event_key = r.event_key;
  entity_id = r.entity_id;
  revision = r.revision;
  payload = r.payload;
  attempts = r.attempts + 1;
  lease_token = token;
}

pub record LeaseArgs : Type 0 where
  pub limit : ℕ
  pub now : ℕ
  pub lease_seconds : Option ℕ

-- The `due` rows of the statement; `locked` lists the ids that `skip locked` leaves out.
unfoldable pub due_rows : LeaseArgs → List String → Outbox → Outbox
due_rows args locked rows = take args.limit (
    sort_by (λ (a b : OutboxEvent). compare a.next_attempt_at b.next_attempt_at)
      (keep (λ r. is_due args.now r && not (contains r.id locked)) rows))

abbrev pub lease_until_of : LeaseArgs → ℕ
lease_until_of args = args.now + or_else args.lease_seconds outbox_lease_seconds * 1000

unfoldable pub lease_due_outbox :
    LeaseArgs → String → List String → Outbox → Outbox × List LeasedEvent
lease_due_outbox args token locked rows =
    let due = due_rows args locked rows in
    (
      update_where (λ r. contains r.id (map (λ (d : OutboxEvent). d.id) due))
          (lease_row token (lease_until_of args)) rows,
      map (to_leased_event token) due,
    )

-- `Math.random()` is num / den with num < den. `base * 0.2` is a fifth of an integer.
unfoldable pub backoff_base : ℕ → ℕ
backoff_base attempt = min 3600 (2 ^ min attempt 12 * 5)

unfoldable pub backoff_seconds : ℕ → ℕ → ℕ → ℕ
backoff_seconds attempt num den =
    let base = backoff_base attempt in base + num * min 150 base / (5 * den)

-- `id = … and lease_token = …`
abbrev pub holds_lease : String → String → OutboxEvent → Bool
holds_lease id token r =
    str_eq r.id id && elim r.lease_token [ none ↦ false | some t ↦ str_eq t token ]

abbrev pub dispatch_row : ℕ → OutboxEvent → OutboxEvent
dispatch_row now r = record r {
  state = dispatched;
  dispatched_at = some now;
  lease_token = none;
  lease_until = none;
}

unfoldable pub mark_dispatched : String → String → ℕ → Outbox → Outbox × Bool
mark_dispatched id token now rows =
    (update_where (holds_lease id token) (dispatch_row now) rows, any (holds_lease id token) rows)

abbrev pub customer_work_max_attempts : ℕ
customer_work_max_attempts = 4

-- `CUSTOMER_WORK.includes(eventType)`
abbrev pub is_customer_work : OutboxEventType → Bool
is_customer_work request_interpret = true
is_customer_work research_requested = true
is_customer_work _ = false

pub data Failed : Type 0 where
  retry died : Failed

abbrev pub attempt_budget : OutboxEventType → ℕ
attempt_budget t = if is_customer_work t then customer_work_max_attempts else outbox_max_attempts

unfoldable pub is_exhausted : LeasedEvent → Bool → Bool
is_exhausted ev permanent = permanent || leb (attempt_budget ev.event_type) ev.attempts

abbrev pub fail_row : Bool → List ℕ → ℕ → OutboxEvent → OutboxEvent
fail_row is_final error next_at r = record r {
  state = if is_final then dead else pending;
  last_error = some (take 2000 error);
  lease_token = none;
  lease_until = none;
  next_attempt_at = next_at;
}

-- The last two numbers are those of `Math.random()` in the backoff.
unfoldable pub mark_failed : LeasedEvent → List ℕ → ℕ → Bool → ℕ → ℕ → Outbox → Outbox × Failed
mark_failed ev error now permanent num den rows =
    let is_final = is_exhausted ev permanent in
    (
      update_where (holds_lease ev.id ev.lease_token)
          (fail_row is_final error (now + backoff_seconds ev.attempts num den * 1000)) rows,
      if is_final then died else retry,
    )

abbrev pub replay_row : ℕ → OutboxEvent → OutboxEvent
replay_row now r = record r {
  state = pending;
  attempts = 0;
  next_attempt_at = now;
  last_error = none;
}

abbrev pub is_dead_row : String → OutboxEvent → Bool
is_dead_row id r = str_eq r.id id && is_dead r.state

unfoldable pub replay_dead : String → ℕ → Outbox → Outbox × Bool
replay_dead id now rows =
    (update_where (is_dead_row id) (replay_row now) rows, any (is_dead_row id) rows)

abbrev pub is_removed_row : List String → OutboxEvent → Bool
is_removed_row ids r = contains r.entity_id ids && is_pending r.state

abbrev pub remove_row : List ℕ → OutboxEvent → OutboxEvent
remove_row reason r = record r { state = dead; last_error = some reason }

-- what `removeRequests` of lib/admin/remove-requests.ts does here: the pending work of these
-- requests is dropped. The text of its reason is an argument.
unfoldable pub drop_removed : List String → List ℕ → Outbox → Outbox
drop_removed ids reason rows = update_where (is_removed_row ids) (remove_row reason) rows
