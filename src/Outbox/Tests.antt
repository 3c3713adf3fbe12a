-- ===== src/Outbox/Tests.antt =====
-- src/lib/intake/outbox.ts: runs of the operations, and each theorem at a concrete input.
use mathlib.Core.List.{Memᴰ}
use ticketguy.Prelude.{
  ℕ, ◌+◌, ◌*◌, ◌≤◌, ◌<◌, ◌≡◌, ◌≢◌, ◌↔◌, ◌⊎◌, refl, String, true, false, none, some, [], ◌∷◌, arith,
  length, eq_iff, contains,
}
use ticketguy.Outbox.{
  OutboxEvent, Outbox, pending, dead, request_interpret, EnqueueArgs, LeaseArgs, LeasedEvent,
  enqueue_outbox, lease_due_outbox, due_rows, lease_row, to_leased_event, is_due, mark_dispatched,
  mark_failed, is_exhausted, backoff_base, backoff_seconds, died, replay_dead, attempt_budget,
}
use ticketguy.Prelude.Sorting.{sort_by}
use ticketguy.Prelude.Tables.{update_where}
use ticketguy.Outbox.Lifecycle.{
  IsSound, Reach, Succeeds, Reach-IsSound, Step-Succeeds, here, next, enqueues, leases,
}
use ticketguy.Outbox.Leases.{
  lease_due_outbox_sound, lease_due_outbox_complete, lease_exclusive, lost_lease,
}
use ticketguy.Outbox.Health.{
  outbox_lag, count_where, oldest_where, is_dispatched, outbox_lag_due, outbox_lag_counts,
}
use ticketguy.Outbox.Retries.{
  backoff_seconds_bounds, mark_failed_verdict, enqueue_outbox_idempotent, replay_dead_lem,
}

outbox_code : Unit {0}
unfolding enqueue_outbox lease_due_outbox due_rows mark_dispatched mark_failed is_exhausted
    backoff_base backoff_seconds replay_dead sort_by update_where outbox_lag count_where
    oldest_where
outbox_code = tt

abbrev mail : EnqueueArgs
mail = record {
  event_type = request_interpret;
  event_key = "interpret:m1";
  entity_id = "m1";
  revision = none;
  payload = ("messageId", "m1") ∷ [];
  now = some 1000;
}

abbrev pass_at : ℕ → LeaseArgs
pass_at now = record { limit = 10; now = now; lease_seconds = none }

abbrev row : OutboxEvent
row = record {
  id = "e1";
  event_type = request_interpret;
  event_key = "interpret:m1";
  entity_id = "m1";
  revision = 1;
  payload = ("messageId", "m1") ∷ [];
  state = pending;
  attempts = 0;
  lease_token = none;
  lease_until = none;
  next_attempt_at = 1000;
  last_error = none;
  created_at = 1000;
  dispatched_at = none;
}

abbrev queue : Outbox
queue = row ∷ []

abbrev held_row : OutboxEvent
held_row = lease_row "a" 62000 row

abbrev event : LeasedEvent
event = to_leased_event "a" row

empty-IsSound : IsSound []
empty-IsSound = record { consistent = tt; keys = tt; ids = tt }

enqueue_test : (enqueue_outbox mail "e1" 5 []).0 ≡ queue
unfolding outbox_code
enqueue_test = refl

lease_test : lease_due_outbox (pass_at 2000) "a" [] queue ≡ (held_row ∷ [], event ∷ [])
unfolding outbox_code
lease_test = refl

path : Reach [] (lease_due_outbox (pass_at 2000) "a" [] (enqueue_outbox mail "e1" 5 []).0).0
path = next (next (here []) (enqueues mail "e1" 5 [] refl)) (leases (pass_at 2000) "a" [] _)

Reach-IsSound_example :
    IsSound (lease_due_outbox (pass_at 2000) "a" [] (enqueue_outbox mail "e1" 5 []).0).0
Reach-IsSound_example = Reach-IsSound path empty-IsSound

queue-IsSound : IsSound queue
queue-IsSound = record {
  consistent = (record { token = refl; until = refl; sent = refl; error = tt }, tt);
  keys = (tt, tt);
  ids = (tt, tt);
}

Step-Succeeds_example :
    (u : OutboxEvent) × Memᴰ u (lease_due_outbox (pass_at 2000) "a" [] queue).0 × Succeeds row u
Step-Succeeds_example =
    Step-Succeeds (leases (pass_at 2000) "a" [] queue) queue-IsSound (Memᴰ.head refl)

event-leased : Memᴰ event (lease_due_outbox (pass_at 2000) "a" [] queue).1
event-leased = rw lease_test (Memᴰ.head refl)

lease_due_outbox_sound_example :
    (r : OutboxEvent) × Memᴰ r queue
    × (is_due 2000 r ≡ true)
    × (contains r.id [] ≡ false)
    × (event ≡ to_leased_event "a" r)
    × Memᴰ (lease_row "a" 62000 r) (lease_due_outbox (pass_at 2000) "a" [] queue).0
    × (length (lease_due_outbox (pass_at 2000) "a" [] queue).1 ≤ 10)
lease_due_outbox_sound_example =
    lease_due_outbox_sound (pass_at 2000) "a" [] queue event event-leased

lease_due_outbox_complete_example :
    Memᴰ event (lease_due_outbox (pass_at 2000) "a" [] queue).1
    × Memᴰ held_row (lease_due_outbox (pass_at 2000) "a" [] queue).0
lease_due_outbox_complete_example =
    lease_due_outbox_complete (pass_at 2000) "a" [] queue row (omega arith) (Memᴰ.head refl) refl
      refl

lease_exclusive_example :
    Memᴰ held_row (lease_due_outbox (pass_at 62000) "b" [] (held_row ∷ [])).0
    × ((ev : LeasedEvent)
        → Memᴰ ev (lease_due_outbox (pass_at 62000) "b" [] (held_row ∷ [])).1
        → ev.id ≢ "e1")
lease_exclusive_example =
    lease_exclusive (pass_at 62000) "b" [] (held_row ∷ []) held_row 62000 (tt, tt) (Memᴰ.head refl)
      refl refl (omega arith)

old_token : ◌≢◌ {A = String} "old" "a"
old_token = ground (arith, eq_iff "old" "a")

lost_lease_example :
    (mark_dispatched "e1" "old" 9000 (lease_due_outbox (pass_at 2000) "a" [] queue).0
      ≡ ((lease_due_outbox (pass_at 2000) "a" [] queue).0, false))
    × ((mark_failed
          (record event { lease_token = "old" })
          []
          9000
          false
          1
          2
          (lease_due_outbox (pass_at 2000) "a" [] queue).0).0
        ≡ (lease_due_outbox (pass_at 2000) "a" [] queue).0)
lost_lease_example =
    lost_lease (pass_at 2000) "a" "old" [] queue event [] 9000 false 1 2 (tt, tt) event-leased
      old_token

backoff_seconds_bounds_example :
    (10 ≤ backoff_seconds 3 1 2)
    × (backoff_base 3 ≤ backoff_seconds 3 1 2)
    × (backoff_seconds 3 1 2 < backoff_base 3 + 30)
    × (backoff_seconds 3 1 2 < 3630)
    × (backoff_base 3 ≤ backoff_seconds 5 1 2)
backoff_seconds_bounds_example =
    backoff_seconds_bounds 3 5 1 2 (omega arith) (omega arith) (omega arith)

mark_failed_verdict_example :
    (u : OutboxEvent) × Memᴰ u (mark_failed event [] 9000 false 1 2 (held_row ∷ [])).0
    × (u.id ≡ "e1")
    × (u.lease_token ≡ none)
    × (9000 + backoff_base 1 * 1000 ≤ u.next_attempt_at)
    × ((u.state ≡ dead) ↔ ((false ≡ true) ⊎ (attempt_budget request_interpret ≤ 1)))
    × ((u.state ≡ pending) ⊎ (u.state ≡ dead))
    × (((mark_failed event [] 9000 false 1 2 (held_row ∷ [])).1 ≡ died) ↔ (u.state ≡ dead))
mark_failed_verdict_example =
    mark_failed_verdict event [] 9000 false 1 2 (held_row ∷ []) held_row (Memᴰ.head refl) refl

enqueue_outbox_idempotent_example :
    enqueue_outbox (record mail { payload = [] }) "e2" 7 (enqueue_outbox mail "e1" 5 []).0
    ≡ ((enqueue_outbox mail "e1" 5 []).0, record { inserted = false; id = none })
enqueue_outbox_idempotent_example =
    enqueue_outbox_idempotent mail (record mail { payload = [] }) "e1" "e2" 5 7 [] refl

abbrev dead_row : OutboxEvent
dead_row = record row { state = dead; attempts = 4 }

replay_dead_lem_example :
    (u : OutboxEvent) × Memᴰ u (replay_dead "e1" 7000 (dead_row ∷ [])).0
    × (u.event_key ≡ "interpret:m1")
    × (((dead_row.id ≡ "e1")
          × (dead_row.state ≡ dead)
          × (is_due 7000 u ≡ true)
          × (u.attempts ≡ 0)
          × ((replay_dead "e1" 7000 (dead_row ∷ [])).1 ≡ true))
        ⊎ (¬ ((dead_row.id ≡ "e1") × (dead_row.state ≡ dead)) × (u ≡ dead_row)))
replay_dead_lem_example = replay_dead_lem "e1" 7000 (dead_row ∷ []) dead_row (Memᴰ.head refl)

due_fits : (outbox_lag 2000 queue).due ≤ 10
unfolding outbox_code
due_fits = omega arith

outbox_lag_due_example :
    length (lease_due_outbox (pass_at 2000) "a" [] queue).1 ≡ (outbox_lag 2000 queue).due
outbox_lag_due_example = outbox_lag_due (pass_at 2000) "a" queue due_fits

outbox_lag_counts_example :
    ((outbox_lag 2000 queue).pending
        + (outbox_lag 2000 queue).leased
        + (outbox_lag 2000 queue).dead
        + count_where (λ r. is_dispatched r.state) queue
      ≡ length queue)
    × ((outbox_lag 2000 queue).expired_leases ≤ (outbox_lag 2000 queue).leased)
outbox_lag_counts_example = outbox_lag_counts 2000 queue
