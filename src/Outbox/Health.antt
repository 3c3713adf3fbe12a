-- ===== src/Outbox/Health.antt =====
-- src/lib/intake/outbox.ts: the health counters `outboxLag` and the listing `retryingOutbox`.
use ticketguy.Prelude.{
  ℕ, ◌+◌, ◌-◌, ◌/◌, ◌≤◌, ◌≡◌, refl, ap, ◌∙◌, min, compare, Bool, true, false, not, ◌&&◌, ◌||◌,
  Option, none, some, [], ◌∷◌, keep, take, length, ltb, leb, if◌then◌else◌, arith, contains,
  length-map, String, Bool-cases, inl, inr,
}
use ticketguy.Prelude.Int.{ℤ, pos, negsuc}
use ticketguy.Prelude.Sorting.{sort_by}
use ticketguy.Prelude.Tables.{take_all, length-sort_by}
use ticketguy.Outbox.{
  OutboxEvent, Outbox, OutboxState, LeaseArgs, dispatched, is_pending, is_leased, is_dead, before,
  is_due, due_rows, lease_due_outbox, to_leased_event,
}

pub record OutboxLag : Type 0 where
  pub pending : ℕ
  pub due : ℕ
  pub leased : ℕ
  pub expired_leases : ℕ
  pub dead : ℕ
  pub oldest_pending_seconds : Option ℤ
  pub oldest_unfinished_seconds : Option ℕ

-- `count(*) filter (where …)`
unfoldable pub count_where : (OutboxEvent → Bool) → Outbox → ℕ
count_where p rows = length (keep p rows)

abbrev pub earliest : Option ℕ → ℕ → Option ℕ
earliest none t = some t
earliest (some u) t = some (min u t)

-- `min(created_at) filter (where …)`
unfoldable pub oldest_where : (OutboxEvent → Bool) → Outbox → Option ℕ
oldest_where p [] = none
oldest_where p (r ∷ rs) =
    let rest = oldest_where p rs in if p r then earliest rest r.created_at else rest

-- `Math.round(… / 1000)` of the milliseconds from t to now
abbrev pub seconds_since : ℕ → ℕ → ℤ
seconds_since now t =
    if leb t (now + 500)
    then pos ((now + 500 - t) / 1000)
    else negsuc ((t - (now + 500) - 1) / 1000)

abbrev pub at_least_zero : ℤ → ℕ
at_least_zero (pos n) = n
at_least_zero (negsuc n) = 0

abbrev pub age_of : ℕ → Option ℕ → Option ℤ
age_of now none = none
age_of now (some t) = some (seconds_since now t)

abbrev pub unfinished_age : Option ℤ → Option ℕ
unfinished_age none = none
unfinished_age (some z) = some (at_least_zero z)

abbrev pub is_unfinished : OutboxEvent → Bool
is_unfinished r = is_pending r.state || is_leased r.state

unfoldable pub outbox_lag : ℕ → Outbox → OutboxLag
outbox_lag now rows = record {
  pending = count_where (λ r. is_pending r.state) rows;
  due = count_where (is_due now) rows;
  leased = count_where (λ r. is_leased r.state) rows;
  expired_leases = count_where (λ r. is_leased r.state && before r.lease_until now) rows;
  dead = count_where (λ r. is_dead r.state) rows;
  oldest_pending_seconds = age_of now (oldest_where (λ r. is_pending r.state) rows);
  oldest_unfinished_seconds = unfinished_age (age_of now (oldest_where is_unfinished rows));
}

-- most attempts first
unfoldable pub retrying_outbox : ℕ → Outbox → Outbox
retrying_outbox limit rows = take limit (
    sort_by (λ (a b : OutboxEvent). compare b.attempts a.attempts)
      (keep (λ r. is_unfinished r && ltb 0 r.attempts) rows))

abbrev pub is_dispatched : OutboxState → Bool
is_dispatched dispatched = true
is_dispatched _ = false

free_rows :
    (now : ℕ) (rows : Outbox)
    → keep (λ r. is_due now r && not (contains r.id [])) rows ≡ keep (is_due now) rows
free_rows now [] = refl
free_rows now (r ∷ rows) = elim (Bool-cases (is_due now r)) [
  | inl e ↦ rw e (ap (λ l. r ∷ l) (free_rows now rows))
  | inr e ↦ rw e (free_rows now rows)
]

-- The counter `due` is the number of events that the next pass of the dispatcher takes, when no
-- other transaction holds rows locked and the pass has room for all of them.
pub outbox_lag_due :
    (args : LeaseArgs) (token : String) (rows : Outbox)
    → (outbox_lag args.now rows).due ≤ args.limit
    → length (lease_due_outbox args token [] rows).1 ≡ (outbox_lag args.now rows).due
unfolding outbox_lag count_where lease_due_outbox due_rows
outbox_lag_due args token rows fits =
    let order = λ (a b : OutboxEvent). compare a.next_attempt_at b.next_attempt_at in
    let sorted = length-sort_by order (keep (is_due args.now) rows) in
    length-map (to_leased_event token) _
    ∙ rw
        (
          free_rows args.now rows,
          take_all args.limit (sort_by order (keep (is_due args.now) rows)) (rw sorted fits),
        )
        sorted

-- Every row stands in exactly one of the counters of pending, leased and dead rows, or has been
-- dispatched; the expired leases are among the leased rows.
pub outbox_lag_counts :
    (now : ℕ) (rows : Outbox)
    → ((outbox_lag now rows).pending
          + (outbox_lag now rows).leased
          + (outbox_lag now rows).dead
          + count_where (λ r. is_dispatched r.state) rows
        ≡ length rows)
      × ((outbox_lag now rows).expired_leases ≤ (outbox_lag now rows).leased)
unfolding outbox_lag count_where
outbox_lag_counts now [] = (refl, omega arith)
outbox_lag_counts now (r ∷ rows) = ground (arith, outbox_lag_counts now rows)
