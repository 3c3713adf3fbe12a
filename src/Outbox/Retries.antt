-- ===== src/Outbox/Retries.antt =====
-- src/lib/intake/outbox.ts: the backoff between attempts, the attempt budget, replay, and the
-- event key as an idempotency key.
use mathlib.Core.List.{Memᴰ}
use native.Mathlib.Nat.{
  one-le-pow, two-pow-succ, pow-le-pow_right, div-lt_iff_lt-mul, mul-le-mul_left,
}
use ticketguy.Prelude.{
  ℕ, zero, suc, ◌+◌, ◌*◌, ◌/◌, ◌^◌, ◌≤◌, ◌<◌, ◌≡◌, ◌↔◌, ◌⊎◌, refl, String, Bool, true, false, none,
  List, [], ◌∷◌, map, min, arith, if◌then◌else◌, contains, inl, inr, leb, ◌||◌, ◌++◌, eq_iff,
  Bool-cases, subst,
}
use ticketguy.Prelude.Tables.{mem-update_where, mem-any}
use ticketguy.Outbox.{
  new_event, fail_row, replay_row, is_dead_row, is_due, OutboxEvent, Outbox, pending, dead,
  LeasedEvent, EnqueueArgs, backoff_base, backoff_seconds, is_exhausted, mark_failed, holds_lease,
  retry, died, replay_dead, attempt_budget, enqueue_outbox,
}

backoff_base-lower : (attempt : ℕ) → 1 ≤ attempt → 10 ≤ backoff_base attempt
unfolding backoff_base
backoff_base-lower zero h = absurd (omega arith)
backoff_base-lower (suc a) h = omega (arith, grows (min (suc a) 12) (omega arith))
  where
    grows : (n : ℕ) → 1 ≤ n → 2 ≤ 2 ^ n
    grows zero k = absurd (omega arith)
    grows (suc n) k = omega (arith, two-pow-succ n, one-le-pow n 2 (omega arith))

backoff_base_mono : (a b : ℕ) → a ≤ b → backoff_base a ≤ backoff_base b
unfolding backoff_base
backoff_base_mono a b h =
    omega
      (arith, pow-le-pow_right {n = 2} (omega arith) {i = min a 12} {j = min b 12} (omega arith))

backoff_base-upper : (attempt : ℕ) → backoff_base attempt ≤ 3600
unfolding backoff_base
backoff_base-upper attempt = omega arith

backoff_seconds-lower :
    (attempt num den : ℕ) → backoff_base attempt ≤ backoff_seconds attempt num den
unfolding backoff_seconds
backoff_seconds-lower attempt num den = omega arith

final_iff :
    (permanent : Bool) (budget attempts : ℕ)
    → ((if permanent || leb budget attempts then dead else pending) ≡ dead)
      ↔ ((permanent ≡ true) ⊎ (budget ≤ attempts))
final_iff permanent budget attempts = ground arith

final_cases :
    (b : Bool) → ((if b then dead else pending) ≡ pending) ⊎ ((if b then dead else pending) ≡ dead)
final_cases true = inr refl
final_cases false = inl refl

verdict_iff :
    (b : Bool) → ((if b then died else retry) ≡ died) ↔ ((if b then dead else pending) ≡ dead)
verdict_iff true = ground arith
verdict_iff false = ground arith

abbrev keys_of : Outbox → List String
keys_of = map (λ (r : OutboxEvent). r.event_key)

contains-append_last :
    (key : String) (rows : Outbox) (r : OutboxEvent)
    → r.event_key ≡ key
    → contains key (keys_of (rows ++ r ∷ [])) ≡ true
contains-append_last key [] r e = ground (arith, eq_iff r.event_key key)
contains-append_last key (x ∷ xs) r e = ground (arith, contains-append_last key xs r e)

jitter_bound : (num den m : ℕ) → num < den → m ≤ 150 → num * m / (5 * den) < 30
jitter_bound num den m h k =
    (div-lt_iff_lt-mul {k = 5 * den} (omega arith)).1
      (omega (arith, mul-le-mul_left {m = m} {n = 150} num k))

-- The wait before the next attempt is the exponential step plus less than thirty seconds of
-- jitter: from the first attempt on at least ten seconds, never shorter at a later attempt's step
-- than at an earlier one's, and never an hour and half a minute.
pub backoff_seconds_bounds :
    (attempt later num den : ℕ)
    → num < den
    → 1 ≤ attempt
    → attempt ≤ later
    → (10 ≤ backoff_seconds attempt num den)
      × (backoff_base attempt ≤ backoff_seconds attempt num den)
      × (backoff_seconds attempt num den < backoff_base attempt + 30)
      × (backoff_seconds attempt num den < 3630)
      × (backoff_base attempt ≤ backoff_seconds later num den)
unfolding backoff_seconds
backoff_seconds_bounds attempt later num den h one le = omega (
  arith,
  jitter_bound num den (min 150 (backoff_base attempt)) h (omega arith),
  backoff_base-lower attempt one,
  backoff_base_mono attempt later le,
  backoff_base-upper attempt,
)

-- What a held row becomes when its work fails: dead when the failure is permanent or the attempts
-- have reached the budget of the event's type, pending otherwise; the next attempt is then not due
-- before the backoff is over, the lease is gone, and the worker is told the same verdict.
pub mark_failed_verdict :
    (ev : LeasedEvent) (error : List ℕ) (now : ℕ) (permanent : Bool) (num den : ℕ) (rows : Outbox)
    (r : OutboxEvent)
    → Memᴰ r rows
    → holds_lease ev.id ev.lease_token r ≡ true
    → (u : OutboxEvent) × Memᴰ u (mark_failed ev error now permanent num den rows).0
      × (u.id ≡ r.id)
      × (u.lease_token ≡ none)
      × (now + backoff_base ev.attempts * 1000 ≤ u.next_attempt_at)
      × ((u.state ≡ dead) ↔ ((permanent ≡ true) ⊎ (attempt_budget ev.event_type ≤ ev.attempts)))
      × ((u.state ≡ pending) ⊎ (u.state ≡ dead))
      × (((mark_failed ev error now permanent num den rows).1 ≡ died) ↔ (u.state ≡ dead))
unfolding mark_failed is_exhausted
mark_failed_verdict ev error now permanent num den rows r m held =
    let is_final = permanent || leb (attempt_budget ev.event_type) ev.attempts in
    let u = fail_row is_final error (now + backoff_seconds ev.attempts num den * 1000) r in
    (
      u,
      rw held at (
          mem-update_where (holds_lease ev.id ev.lease_token)
            (fail_row is_final error (now + backoff_seconds ev.attempts num den * 1000)) rows m),
      refl,
      refl,
      omega (arith, backoff_seconds-lower ev.attempts num den),
      final_iff permanent (attempt_budget ev.event_type) ev.attempts,
      final_cases is_final,
      verdict_iff is_final,
    )

-- Enqueuing a second time under the same event key inserts nothing and changes nothing, whatever
-- the second call carries besides the key.
pub enqueue_outbox_idempotent :
    (first second : EnqueueArgs) (id id' : String) (wall wall' : ℕ) (rows : Outbox)
    → first.event_key ≡ second.event_key
    → enqueue_outbox second id' wall' (enqueue_outbox first id wall rows).0
      ≡ ((enqueue_outbox first id wall rows).0, record { inserted = false; id = none })
unfolding enqueue_outbox
enqueue_outbox_idempotent first second id id' wall wall' rows same =
    elim (Bool-cases (contains first.event_key (keys_of rows))) [
      | inl old ↦ rw old (rw (subst (λ k. contains k (keys_of rows) ≡ true) same old))
      | inr new ↦ rw new (
          rw (
            subst (λ k. contains k (keys_of (rows ++ new_event first id wall ∷ [])) ≡ true) same
              (contains-append_last first.event_key rows (new_event first id wall) refl)))
    ]

-- A replay changes a row only if it is dead and carries the id; such a row is pending and due at
-- once with all its attempts, and keeps its event key. Every other row stays as it is.
pub replay_dead_lem :
    (id : String) (now : ℕ) (rows : Outbox) (r : OutboxEvent)
    → Memᴰ r rows
    → (u : OutboxEvent) × Memᴰ u (replay_dead id now rows).0
      × (u.event_key ≡ r.event_key)
      × (((r.id ≡ id)
            × (r.state ≡ dead)
            × (is_due now u ≡ true)
            × (u.attempts ≡ 0)
            × ((replay_dead id now rows).1 ≡ true))
          ⊎ (¬ ((r.id ≡ id) × (r.state ≡ dead)) × (u ≡ r)))
unfolding replay_dead
replay_dead_lem id now rows r m = elim (Bool-cases (is_dead_row id r)) [
  | inl e ↦ (
    replay_row now r,
    rw e at (mem-update_where (is_dead_row id) (replay_row now) rows m),
    refl,
    inl (
      (eq_iff r.id id).0 (ground arith),
      ground arith,
      ground arith,
      refl,
      mem-any (is_dead_row id) rows m e,
    ),
  )
  | inr e ↦ (
    r,
    rw e at (mem-update_where (is_dead_row id) (replay_row now) rows m),
    refl,
    inr ((λ h. ground (arith, eq_iff r.id id)), refl),
  )
]
