-- ===== src/Outbox/Lifecycle.antt =====
-- src/lib/intake/outbox.ts: the steps that the application takes on outbox_events, the invariant
-- that every reachable table has, and the state changes that one step can make.
use mathlib.Core.List.Memᴰ
use mathlib.Core.List.{Memᴰ}
use ticketguy.Prelude.{
  ℕ, ◌≤◌, ◌≡◌, refl, ap, String, Bool, true, false, Option, none, some, List, [], ◌∷◌, ◌++◌, map,
  arith, if◌then◌else◌, is_some, length, length-take, contains, All, All-append, Bool-cases, inl,
  inr,
}
use ticketguy.Prelude.Tables.{
  update_where, update_where-All, map-update_where, mem-update_where, Distinct,
  Distinct-append_fresh, All-mem,
}
use ticketguy.Outbox.Leases.{mem-due_rows, selected_iff}
use ticketguy.Outbox.{
  OutboxEvent, Outbox, OutboxState, pending, leased, dispatched, dead, EnqueueArgs, LeaseArgs,
  LeasedEvent, enqueue_outbox, new_event, lease_due_outbox, lease_row, lease_until_of,
  mark_dispatched, dispatch_row, holds_lease, mark_failed, fail_row, is_exhausted, replay_dead,
  replay_row, is_dead_row, is_leased, is_due, drop_removed, is_removed_row, remove_row,
}

abbrev pub is_dispatched : OutboxState → Bool
is_dispatched dispatched = true
is_dispatched _ = false

abbrev pub ErrorFits : Option (List ℕ) → Type 0
ErrorFits none = Unit
ErrorFits (some text) = length text ≤ 2000

-- What every row keeps: the lease columns are filled exactly while the row is leased, the
-- dispatch instant exactly when it is dispatched, and the error's text is cut.
pub record IsConsistent (r : OutboxEvent) : Type 0 where
  pub token : is_some r.lease_token ≡ is_leased r.state
  pub until : is_some r.lease_until ≡ is_leased r.state
  pub sent : is_some r.dispatched_at ≡ is_dispatched r.state
  pub error : ErrorFits r.last_error

pub record IsSound (rows : Outbox) : Type 0 where
  pub consistent : All IsConsistent rows
  pub keys : Distinct (map (λ (r : OutboxEvent). r.event_key) rows)
  pub ids : Distinct (map (λ (r : OutboxEvent). r.id) rows)

-- One statement of the application on the table: the operations of outbox.ts, and the update of
-- removeRequests (lib/admin/remove-requests.ts), whose reason is a short text. An inserted row has an
-- id that no row has.
pub data Step : Outbox → Outbox → Type 0 where
  enqueues :
      (args : EnqueueArgs) (id : String) (wall : ℕ) (rows : Outbox)
      → contains id (map (λ (r : OutboxEvent). r.id) rows) ≡ false
      → Step rows (enqueue_outbox args id wall rows).0
  leases :
      (args : LeaseArgs) (token : String) (locked : List String) (rows : Outbox)
      → Step rows (lease_due_outbox args token locked rows).0
  dispatches :
      (id token : String) (now : ℕ) (rows : Outbox)
      → Step rows (mark_dispatched id token now rows).0
  fails :
      (ev : LeasedEvent) (error : List ℕ) (now : ℕ) (permanent : Bool) (num den : ℕ) (rows : Outbox)
      → Step rows (mark_failed ev error now permanent num den rows).0
  replays : (id : String) (now : ℕ) (rows : Outbox) → Step rows (replay_dead id now rows).0
  removes :
      (ids : List String) (reason : List ℕ) (rows : Outbox)
      → length reason ≤ 2000
      → Step rows (drop_removed ids reason rows)

pub data Reach : Outbox → Outbox → Type 0 where
  here : (rows : Outbox) → Reach rows rows
  next : {s t u : Outbox} → Reach s t → Step t u → Reach s u

new_event-IsConsistent :
    (args : EnqueueArgs) (id : String) (wall : ℕ) → IsConsistent (new_event args id wall)
new_event-IsConsistent args id wall = record { token = refl; until = refl; sent = refl; error = tt }

lease_row-IsConsistent :
    (token : String) (until : ℕ) (r : OutboxEvent)
    → is_dispatched r.state ≡ false
    → IsConsistent r
    → IsConsistent (lease_row token until r)
lease_row-IsConsistent token until r h c = record {
  token = refl;
  until = refl;
  sent = ground arith;
  error = c.error;
}

fail_row-IsConsistent :
    (is_final : Bool) (error : List ℕ) (next_at : ℕ) (r : OutboxEvent)
    → is_leased r.state ≡ true
    → IsConsistent r
    → IsConsistent (fail_row is_final error next_at r)
fail_row-IsConsistent true error next_at r h c = record {
  token = refl;
  until = refl;
  sent = ground arith;
  error = length-take 2000 error;
}
fail_row-IsConsistent false error next_at r h c = record {
  token = refl;
  until = refl;
  sent = ground arith;
  error = length-take 2000 error;
}

-- A row that answers to a lease token is leased.
pub holds_lease-leased :
    (id token : String) (r : OutboxEvent)
    → IsConsistent r
    → holds_lease id token r ≡ true
    → is_leased r.state ≡ true
holds_lease-leased id token r c h = ground arith

due-not-dispatched :
    (now : ℕ) (r : OutboxEvent) → is_due now r ≡ true → is_dispatched r.state ≡ false
due-not-dispatched now r h = ground arith

dead-no-lease :
    (id : String) (now : ℕ) (r : OutboxEvent)
    → is_dead_row id r ≡ true
    → IsConsistent r
    → IsConsistent (replay_row now r)
dead-no-lease id now r h c = record {
  token = ground (arith, c.token);
  until = ground (arith, c.until);
  sent = ground (arith, c.sent);
  error = tt;
}

removed-IsConsistent :
    (ids : List String) (reason : List ℕ) (r : OutboxEvent)
    → length reason ≤ 2000
    → is_removed_row ids r ≡ true
    → IsConsistent r
    → IsConsistent (remove_row reason r)
removed-IsConsistent ids reason r short h c = record {
  token = ground (arith, c.token);
  until = ground (arith, c.until);
  sent = ground (arith, c.sent);
  error = short;
}

map-append_last {ℓ κ} :
    {A : Type ℓ} {B : Type κ} (f : A → B) (xs : List A) (x : A)
    → map f (xs ++ x ∷ []) ≡ map f xs ++ f x ∷ []
map-append_last f [] x = refl
map-append_last f (y ∷ ys) x = ap (λ l. f y ∷ l) (map-append_last f ys x)

-- An update that keeps the unique columns and the consistency of the rows that it writes.
update_where-IsSound :
    (p : OutboxEvent → Bool) (f : OutboxEvent → OutboxEvent) (rows : Outbox)
    → ((r : OutboxEvent) → (f r).event_key ≡ r.event_key)
    → ((r : OutboxEvent) → (f r).id ≡ r.id)
    → ((r : OutboxEvent) → Memᴰ r rows → p r ≡ true → IsConsistent r → IsConsistent (f r))
    → IsSound rows
    → IsSound (update_where p f rows)
update_where-IsSound p f rows key id keeps s = record {
  consistent = update_where-All IsConsistent p f rows keeps s.consistent;
  keys = rw (map-update_where (λ (r : OutboxEvent). r.event_key) p f key rows) s.keys;
  ids = rw (map-update_where (λ (r : OutboxEvent). r.id) p f id rows) s.ids;
}

Step-IsSound : {s t : Outbox} → Step s t → IsSound s → IsSound t
unfolding enqueue_outbox lease_due_outbox mark_dispatched mark_failed replay_dead drop_removed
Step-IsSound (enqueues args id wall rows fresh) s =
    elim (Bool-cases (contains args.event_key (map (λ (r : OutboxEvent). r.event_key) rows))) [
      | inl e ↦ rw e s
      | inr e ↦ rw e (record {
        consistent =
            All-append IsConsistent rows _ s.consistent (new_event-IsConsistent args id wall, tt);
        keys =
            rw (map-append_last (λ (r : OutboxEvent). r.event_key) rows (new_event args id wall))
              (Distinct-append_fresh _ args.event_key s.keys e);
        ids =
            rw (map-append_last (λ (r : OutboxEvent). r.id) rows (new_event args id wall))
              (Distinct-append_fresh _ id s.ids fresh);
      })
    ]
Step-IsSound (leases args token locked rows) s =
    update_where-IsSound _ _ rows (λ r. refl) (λ r. refl)
      (λ r m chosen c.
        let due =
          (mem-due_rows args locked rows (selected_iff args locked rows s.ids m chosen)).1 in
        lease_row-IsConsistent token (lease_until_of args) r (due-not-dispatched args.now r due) c)
      s
Step-IsSound (dispatches id token now rows) s =
    update_where-IsSound _ _ rows (λ r. refl) (λ r. refl)
      (λ r m held c. record { token = refl; until = refl; sent = refl; error = c.error }) s
Step-IsSound (fails ev error now permanent num den rows) s =
    update_where-IsSound _ _ rows (λ r. refl) (λ r. refl)
      (λ r m held c.
        fail_row-IsConsistent (is_exhausted ev permanent) error _ r
          (holds_lease-leased ev.id ev.lease_token r c held) c)
      s
Step-IsSound (replays id now rows) s =
    update_where-IsSound _ _ rows (λ r. refl) (λ r. refl)
      (λ r m found c. dead-no-lease id now r found c) s
Step-IsSound (removes ids reason rows short) s =
    update_where-IsSound _ _ rows (λ r. refl) (λ r. refl)
      (λ r m found c. removed-IsConsistent ids reason r short found c) s

-- From a sound table, whatever enqueues, leases, dispatches, failures, replays and removals of
-- requests there are and in whatever order, the table stays sound: event keys and ids are unique,
-- the lease columns are filled exactly while a row is leased, the dispatch instant exactly when it
-- is dispatched, and error texts are cut at 2000.
pub Reach-IsSound : {s t : Outbox} → Reach s t → IsSound s → IsSound t
Reach-IsSound (here rows) h = h
Reach-IsSound (next path step) h = Step-IsSound step (Reach-IsSound path h)

-- The state changes of one call, the state itself included.
abbrev pub may_follow : OutboxState → OutboxState → Bool
may_follow pending pending = true
may_follow pending leased = true
may_follow pending dead = true
may_follow leased _ = true
may_follow dispatched dispatched = true
may_follow dead dead = true
may_follow dead pending = true
may_follow _ _ = false

-- The row `u` is the row `r` one call later.
pub record Succeeds (r u : OutboxEvent) : Type 0 where
  pub id : u.id ≡ r.id
  pub key : u.event_key ≡ r.event_key
  pub payload : u.payload ≡ r.payload
  pub state : may_follow r.state u.state ≡ true

Succeeds-refl : (r : OutboxEvent) → Succeeds r r
Succeeds-refl r = record { id = refl; key = refl; payload = refl; state = follows_self r.state }
  where
    follows_self : (s : OutboxState) → may_follow s s ≡ true
    follows_self pending = refl
    follows_self _ = refl

Succeeds-if :
    (b : Bool) (f : OutboxEvent → OutboxEvent) (r : OutboxEvent)
    → (b ≡ true → Succeeds r (f r))
    → Succeeds r (if b then f r else r)
Succeeds-if true f r h = h refl
Succeeds-if false f r h = Succeeds-refl r

leased-may_follow : (s u : OutboxState) → is_leased s ≡ true → may_follow s u ≡ true
leased-may_follow s u h = ground arith

due-may_follow :
    (now : ℕ) (r : OutboxEvent) → is_due now r ≡ true → may_follow r.state leased ≡ true
due-may_follow now r h = ground arith

dead-may_follow :
    (id : String) (r : OutboxEvent) → is_dead_row id r ≡ true → may_follow r.state pending ≡ true
dead-may_follow id r h = ground arith

pending-may_follow :
    (ids : List String) (r : OutboxEvent)
    → is_removed_row ids r ≡ true
    → may_follow r.state dead ≡ true
pending-may_follow ids r h = ground arith

updated :
    (p : OutboxEvent → Bool) (f : OutboxEvent → OutboxEvent) {r : OutboxEvent} (rows : Outbox)
    → Memᴰ r rows
    → (p r ≡ true → Succeeds r (f r))
    → (u : OutboxEvent) × Memᴰ u (update_where p f rows) × Succeeds r u
updated p f {r} rows m h = (_, mem-update_where p f rows m, Succeeds-if (p r) f r h)

-- No call loses a row or changes its id, key or payload, and its state moves only as
-- `may_follow` says: a dispatched row stays dispatched, a dead one stays dead or is pending again,
-- a pending one is leased or dropped, and only a leased row is dispatched, put back or given up.
pub Step-Succeeds :
    {s t : Outbox} {r : OutboxEvent}
    → Step s t
    → IsSound s
    → Memᴰ r s
    → (u : OutboxEvent) × Memᴰ u t × Succeeds r u
unfolding enqueue_outbox lease_due_outbox mark_dispatched mark_failed replay_dead drop_removed
Step-Succeeds {r} (enqueues args id wall rows fresh) s m =
    elim (Bool-cases (contains args.event_key (map (λ (x : OutboxEvent). x.event_key) rows))) [
      | inl e ↦ rw e (r, m, Succeeds-refl r)
      | inr e ↦ rw e (r, Memᴰ.append_left _ m, Succeeds-refl r)
    ]
Step-Succeeds {r} (leases args token locked rows) s m = updated _ _ rows m λ chosen.
    let due = (mem-due_rows args locked rows (selected_iff args locked rows s.ids m chosen)).1 in
    record { id = refl; key = refl; payload = refl; state = due-may_follow args.now r due }
Step-Succeeds {r} (dispatches id token now rows) s m =
    updated _ _ rows m λ held. held_step id token held (All-mem IsConsistent rows s.consistent m)
  where
    held_step :
        (id token : String)
        → holds_lease id token r ≡ true
        → IsConsistent r
        → Succeeds r (dispatch_row now r)
    held_step id token held c = record {
      id = refl;
      key = refl;
      payload = refl;
      state = leased-may_follow r.state dispatched (holds_lease-leased id token r c held);
    }
Step-Succeeds {r} (fails ev error now permanent num den rows) s m = updated _ _ rows m λ held.
    let c = All-mem IsConsistent rows s.consistent m in
    record {
      id = refl;
      key = refl;
      payload = refl;
      state = leased-may_follow r.state _ (holds_lease-leased ev.id ev.lease_token r c held);
    }
Step-Succeeds {r} (replays id now rows) s m =
    updated _ _ rows m
      λ found. record { id = refl; key = refl; payload = refl; state = dead-may_follow id r found }
Step-Succeeds {r} (removes ids reason rows short) s m = updated _ _ rows m λ found. record {
  id = refl;
  key = refl;
  payload = refl;
  state = pending-may_follow ids r found;
}
