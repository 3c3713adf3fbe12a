-- ===== src/Outbox/Leases.antt =====
-- src/lib/intake/outbox.ts: which rows `leaseDueOutbox` takes, what it hands out, and what the
-- token of a lost lease can still do.
use mathlib.Core.List.Memᴰ
use mathlib.Core.List.{Memᴰ}
use ticketguy.Prelude.{
  ℕ, ◌≤◌, ◌≡◌, ◌≢◌, refl, sym, ap, subst, ◌∙◌, String, Bool, true, false, not, ◌&&◌, some, List,
  map, compare, Ordering, arith, if◌then◌else◌, length, length-take, length-map, keep, contains,
  Bool-cases, inl, inr, eq_iff, str_eq, any,
}
use ticketguy.Prelude.Sorting.{sort_by}
use ticketguy.Prelude.Tables.{
  mem-update_where, update_where_none, All-update_where, any_none, mem-take, take_all, mem-sort_by,
  sort_by-mem, length-sort_by, mem-keep, keep-mem, contains-map, map-contains, Distinct,
  Distinct-row,
}
use ticketguy.Outbox.{
  OutboxEvent, Outbox, LeaseArgs, LeasedEvent, leased, is_due, due_rows, lease_due_outbox,
  lease_row, lease_until_of, to_leased_event, mark_dispatched, mark_failed, holds_lease,
}

abbrev pub ids_of : Outbox → List String
ids_of = map (λ (r : OutboxEvent). r.id)

-- the rows that the statement chooses from, and their order
abbrev candidates : LeaseArgs → List String → Outbox → Outbox
candidates args locked = keep (λ r. is_due args.now r && not (contains r.id locked))

abbrev by_next_attempt : OutboxEvent → OutboxEvent → Ordering
by_next_attempt a b = compare a.next_attempt_at b.next_attempt_at

clash : {b : Bool} → b ≡ false → b ≡ true → ⊥
clash p q = cc

still_leased :
    (now : ℕ) (r : OutboxEvent) (until : ℕ)
    → r.state ≡ leased
    → r.lease_until ≡ some until
    → now ≤ until
    → is_due now r ≡ false
still_leased now r until held lease live = ground arith

module _ (args : LeaseArgs) (locked : List String) (rows : Outbox) where
  -- What stands among the due rows is a row of the table that is due and not locked.
  pub mem-due_rows :
      {r : OutboxEvent}
      → Memᴰ r (due_rows args locked rows)
      → Memᴰ r rows × (is_due args.now r ≡ true) × (contains r.id locked ≡ false)
  unfolding due_rows
  mem-due_rows {r} m =
      let (kept, passed) = mem-keep _ rows (mem-sort_by _ _ (mem-take args.limit _ m)) in
      (kept, ground arith, ground arith)

  length-due_rows : length (due_rows args locked rows) ≤ args.limit
  unfolding due_rows
  length-due_rows = length-take args.limit _

  -- With room for all of them, every due and unlocked row is taken.
  due_rows-mem :
      {r : OutboxEvent}
      → length (candidates args locked rows) ≤ args.limit
      → Memᴰ r rows
      → is_due args.now r ≡ true
      → contains r.id locked ≡ false
      → Memᴰ r (due_rows args locked rows)
  unfolding due_rows
  due_rows-mem {r} fits m due free =
      let sorted = sort_by by_next_attempt (candidates args locked rows) in
      let all = take_all args.limit sorted (rw (length-sort_by by_next_attempt) fits) in
      rw all (sort_by-mem by_next_attempt _ (keep-mem _ rows m (rw (due, free) refl)))

  -- In a table with distinct ids the update touches a row exactly when it is among the due ones.
  pub selected_iff :
      {r : OutboxEvent}
      → Distinct (ids_of rows)
      → Memᴰ r rows
      → contains r.id (ids_of (due_rows args locked rows)) ≡ true
      → Memᴰ r (due_rows args locked rows)
  selected_iff {r} d m h =
      let (q, mq, e) =
        contains-map (λ (x : OutboxEvent). x.id) r.id (due_rows args locked rows) h in
      let same = Distinct-row (λ (x : OutboxEvent). x.id) rows d (mem-due_rows mq).0 m e in
      rw (← same) mq

  not_selected :
      {r : OutboxEvent}
      → Distinct (ids_of rows)
      → Memᴰ r rows
      → is_due args.now r ≡ false
      → contains r.id (ids_of (due_rows args locked rows)) ≡ false
  not_selected {r} d m h = elim (Bool-cases (contains r.id (ids_of (due_rows args locked rows)))) [
    | inl e ↦ absurd (clash h (mem-due_rows (selected_iff d m e)).1)
    | inr e ↦ e
  ]

  module _ (token : String) where
    -- the row after the statement, by whether it was among the due ones
    mem-lease_due_outbox :
        {r : OutboxEvent}
        → Memᴰ r rows
        → Memᴰ
            (if contains r.id (ids_of (due_rows args locked rows))
              then lease_row token (lease_until_of args) r
              else r)
            (lease_due_outbox args token locked rows).0
    unfolding lease_due_outbox
    mem-lease_due_outbox m = mem-update_where _ _ rows m

    mem-leased :
        {r : OutboxEvent}
        → Memᴰ r (due_rows args locked rows)
        → Memᴰ (lease_row token (lease_until_of args) r) (lease_due_outbox args token locked rows).0
    mem-leased {r} m =
        let chosen = map-contains (λ (x : OutboxEvent). x.id) r.id _ m refl in
        rw chosen at (mem-lease_due_outbox (mem-due_rows m).0)

    handed_out :
        {ev : LeasedEvent}
        → Memᴰ ev (lease_due_outbox args token locked rows).1
        → (q : OutboxEvent) × Memᴰ q (due_rows args locked rows) × (q.id ≡ ev.id)
    unfolding lease_due_outbox
    handed_out m =
        let (q, mq, e) = Memᴰ.of_map (to_leased_event token) _ m in (q, mq, ap (λ x. x.id) e)

    holds_other :
        (old id : String) (until : ℕ) (r : OutboxEvent)
        → old ≢ token
        → holds_lease id old (lease_row token until r) ≡ false
    holds_other old id until r other = ground (arith, eq_iff token old)

    -- Nobody else's token answers for a row that was just leased.
    no_holder :
        (old : String) {q : OutboxEvent}
        → Distinct (ids_of rows)
        → Memᴰ q (due_rows args locked rows)
        → old ≢ token
        → any (holds_lease q.id old) (lease_due_outbox args token locked rows).0 ≡ false
    unfolding lease_due_outbox
    no_holder old {q} d mq other =
        any_none _ _ (All-update_where (λ r. holds_lease q.id old r ≡ false) _ _ rows each)
      where
        chosen : OutboxEvent → Bool
        chosen r = contains r.id (ids_of (due_rows args locked rows))

        same_row : (r : OutboxEvent) → str_eq r.id q.id ≡ true → chosen r ≡ true
        same_row r e =
            map-contains (λ (x : OutboxEvent). x.id) r.id _ mq (sym ((eq_iff r.id q.id).0 e))

        each :
            (r : OutboxEvent)
            → Memᴰ r rows
            → holds_lease q.id old (if chosen r then lease_row token (lease_until_of args) r else r)
              ≡ false
        each r m = elim (Bool-cases (str_eq r.id q.id)) [
          | inl e ↦ rw (same_row r e) (holds_other old q.id (lease_until_of args) r other)
          | inr e ↦ ground arith
        ]

-- At most `limit` events are handed out, and each belongs to a row of the table that was due and
-- not locked: pending, or leased with a lease that has run out, with its next attempt reached.
-- The row then carries the new token, the new lease and one more attempt.
pub lease_due_outbox_sound :
    (args : LeaseArgs) (token : String) (locked : List String) (rows : Outbox) (ev : LeasedEvent)
    → Memᴰ ev (lease_due_outbox args token locked rows).1
    → (r : OutboxEvent) × Memᴰ r rows
      × (is_due args.now r ≡ true)
      × (contains r.id locked ≡ false)
      × (ev ≡ to_leased_event token r)
      × Memᴰ (lease_row token (lease_until_of args) r) (lease_due_outbox args token locked rows).0
      × (length (lease_due_outbox args token locked rows).1 ≤ args.limit)
unfolding lease_due_outbox
lease_due_outbox_sound args token locked rows ev m =
    let (r, mr, e) = Memᴰ.of_map (to_leased_event token) _ m in
    let (kept, due, free) = mem-due_rows args locked rows mr in
    let fits : length (map (to_leased_event token) (due_rows args locked rows)) ≤ args.limit =
      rw length-map (length-due_rows args locked rows) in
    (r, kept, due, free, sym e, mem-leased args locked rows token mr, fits)

-- When the due, unlocked rows fit the limit, every one of them is leased and handed out.
pub lease_due_outbox_complete :
    (args : LeaseArgs) (token : String) (locked : List String) (rows : Outbox) (r : OutboxEvent)
    → length (keep (λ (x : OutboxEvent). is_due args.now x && not (contains x.id locked)) rows)
      ≤ args.limit
    → Memᴰ r rows
    → is_due args.now r ≡ true
    → contains r.id locked ≡ false
    → Memᴰ (to_leased_event token r) (lease_due_outbox args token locked rows).1
      × Memᴰ (lease_row token (lease_until_of args) r) (lease_due_outbox args token locked rows).0
unfolding lease_due_outbox
lease_due_outbox_complete args token locked rows r fits m due free =
    let taken = due_rows-mem args locked rows fits m due free in
    (Memᴰ.map (to_leased_event token) taken, mem-leased args locked rows token taken)

-- A lease that has not run out protects its row: whoever leases next, under whatever limit, the
-- row stays as it is and is not handed out.
pub lease_exclusive :
    (args : LeaseArgs) (token : String) (locked : List String) (rows : Outbox) (r : OutboxEvent)
    (until : ℕ)
    → Distinct (ids_of rows)
    → Memᴰ r rows
    → r.state ≡ leased
    → r.lease_until ≡ some until
    → args.now ≤ until
    → Memᴰ r (lease_due_outbox args token locked rows).0
      × ((ev : LeasedEvent) → Memᴰ ev (lease_due_outbox args token locked rows).1 → ev.id ≢ r.id)
lease_exclusive args token locked rows r until d m held lease live =
    let spared =
      not_selected args locked rows d m (still_leased args.now r until held lease live) in
    (
      rw spared at (mem-lease_due_outbox args locked rows token m),
      λ ev me same.
          let (q, mq, due, free, from, new, short) =
            lease_due_outbox_sound args token locked rows ev me in
          let one =
            Distinct-row (λ (x : OutboxEvent). x.id) rows d mq m
              (sym (ap (λ e. e.id) from) ∙ same) in
          clash (still_leased args.now r until held lease live) (rw one at due),
    )

-- Fencing. Once a row has been leased anew, a worker that still holds an older token for it can
-- neither mark it dispatched nor mark it failed: the table stays as it is.
pub lost_lease :
    (args : LeaseArgs) (token old : String) (locked : List String) (rows : Outbox)
    (ev : LeasedEvent) (error : List ℕ) (now : ℕ) (permanent : Bool) (num den : ℕ)
    → Distinct (ids_of rows)
    → Memᴰ ev (lease_due_outbox args token locked rows).1
    → old ≢ token
    → (mark_dispatched ev.id old now (lease_due_outbox args token locked rows).0
        ≡ ((lease_due_outbox args token locked rows).0, false))
      × ((mark_failed
            (record ev { lease_token = old })
            error
            now
            permanent
            num
            den
            (lease_due_outbox args token locked rows).0).0
          ≡ (lease_due_outbox args token locked rows).0)
unfolding mark_dispatched mark_failed
lost_lease args token old locked rows ev error now permanent num den d m other =
    let (q, mq, e) = handed_out args locked rows token m in
    let none_holds =
      subst (λ i. any (holds_lease i old) (lease_due_outbox args token locked rows).0 ≡ false) e
        (no_holder args locked rows token old d mq other) in
    ((rw (none_holds, update_where_none _ _ _ none_holds) refl), update_where_none _ _ _ none_holds)
