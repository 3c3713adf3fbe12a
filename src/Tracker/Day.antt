-- ===== src/Tracker/Day.antt =====
-- src/lib/market/tracker.ts: a day of the tracker, whose operations run one after the other: reads
-- that reserve their call and finish it, and operations that log what they spent.
use ticketguy.Prelude.{
  ℕ, ◌+◌, ◌-◌, ◌≤◌, ◌≡◌, sym, Bool, true, false, none, some, List, [], ◌∷◌, ◌++◌, arith, inl, inr,
  str_eq, All, Bool-cases, if◌then◌else◌,
}
use ticketguy.Tracker.{
  Lane, customer, background, is_background, FetchStatus, reserved, Fetch, FetchArgs, CallLimits,
  Slot, Purpose, live, history, day_start, is_history, calls_of, calls_left, has_room,
  background_cap, live_row, live_background_row, fetch_row, log, reserve, finish, call_cap,
}
use ticketguy.Tracker.Allowance.{
  calls_of-append, background_parts, lane_parts, live_customer_row, taken, none_more,
  reserve-customer_refused,
}
use ticketguy.Tracker.Spending.{finish_last, calls_left-live, granted, finish-reserve_within}

-- The allowance that a row's calls are taken from.
abbrev pub purpose_of : Fetch → Purpose
purpose_of r = if is_history r then history else live

-- What one operation makes of the day's rows: a read whose call is reserved, and whose row is then
-- finished with what it spent; a read whose call is refused; and any other operation (matching,
-- polling, the request for a rescan, the group listings, the history), whose client starts with
-- every call of its own logged, keeps to its cap, and logs what it made.
pub data Operates (limits : CallLimits) (day : ℕ) : List Fetch → List Fetch → Type 0 where
  reads :
      (args : FetchArgs) (rows : List Fetch) (status : FetchStatus) (calls points : ℕ) (slot : Slot)
      → day_start args.now ≡ day
      → All (λ (r : Fetch). str_eq r.id args.id ≡ false) rows
      → is_history (fetch_row args reserved 1 0) ≡ false
      → (reserve limits args rows).1 ≡ some slot
      → calls ≤ slot.attempts
      → Operates limits day rows (finish slot.id status calls points (reserve limits args rows).0)
  refused :
      (args : FetchArgs) (rows : List Fetch)
      → (reserve limits args rows).1 ≡ none
      → Operates limits day rows (reserve limits args rows).0
  spends :
      (args : FetchArgs) (rows : List Fetch) (status : FetchStatus) (client calls points : ℕ)
      → day_start args.now ≡ day
      → client + calls
        ≤ call_cap limits args.lane args.now
            (purpose_of (fetch_row args status calls points))
            client
            client
            rows
      → Operates limits day rows (log args status calls points rows)

pub data Ran (limits : CallLimits) (day : ℕ) (start : List Fetch) : List Fetch → Type 0 where
  here : Ran limits day start start
  next :
      {rows after : List Fetch}
      → Ran limits day start rows
      → Operates limits day rows after
      → Ran limits day start after

-- The day's live calls are within the limit, and the background's within its share.
abbrev pub IsWithin : CallLimits → ℕ → List Fetch → Type 0
IsWithin limits day rows =
    (calls_of (live_row day) rows ≤ limits.daily)
    × (calls_of (live_background_row day) rows ≤ background_cap limits.daily)

one_row :
    (p : Fetch → Bool) (rows : List Fetch) (r : Fetch)
    → calls_of p (rows ++ r ∷ []) ≡ calls_of p rows + (if p r then r.calls else 0)
unfolding calls_of
one_row p rows r = let end = calls_of-append p rows (r ∷ []) in omega (arith, end)

calls_left-background :
    (limits : CallLimits) (lane : Lane) (now : ℕ) (rows : List Fetch)
    → is_background lane ≡ true
    → calls_left limits lane now live rows
      ≤ background_cap limits.daily - calls_of (live_background_row (day_start now)) rows
unfolding calls_left
calls_left-background limits customer now rows h = absurd (cc h)
calls_left-background limits background now rows h =
    omega (arith, background_parts (day_start now) rows)

module _ (limits : CallLimits) (args : FetchArgs) (rows : List Fetch) where
  abbrev day : ℕ
  day = day_start args.now

  spends-IsWithin :
      (status : FetchStatus) (client calls points : ℕ)
      → client + calls
        ≤ call_cap limits args.lane args.now
            (purpose_of (fetch_row args status calls points))
            client
            client
            rows
      → IsWithin limits day rows
      → IsWithin limits day (log args status calls points rows)
  unfolding log call_cap
  spends-IsWithin status client calls points few (fits, shared) =
      let row = fetch_row args status calls points in
      let all = one_row (live_row day) rows row in
      let ours = one_row (live_background_row day) rows row in
      elim (Bool-cases (is_history row)) [
        | inl h ↦ (ground (arith, all, h), ground (arith, ours, h))
        | inr h ↦
            let left : calls ≤ calls_left limits args.lane args.now live rows =
              omega (arith, rw h at few) in
            let most = calls_left-live limits args.lane args.now rows in
            elim (Bool-cases (is_background args.lane)) [
              | inl b ↦
                  let share = calls_left-background limits args.lane args.now rows b in
                  (ground (arith, all, left, most), ground (arith, ours, left, share))
              | inr c ↦ (ground (arith, all, left, most), ground (arith, ours, c))
            ]
      ]

  refused-IsWithin :
      (d : ℕ)
      → (reserve limits args rows).1 ≡ none
      → IsWithin limits d rows
      → IsWithin limits d (reserve limits args rows).0
  unfolding reserve
  refused-IsWithin d h (fits, shared) =
      elim (Bool-cases (has_room limits args.lane args.now rows)) [
        | inl room ↦ absurd (cc (rw room at h))
        | inr full ↦ rw full (
          rw (none_more limits args rows (live_row d)) fits,
          rw (none_more limits args rows (live_background_row d)) shared,
        )
      ]

  -- A reserved read that is finished has spent no more of the background's share than was free.
  reads-background :
      (status : FetchStatus) (calls points : ℕ) (slot : Slot)
      → All (λ (r : Fetch). str_eq r.id args.id ≡ false) rows
      → is_history (fetch_row args reserved 1 0) ≡ false
      → (reserve limits args rows).1 ≡ some slot
      → calls ≤ slot.attempts
      → calls_of (live_background_row day) rows ≤ background_cap limits.daily
      → calls_of
          (live_background_row day)
          (finish slot.id status calls points (reserve limits args rows).0)
        ≤ background_cap limits.daily
  reads-background status calls points slot fresh kind h few shared =
      let (id_is, attempts_is, table_is, room, free) = granted limits args rows h in
      let row = fetch_row args status calls points in
      let ours = one_row (live_background_row day) rows row in
      rw (id_is, table_is, finish_last args status calls points rows fresh)
        (elim (Bool-cases (is_background args.lane)) [
          | inr c ↦ ground (arith, ours, c)
          | inl b ↦
              let taken_one =
                one_row (live_background_row day) rows (fetch_row args reserved 1 0) in
              let share =
                calls_left-background limits args.lane args.now (taken limits args rows) b in
              let today : day ≤ args.now = omega arith in
              let one : calls_of (live_background_row day) (taken limits args rows)
                  ≡ calls_of (live_background_row day) rows + 1 =
                ground (arith, taken_one, kind, b, today) in
              let some_free = free b in
              ground (arith, ours, few, attempts_is, share, one, some_free)
        ])

module _ (limits : CallLimits) (day : ℕ) where
  Operates-IsWithin :
      {rows after : List Fetch}
      → Operates limits day rows after
      → IsWithin limits day rows
      → IsWithin limits day after
  Operates-IsWithin (reads args rows status calls points slot today fresh kind h few) w =
      rw (sym today) (
        finish-reserve_within limits args rows status calls points fresh kind h few,
        reads-background limits args rows status calls points slot fresh kind h few (rw today w.1),
      )
  Operates-IsWithin (refused args rows h) w = refused-IsWithin limits args rows day h w
  Operates-IsWithin (spends args rows status client calls points today few) w =
      rw (sym today) (spends-IsWithin limits args rows status client calls points few (rw today w))

  Ran-IsWithin :
      {start rows : List Fetch}
      → IsWithin limits day start
      → Ran limits day start rows
      → IsWithin limits day rows
  Ran-IsWithin w here = w
  Ran-IsWithin w (next before step) = Operates-IsWithin step (Ran-IsWithin w before)

  -- Tracking cannot take the day from customers. However many operations run in a day, one after the
  -- other, for whichever lane, the day's live calls stay within the limit and the background's
  -- within its share, and a customer's read is then refused only when the customers' own live calls
  -- have used up what the share leaves.
  pub background_leaves_room :
      (start rows : List Fetch) (args : FetchArgs)
      → IsWithin limits day start
      → Ran limits day start rows
      → day_start args.now ≡ day
      → args.lane ≡ customer
      → (calls_of (live_row day) rows ≤ limits.daily)
        × (calls_of (live_background_row day) rows ≤ background_cap limits.daily)
        × ((reserve limits args rows).1 ≡ none
            → limits.daily ≤ background_cap limits.daily + calls_of (live_customer_row day) rows)
  background_leaves_room start rows args w ran today lane =
      let (fits, shared) = Ran-IsWithin w ran in
      (
        fits,
        shared,
        λ none_left.
            let full : limits.daily ≤ calls_of (live_row day) rows =
              rw today at (reserve-customer_refused limits args rows lane none_left) in
            omega (arith, lane_parts day rows),
      )
