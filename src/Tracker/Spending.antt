-- ===== src/Tracker/Spending.antt =====
-- src/lib/market/tracker.ts: a read that is reserved and finished, its retries included.
use text.Mathlib.TextPositions.{eq_refl}
use ticketguy.Prelude.{
  ℕ, ◌+◌, ◌-◌, ◌<◌, ◌≤◌, ◌≡◌, refl, ap, max, true, false, some, List, [], ◌∷◌, ◌++◌, arith, inl,
  inr, str_eq, All, Bool-cases,
}
use ticketguy.Prelude.Tables.{update_where}
use ticketguy.Tracker.{
  Lane, customer, background, FetchStatus, reserved, Fetch, FetchArgs, CallLimits, Slot, day_start,
  is_background, background_cap, live_background_row, calls_of, calls_left, live, live_row,
  fetch_row, has_room, reserve, finish, is_history,
}
use ticketguy.Tracker.Allowance.{calls_of-append, calls_today_parts, taken}

pub finish_last :
    (args : FetchArgs) (status : FetchStatus) (calls points : ℕ) (rows : List Fetch)
    → All (λ (r : Fetch). str_eq r.id args.id ≡ false) rows
    → finish args.id status calls points (rows ++ fetch_row args reserved 1 0 ∷ [])
      ≡ rows ++ fetch_row args status calls points ∷ []
unfolding finish update_where
finish_last args status calls points [] fresh = simp (eq_refl)
finish_last args status calls points (r ∷ rs) fresh =
    simp (fresh.0) (ap (λ t. r ∷ t) (finish_last args status calls points rs fresh.1))

pub calls_left-live :
    (limits : CallLimits) (lane : Lane) (now : ℕ) (rows : List Fetch)
    → calls_left limits lane now live rows ≤ limits.daily - calls_of (live_row (day_start now)) rows
unfolding calls_left
calls_left-live limits customer now rows = omega (arith, calls_today_parts (day_start now) rows)
calls_left-live limits background now rows = omega (arith, calls_today_parts (day_start now) rows)

module _ (limits : CallLimits) (args : FetchArgs) (rows : List Fetch) where
  abbrev day : ℕ
  day = day_start args.now

  pub granted :
      {slot : Slot}
      → (reserve limits args rows).1 ≡ some slot
      → (slot.id ≡ args.id)
        × (slot.attempts
            ≡ max 1 (calls_left limits args.lane args.now live (taken limits args rows) + 1))
        × ((reserve limits args rows).0 ≡ taken limits args rows)
        × (calls_of (live_row day) rows < limits.daily)
        × (is_background args.lane ≡ true
            → calls_of (live_background_row day) rows < background_cap limits.daily)
  unfolding reserve
  granted {slot} h = elim (Bool-cases (has_room limits args.lane args.now rows)) [
    | inr full ↦ absurd (cc (rw full at h))
    | inl room ↦
        let same : some (record {
          id = args.id;
          attempts = max 1 (calls_left limits args.lane args.now live (taken limits args rows) + 1);
        })
            ≡ some slot =
          rw room at h in
        (cc same, cc same, rw room refl, ground arith, λ b. ground arith)
  ]

  -- The reserved row counts, whatever it is finished with at most what it spent.
  counts :
      is_history (fetch_row args reserved 1 0) ≡ false
      → calls_of (live_row day) (taken limits args rows) ≡ calls_of (live_row day) rows + 1
  unfolding calls_of
  counts kind =
      let today : day_start args.now ≤ args.now = omega arith in
      let end = calls_of-append (live_row day) rows (fetch_row args reserved 1 0 ∷ []) in
      ground arith

  finished :
      (status : FetchStatus) (calls points : ℕ)
      → calls_of (live_row day) (rows ++ fetch_row args status calls points ∷ [])
        ≤ calls_of (live_row day) rows + calls
  unfolding calls_of
  finished status calls points =
      let end = calls_of-append (live_row day) rows (fetch_row args status calls points ∷ []) in
      ground arith

-- A reserved read of a kind that is no history may spend its call and what is free: when its row is
-- new, no other row is written between the reservation and the row's completion, and the read makes
-- no more calls than its attempts, retries included, the day's live calls are within the limit once
-- the row is finished, whatever became of the read.
pub finish-reserve_within :
    (limits : CallLimits) (args : FetchArgs) (rows : List Fetch) (status : FetchStatus)
    (calls points : ℕ) {slot : Slot}
    → All (λ (r : Fetch). str_eq r.id args.id ≡ false) rows
    → is_history (fetch_row args reserved 1 0) ≡ false
    → (reserve limits args rows).1 ≡ some slot
    → calls ≤ slot.attempts
    → calls_of
        (live_row (day_start args.now))
        (finish slot.id status calls points (reserve limits args rows).0)
      ≤ limits.daily
finish-reserve_within limits args rows status calls points fresh kind h few =
    let (id_is, attempts_is, table_is, room, free) = granted limits args rows h in
    let left = calls_left-live limits args.lane args.now (taken limits args rows) in
    rw (id_is, table_is, finish_last args status calls points rows fresh)
      (omega (arith, counts limits args rows kind, finished limits args rows status calls points))
