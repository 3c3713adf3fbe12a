-- ===== src/Tracker/Allowance.antt =====
-- src/lib/market/tracker.ts: the day's allowance of paid calls, and the part of it that background
-- tracking leaves to customers.
use ticketguy.Prelude.{
  ℕ, ◌+◌, ◌≤◌, ◌≡◌, Bool, false, not, ◌&&◌, none, List, [], ◌∷◌, ◌++◌, arith, inl, inr, Bool-cases,
}
use ticketguy.Tracker.{
  customer, reserved, skipped_budget, Fetch, FetchArgs, CallLimits, day_start, is_history,
  of_background, anything, calls_of, calls_today, live_row, live_background_row, fetch_row,
  has_room, log, reserve,
}

pub calls_of-append :
    (p : Fetch → Bool) (xs ys : List Fetch) → calls_of p (xs ++ ys) ≡ calls_of p xs + calls_of p ys
unfolding calls_of
calls_of-append p [] ys = omega arith
calls_of-append p (x ∷ xs) ys = omega (arith, calls_of-append p xs ys)

-- What is no history is live.
module _ (day : ℕ) where
  pub calls_today_parts :
      (rows : List Fetch)
      → calls_today day anything rows
        ≡ calls_today day is_history rows + calls_of (live_row day) rows
  unfolding calls_today calls_of
  calls_today_parts [] = omega arith
  calls_today_parts (r ∷ rs) = ground (arith, calls_today_parts rs)

  pub background_parts :
      (rows : List Fetch)
      → calls_today day of_background rows
        ≡ calls_today day (λ r. is_history r && of_background r) rows
          + calls_of (live_background_row day) rows
  unfolding calls_today calls_of
  background_parts [] = omega arith
  background_parts (r ∷ rs) = ground (arith, background_parts rs)

  -- The live calls that were made for customers.
  abbrev pub live_customer_row : Fetch → Bool
  live_customer_row r = live_row day r && not (of_background r)

  pub lane_parts :
      (rows : List Fetch)
      → calls_of (live_row day) rows
        ≡ calls_of (live_background_row day) rows + calls_of live_customer_row rows
  unfolding calls_of
  lane_parts [] = omega arith
  lane_parts (r ∷ rs) = ground (arith, lane_parts rs)

module _ (limits : CallLimits) (args : FetchArgs) (rows : List Fetch) where
  abbrev pub taken : List Fetch
  taken = rows ++ fetch_row args reserved 1 0 ∷ []

  pub one_more : (p : Fetch → Bool) → calls_of p taken ≤ calls_of p rows + 1
  unfolding calls_of
  one_more p = let end = calls_of-append p rows (fetch_row args reserved 1 0 ∷ []) in ground arith

  pub not_counted :
      (p : Fetch → Bool)
      → p (fetch_row args reserved 1 0) ≡ false
      → calls_of p taken ≡ calls_of p rows
  unfolding calls_of
  not_counted p h =
      let end = calls_of-append p rows (fetch_row args reserved 1 0 ∷ []) in ground arith

  pub none_more :
      (p : Fetch → Bool) → calls_of p (log args skipped_budget 0 0 rows) ≡ calls_of p rows
  unfolding calls_of log
  none_more p =
      let end = calls_of-append p rows (fetch_row args skipped_budget 0 0 ∷ []) in ground arith

  -- A call for a customer is refused only when the day's live calls are used up.
  pub reserve-customer_refused :
      args.lane ≡ customer
      → (reserve limits args rows).1 ≡ none
      → limits.daily ≤ calls_of (live_row (day_start args.now)) rows
  unfolding reserve
  reserve-customer_refused c h = elim (Bool-cases (has_room limits args.lane args.now rows)) [
    | inl room ↦ absurd (cc (rw room at h))
    | inr full ↦ ground arith
  ]
