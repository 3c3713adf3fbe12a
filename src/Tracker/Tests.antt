-- ===== src/Tracker/Tests.antt =====
-- src/lib/market/tracker.ts: runs of the tracker, and each theorem at a concrete input.
use ticketguy.Prelude.{ℕ, String, ◌+◌, ◌≤◌, ◌≡◌, refl, true, none, some, List, [], ◌∷◌, arith}
use ticketguy.Prelude.Tables.{update_where}
use ticketguy.Tracker.{
  customer, background, success, Fetch, FetchArgs, CallLimits, calls_of, background_cap,
  calls_today, calls_left, live_row, live_background_row, log, reserve, finish, call_cap, live,
  poll_interval_minutes,
}
use ticketguy.Tracker.Allowance.{live_customer_row}
use ticketguy.Tracker.Day.{reads, spends, Ran, here, next, IsWithin, background_leaves_room}
use ticketguy.Tracker.Spending.{finish-reserve_within}
use ticketguy.Tracker.Rows.{
  Tracked, Facts, active, requested, paused, new_tracked, enroll_row, enroll_event, match_row,
  visit, is_due, pause,
}

rules : Unit {0}
unfolding calls_of background_cap calls_today calls_left log reserve finish update_where call_cap
    poll_interval_minutes enroll_row enroll_event match_row visit
rules = tt

abbrev limits : CallLimits
limits = record { daily = 5; history = 2 }

abbrev now : ℕ
now = 864000500

abbrev read : String → FetchArgs
read id = record { id = id; kind = "stats"; event_id = some "e"; lane = background; now = now }

abbrev asked : FetchArgs
asked = record (read "c") { lane = customer }

abbrev three : List Fetch
three = (reserve limits (read "d") (reserve limits (read "b") (reserve limits (read "a") []).0).0).0

abbrev one : List Fetch
one = (reserve limits (read "a") []).0

runs :
    ((reserve limits (read "a") []).1 ≡ some (record { id = "a"; attempts = 3 }))
    × ((reserve limits (read "e") three).1 ≡ none)
    × ((reserve limits asked three).1 ≡ some (record { id = "c"; attempts = 2 }))
    × (calls_left limits customer now live one ≡ 4)
    × (call_cap limits background now live 3 1 one ≡ 3)
    × (poll_interval_minutes 20000 none ≡ 1440)
    × (poll_interval_minutes 3000 (some (record { hours = 24; from_cents = 1000; to_cents = 900 }))
        ≡ 360)
unfolding rules
runs = (refl, refl, refl, refl, refl, refl, refl)

-- A read of two calls for the background, a match of two for a customer, one more read.
abbrev after_read : List Fetch
after_read = finish "a" success 2 40 (reserve limits (read "a") []).0

abbrev matching : FetchArgs
matching = record (read "m") { kind = "match"; lane = customer }

abbrev after_match : List Fetch
after_match = log matching success 2 0 after_read

abbrev day_rows : List Fetch
day_rows = finish "b" success 1 20 (reserve limits (read "b") after_match).0

day-Ran : Ran limits 864000000 [] day_rows
unfolding rules
day-Ran =
    next
      (next
        (next here (
          reads (read "a") [] success 2 40 (record { id = "a"; attempts = 3 }) refl tt refl refl
            (omega arith)))
        (spends matching after_read success 7 2 0 refl (omega arith)))
      (reads (read "b") after_match success 1 20 (record { id = "b"; attempts = 1 }) refl
        (refl, (refl, tt)) refl refl (omega arith))

IsWithin-start : IsWithin limits 864000000 []
unfolding rules
IsWithin-start = (omega arith, omega arith)

background_leaves_room_example :
    (calls_of (live_row 864000000) day_rows ≤ 5)
    × (calls_of (live_background_row 864000000) day_rows ≤ background_cap 5)
    × ((reserve limits asked day_rows).1 ≡ none
        → 5 ≤ background_cap 5 + calls_of (live_customer_row 864000000) day_rows)
background_leaves_room_example =
    background_leaves_room limits 864000000 [] day_rows asked IsWithin-start day-Ran refl refl

finish-reserve_within_example : calls_of (live_row 864000000) (finish "a" success 3 40 one) ≤ 5
finish-reserve_within_example =
    finish-reserve_within limits (read "a") [] success 3 40 tt refl runs.0 (omega arith)

abbrev fresh : Tracked
fresh = new_tracked "t" "e" ("request" ∷ []) 100

abbrev misses : Facts
misses = record {
  enforcing = true;
  valid_reasons = "request" ∷ [];
  starts_at = some 900000000;
  search_failure = none;
  hit = none;
  poll_failure = none;
  shadow_failure = none;
  newest = none;
  next_minutes = 360;
}

abbrev finds : Facts
finds = record misses { hit = some "sd9" }

abbrev after_miss : Tracked
after_miss = (visit misses 200 fresh).0

abbrev after_find : Tracked
after_find = (visit finds 30000000 after_miss).0

row_runs :
    (is_due 200 fresh ≡ true)
    × (after_miss.state ≡ requested)
    × (is_due 30000000 after_miss ≡ true)
    × (after_find.state ≡ active)
    × (after_find.match_attempts ≡ 2)
    × ((pause "policy:no_valid_reason" after_find).state ≡ paused)
    × ((enroll_row 40000000 ("watch" ∷ []) (pause "policy:no_valid_reason" after_find)).state
        ≡ active)
    × ((enroll_event 100 "t" "e" ("request" ∷ []) []).1 ≡ 1)
unfolding rules
row_runs = (refl, refl, refl, refl, refl, refl, refl, refl)
