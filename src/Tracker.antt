-- ===== src/Tracker.antt =====
-- src/lib/market/tracker.ts: the tracker of the resale market. Here its daily allowance of paid
-- calls, with the table market_fetches of src/lib/db/schema.ts; the children have the rows of
-- tracked_events. The provider's calls are counted by the client, whose counter is given.
pub mod Allowance
pub mod Day
pub mod Matching
pub mod Rows
pub mod Spending
mod Tests
use ticketguy.Prelude.{
  ℕ, ◌+◌, ◌-◌, ◌*◌, ◌/◌, ◌%◌, min, max, String, Bool, true, false, not, ◌&&◌, ◌||◌, Option, none,
  some, List, [], ◌∷◌, ◌++◌, str_eq, ltb, leb, if◌then◌else◌, contains, keep, length,
}
use ticketguy.Prelude.Tables.{update_where}
use ticketguy.Market.{Change, moved_by}

pub data Lane : Type 0 where
  customer background : Lane

abbrev pub is_background : Lane → Bool
is_background background = true
is_background customer = false

pub data FetchStatus : Type 0 where
  success not_found error skipped_budget skipped reserved : FetchStatus

pub record Fetch : Type 0 where
  pub id : String
  pub provider : String
  pub kind : String
  pub event_id : Option String
  pub status : FetchStatus
  pub calls : ℕ
  pub points : ℕ
  pub lane : Lane
  pub at : ℕ

abbrev pub provider_name : String
provider_name = "seatdata"

abbrev pub history_kinds : List String
history_kinds = "history_search" ∷ "history_stats" ∷ []

abbrev pub day_start : ℕ → ℕ
day_start now = now - now % 86400000

abbrev pub is_today : ℕ → Fetch → Bool
is_today day r = str_eq r.provider provider_name && leb day r.at

abbrev pub is_history : Fetch → Bool
is_history r = contains r.kind history_kinds

-- `coalesce(sum(calls), 0)` over the rows of a condition
unfoldable pub calls_of : (Fetch → Bool) → List Fetch → ℕ
calls_of p [] = 0
calls_of p (r ∷ rs) = (if p r then r.calls else 0) + calls_of p rs

-- `callsToday` of the day that starts at `day`: all kinds, or these kinds; all lanes, or this lane
unfoldable pub calls_today : ℕ → (Fetch → Bool) → List Fetch → ℕ
unfolding calls_of
calls_today day p rows = calls_of (λ r. is_today day r && p r) rows

abbrev pub anything : Fetch → Bool
anything r = true

abbrev pub of_background : Fetch → Bool
of_background r = is_background r.lane

-- sixty per cent, one call at least
unfoldable pub background_cap : ℕ → ℕ
background_cap limit = max 1 (limit * 3 / 5)

pub record CallLimits : Type 0 where
  pub daily : ℕ
  pub history : ℕ

pub data Purpose : Type 0 where
  live history : Purpose

unfoldable pub calls_left : CallLimits → Lane → ℕ → Purpose → List Fetch → ℕ
unfolding calls_today background_cap
calls_left limits lane now history rows =
    limits.history - calls_today (day_start now) is_history rows
calls_left limits customer now live rows =
    limits.daily
    - (calls_today (day_start now) anything rows - calls_today (day_start now) is_history rows)
calls_left limits background now live rows =
    let day = day_start now in
    let spent =
      calls_today day of_background rows
      - calls_today day (λ r. is_history r && of_background r) rows in
    min (limits.daily - (calls_today day anything rows - calls_today day is_history rows))
      (background_cap limits.daily - spent)

pub record FetchArgs : Type 0 where
  pub id : String
  pub kind : String
  pub event_id : Option String
  pub lane : Lane
  pub now : ℕ

abbrev pub fetch_row : FetchArgs → FetchStatus → ℕ → ℕ → Fetch
fetch_row args status calls points = record {
  id = args.id;
  provider = provider_name;
  kind = args.kind;
  event_id = args.event_id;
  status = status;
  calls = calls;
  points = points;
  lane = args.lane;
  at = args.now;
}

unfoldable pub log : FetchArgs → FetchStatus → ℕ → ℕ → List Fetch → List Fetch
log args status calls points rows = rows ++ fetch_row args status calls points ∷ []

-- the sums in the statement of `reserve`
abbrev pub live_row : ℕ → Fetch → Bool
live_row day r = is_today day r && not (is_history r)

abbrev pub live_background_row : ℕ → Fetch → Bool
live_background_row day r = live_row day r && of_background r

abbrev pub has_room : CallLimits → Lane → ℕ → List Fetch → Bool
has_room limits lane now rows =
    ltb (calls_of (live_row (day_start now)) rows) limits.daily
    && (not (is_background lane)
        || ltb (calls_of (live_background_row (day_start now)) rows) (background_cap limits.daily))

pub record Slot : Type 0 where
  pub id : String
  pub attempts : ℕ

unfoldable pub reserve : CallLimits → FetchArgs → List Fetch → List Fetch × Option Slot
unfolding log calls_of calls_left background_cap
reserve limits args rows =
    let taken = rows ++ fetch_row args reserved 1 0 ∷ [] in
    if has_room limits args.lane args.now rows
    then (
      taken,
      some (record {
        id = args.id;
        attempts = max 1 (calls_left limits args.lane args.now live taken + 1);
      }),
    )
    else (log args skipped_budget 0 0 rows, none)

unfoldable pub finish : String → FetchStatus → ℕ → ℕ → List Fetch → List Fetch
finish id status calls points =
    update_where (λ r. str_eq r.id id)
      (λ r. record r { status = status; calls = calls; points = points })

-- What the client may still spend: what is left, less the calls that no row counts yet.
unfoldable pub call_cap : CallLimits → Lane → ℕ → Purpose → ℕ → ℕ → List Fetch → ℕ
unfolding calls_left
call_cap limits lane now purpose client_calls logged rows =
    client_calls + (calls_left limits lane now purpose rows - (client_calls - logged))

-- a move of ten per cent or more of the earlier price
abbrev pub is_big_move : Option Change → Bool
is_big_move none = false
is_big_move (some c) = leb c.from_cents (10 * moved_by c)

-- lead and interval in minutes; an event that has started has no lead
unfoldable pub poll_interval_minutes : ℕ → Option Change → ℕ
poll_interval_minutes lead recent =
    let base =
      if ltb (168 * 60) lead then 24 * 60 else if ltb (48 * 60) lead then 12 * 60 else 6 * 60 in
    if is_big_move recent then max (3 * 60) (base / 2) else base
