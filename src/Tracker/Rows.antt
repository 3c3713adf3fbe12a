-- ===== src/Tracker/Rows.antt =====
-- src/lib/market/tracker.ts: the rows of tracked_events, and what enrolling, one visit of the hourly
-- pass and a reconciliation make of a row. What the visit reads elsewhere (the reasons that still
-- hold, the event, the provider's replies) is the record Facts.
use ticketguy.Prelude.{
  ℕ, ◌+◌, ◌*◌, String, Bool, true, false, not, ◌&&◌, ◌||◌, Option, none, some, List, [], ◌∷◌, ◌++◌,
  str_eq, leb, ◌==◌, if◌then◌else◌, contains, any, is_some, length, take,
}
use ticketguy.Prelude.Tables.{update_where}
use ticketguy.Reconcile.{unique}
use ticketguy.Tracker.{provider_name}

pub data TrackState : Type 0 where
  pending_match requested active unmatched ended paused : TrackState

pub record Tracked : Type 0 where
  pub id : String
  pub event_id : String
  pub provider : String
  pub provider_event_id : Option String
  pub state : TrackState
  pub reasons : List String
  pub pause_reason : Option String
  pub next_poll_at : ℕ
  pub last_polled_at : Option ℕ
  pub last_observed_at : Option ℕ
  pub match_attempts : ℕ
  pub last_error : Option (List ℕ)

abbrev pub max_match_attempts : ℕ
max_match_attempts = 4

abbrev pub minute : ℕ
minute = 60000

abbrev pub is_open : TrackState → Bool
is_open pending_match = true
is_open requested = true
is_open active = true
is_open _ = false

abbrev pub is_active : TrackState → Bool
is_active active = true
is_active _ = false

abbrev pub is_paused : TrackState → Bool
is_paused paused = true
is_paused _ = false

abbrev pub is_due : ℕ → Tracked → Bool
is_due now r = str_eq r.provider provider_name && (is_open r.state && leb r.next_poll_at now)

abbrev pub new_tracked : String → String → List String → ℕ → Tracked
new_tracked id event_id reasons now = record {
  id = id;
  event_id = event_id;
  provider = provider_name;
  provider_event_id = none;
  state = pending_match;
  reasons = reasons;
  pause_reason = none;
  next_poll_at = now;
  last_polled_at = none;
  last_observed_at = none;
  match_attempts = 0;
  last_error = none;
}

abbrev pub resumed_state : Option String → TrackState
resumed_state none = pending_match
resumed_state (some id) = active

abbrev pub resume : ℕ → List String → Tracked → Tracked
resume now reasons r = record r {
  state = resumed_state r.provider_event_id;
  pause_reason = none;
  reasons = unique (r.reasons ++ reasons);
  next_poll_at = now;
}

abbrev pub widen : List String → Tracked → Tracked
widen reasons r = record r { reasons = unique (r.reasons ++ reasons) }

-- what enrolling for these reasons makes of the event's row
unfoldable pub enroll_row : ℕ → List String → Tracked → Tracked
enroll_row now reasons r =
    if is_paused r.state
    then resume now reasons r
    else if any (λ x. not (contains x r.reasons)) reasons
    then widen reasons r
    else r

-- the event's row of this provider; another provider's row of the event is not looked at
abbrev pub is_followed : String → Tracked → Bool
is_followed event_id r = str_eq r.provider provider_name && str_eq r.event_id event_id

-- one event of `enroll`; a row that is new counts as added
unfoldable pub enroll_event : ℕ → String → String → List String → List Tracked → List Tracked × ℕ
unfolding enroll_row
enroll_event now id event_id reasons rows =
    if any (is_followed event_id) rows
    then (update_where (is_followed event_id) (enroll_row now reasons) rows, 0)
    else (rows ++ new_tracked id event_id reasons now ∷ [], 1)

abbrev pub pause : String → Tracked → Tracked
pause reason r = record r { state = paused; pause_reason = some reason }

abbrev pub end_row : Tracked → Tracked
end_row r = record r { state = ended }

-- an error's text is its list of code units
abbrev pub fail_row : ℕ → List ℕ → Tracked → Tracked
fail_row now message r = record r {
  last_error = some (take 300 message);
  next_poll_at = now + 60 * minute;
}

abbrev pub found_row : String → Tracked → Tracked
found_row id r = record r {
  provider_event_id = some id;
  state = active;
  last_error = none;
  match_attempts = r.match_attempts + 1;
}

abbrev pub asked_row : ℕ → Tracked → Tracked
asked_row now r = record r {
  state = requested;
  match_attempts = r.match_attempts + 1;
  next_poll_at = now + 6 * 60 * minute;
}

abbrev pub missed_row : ℕ → Tracked → Tracked
missed_row now r = record r {
  state = if leb max_match_attempts (r.match_attempts + 1) then unmatched else r.state;
  match_attempts = r.match_attempts + 1;
  next_poll_at = now + 12 * 60 * minute;
}

-- the provider is asked to add an event once, for a customer's request
abbrev pub asks : Tracked → Bool
asks r = (r.match_attempts == 0) && contains "request" r.reasons

-- `match`, given what the searches find: the row, and the provider's id
unfoldable pub match_row : ℕ → Option String → Tracked → Tracked × Option String
match_row now (some id) r = (found_row id r, some id)
match_row now none r = if asks r then (asked_row now r, none) else (missed_row now r, none)

pub record Failure : Type 0 where
  pub message : List ℕ
  pub is_account : Bool

pub record Facts : Type 0 where
  pub enforcing : Bool
  pub valid_reasons : List String
  pub starts_at : Option ℕ
  pub search_failure : Option Failure
  pub hit : Option String
  pub poll_failure : Option Failure
  pub shadow_failure : Option Failure
  pub newest : Option ℕ
  pub next_minutes : ℕ

pub data Visit : Type 0 where
  paused_now no_event ended_now not_matched polled : Visit
  failed stopped : Visit

abbrev pub polled_row : Facts → ℕ → Tracked → Tracked
polled_row f now r = record r {
  last_polled_at = some now;
  last_observed_at = f.newest;
  last_error = none;
  next_poll_at = now + f.next_minutes * minute;
}

-- the handler: an account's failure stops the whole pass
abbrev pub caught : ℕ → Failure → Tracked → Tracked × Visit
caught now e r = (fail_row now e.message r, if e.is_account then stopped else failed)

-- the shadow record, which comes after the poll
abbrev pub shadow_ended : ℕ → Tracked → Option Failure → Tracked × Visit
shadow_ended now r none = (r, polled)
shadow_ended now r (some e) = caught now e r

abbrev pub poll_ended : Facts → ℕ → Tracked → Option Failure → Tracked × Visit
poll_ended f now r none = shadow_ended now (polled_row f now r) f.shadow_failure
poll_ended f now r (some e) = caught now e r

abbrev pub poll_row : Facts → ℕ → Tracked → Tracked × Visit
poll_row f now r = poll_ended f now r f.poll_failure

abbrev pub after_match : Facts → ℕ → Tracked → Option String → Tracked × Visit
after_match f now r none = (r, not_matched)
after_match f now r (some id) = poll_row f now r

abbrev pub match_and_poll : Facts → ℕ → Tracked → Option Failure → Tracked × Visit
match_and_poll f now r (some e) = caught now e r
match_and_poll f now r none = after_match f now (match_row now f.hit r).0 (match_row now f.hit r).1

-- whether the visit searches for the provider's id
abbrev pub needs_match : Tracked → Bool
needs_match r = not (is_active r.state) || not (is_some r.provider_event_id)

abbrev pub visit_event : Facts → ℕ → Tracked → Option ℕ → Tracked × Visit
visit_event f now r none = (r, no_event)
visit_event f now r (some starts_at) =
    if leb starts_at now
    then (end_row r, ended_now)
    else if needs_match r
    then match_and_poll f now r f.search_failure
    else poll_row f now r

-- One row of the hourly pass, when the allowance is not used up.
unfoldable pub visit : Facts → ℕ → Tracked → Tracked × Visit
unfolding match_row
visit f now r =
    if f.enforcing && (length f.valid_reasons == 0)
    then (pause "policy:no_valid_reason" r, paused_now)
    else visit_event f now r f.starts_at
