-- ===== src/Freshness.antt =====
-- src/lib/domain/freshness.ts: whether an observation is recent enough to be sent. Instants are
-- milliseconds since the epoch; quotients of the source are compared by their numerators.
pub mod Exactness
mod Tests
use ticketguy.Prelude.{ℕ, ◌+◌, ◌*◌, Bool, true, false, Option, none, some, ltb, if◌then◌else◌}
use ticketguy.Prelude.Int.{ℤ, sub_ℕ}

-- `hoursToEvent < 24 ? 5 : 15`
unfoldable pub freshness_window_minutes : ℕ → ℕ → ℕ
freshness_window_minutes event_start now = if ltb event_start (now + 24 * 3600000) then 5 else 15

pub data StaleReason : Type 0 where
  observation_in_future source_data_stale observation_stale : StaleReason

-- The age is kept in milliseconds: `ageMinutes` times 60,000.
pub record FreshnessVerdict : Type 0 where
  pub fresh : Bool
  pub age_ms : ℤ
  pub window_minutes : ℕ
  pub reason : Option StaleReason

pub record FreshnessArgs : Type 0 where
  pub fetched_at : ℕ
  pub source_as_of : Option ℕ
  pub event_start_at : ℕ
  pub now : ℕ

-- `sourceAsOf && sourceAsOf < fetchedAt`
abbrev pub source_is_older : Option ℕ → ℕ → Bool
source_is_older none fetched = false
source_is_older (some as_of) fetched = ltb as_of fetched

abbrev pub effective_at : Option ℕ → ℕ → ℕ
effective_at none fetched = fetched
effective_at (some as_of) fetched = if ltb as_of fetched then as_of else fetched

unfoldable pub check_freshness : FreshnessArgs → FreshnessVerdict
unfolding freshness_window_minutes
check_freshness args =
    let window = freshness_window_minutes args.event_start_at args.now in
    let effective = effective_at args.source_as_of args.fetched_at in
    let age = sub_ℕ args.now effective in
    if ltb args.now effective
    then record {
      fresh = false;
      age_ms = age;
      window_minutes = window;
      reason = some observation_in_future;
    }
    else if ltb (effective + window * 60000) args.now
    then record {
      fresh = false;
      age_ms = age;
      window_minutes = window;
      reason = some (
          if source_is_older args.source_as_of args.fetched_at
          then source_data_stale
          else observation_stale);
    }
    else record { fresh = true; age_ms = age; window_minutes = window; reason = none }
