-- ===== src/Tracker/Matching.antt =====
-- src/lib/market/tracker.ts: how often an event is searched for, whatever the passes meet.
use ticketguy.Prelude.{
  ℕ, ◌+◌, ◌<◌, ◌≤◌, ◌≡◌, ◌⊎◌, String, Bool, true, false, Option, none, some, List, is_some, length,
  not, ◌&&◌, ◌==◌, leb, if◌then◌else◌,
}
use ticketguy.Tracker.Rows.{
  TrackState, pending_match, requested, active, unmatched, ended, paused, Tracked, Facts, Failure,
  is_due, is_open, enroll_row, pause, asks, needs_match, visit,
}

-- What a row's state says of its searches and of its provider's id.
abbrev pub StateFits : TrackState → Option String → ℕ → Type 0
StateFits pending_match id attempts = attempts < 4
StateFits requested id attempts = (1 ≤ attempts) × (attempts < 4)
StateFits active id attempts = is_some id ≡ true
StateFits unmatched id attempts = attempts ≡ 4
StateFits ended id attempts = Unit {0}
StateFits paused id attempts = (is_some id ≡ true) ⊎ (attempts < 4)

-- Whether a visit searches, to the end, for the provider's id.
abbrev pub searches_before : ℕ → Tracked → Option ℕ → Option Failure → Bool
searches_before now r (some starts_at) none = not (leb starts_at now) && needs_match r
searches_before now r _ _ = false

abbrev pub searches : Facts → ℕ → Tracked → Bool
searches f now r =
    not (f.enforcing && (length f.valid_reasons == 0))
    && searches_before now r f.starts_at f.search_failure

abbrev pub one_if : Bool → ℕ
one_if b = if b then 1 else 0

-- Whether it asks the provider, to the end, to add the event.
abbrev pub asks_provider : Facts → ℕ → Tracked → Bool
asks_provider f now r = searches f now r && (not (is_some f.hit) && asks r)

-- What the passes, the enrolments and the reconciliations make of a row, with the numbers of
-- searches and of requests to the provider that ran to their end on the way.
pub data Followed (s : Tracked) : ℕ → ℕ → Tracked → Type 0 where
  here : Followed s 0 0 s
  visited :
      {m k : ℕ} {r : Tracked}
      → Followed s m k r
      → (f : Facts) (now : ℕ) → is_due now r ≡ true
      → Followed s
          (m + one_if (searches f now r))
          (k + one_if (asks_provider f now r))
          (visit f now r).0
  enrolled :
      {m k : ℕ} {r : Tracked}
      → Followed s m k r
      → (now : ℕ) (reasons : List String) → Followed s m k (enroll_row now reasons r)
  reconciled :
      {m k : ℕ} {r : Tracked}
      → Followed s m k r
      → is_open r.state ≡ true
      → (reason : String) → Followed s m k (pause reason r)

pub record IsCounted (m k : ℕ) (r : Tracked) : Type 0 where
  pub fits : StateFits r.state r.provider_event_id r.match_attempts
  pub few : r.match_attempts ≤ 4
  pub counted : m ≡ r.match_attempts
  pub once : k ≤ 1
  pub first : k ≤ m

-- The counts of a visit that does not search.
abbrev Searched : ℕ → ℕ → Bool → Bool → Tracked → Type 0
Searched m k searched asked r = IsCounted (m + one_if searched) (k + one_if (searched && asked)) r

module _ (m k : ℕ) (f : Facts) (now : ℕ) (r : Tracked) (due : is_due now r ≡ true)
    (s : IsCounted m k r) where
  abbrev asked : Bool
  asked = not (is_some f.hit) && asks r
