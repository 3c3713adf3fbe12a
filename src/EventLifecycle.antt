-- ===== src/EventLifecycle.antt =====
-- src/lib/domain/event-lifecycle.ts: whether something prepared for an event still fits it.
mod Tests
use ticketguy.Prelude.{
  ℕ, ◌<◌, ◌≡◌, refl, ◌↔◌, ◌⊎◌, inl, inr, Bool, true, false, not, String, Option, none, some, leb,
  ◌==◌, str_eq, eq_iff, if◌then◌else◌, arith,
}

pub record EventRow : Type 0 where
  pub status : String
  pub local_start_at : ℕ

-- `draftedForStartAt`: undefined, null or empty, or a text with the instant that it parses to
pub data DraftedFor : Type 0 where
  not_compared unrecorded : DraftedFor
  drafted_for : Option ℕ → DraftedFor

pub data EventChange : Type 0 where
  event_missing event_rescheduled event_occurrence_unrecorded event_started : EventChange
  event_status : String → EventChange

-- the check of the occurrence, then that of the start
unfoldable pub occurrence_change : EventRow → ℕ → DraftedFor → Option EventChange
occurrence_change e now not_compared = if leb e.local_start_at now then some event_started else none
occurrence_change e now unrecorded = some event_occurrence_unrecorded
occurrence_change e now (drafted_for none) = some event_rescheduled
occurrence_change e now (drafted_for (some at)) =
    if not (at == e.local_start_at)
    then some event_rescheduled
    else if leb e.local_start_at now
    then some event_started
    else none

unfoldable pub event_changed_since : Option EventRow → ℕ → DraftedFor → Option EventChange
event_changed_since none now drafted = some event_missing
event_changed_since (some e) now drafted =
    if not (str_eq e.status "scheduled")
    then some (event_status e.status)
    else occurrence_change e now drafted

-- Something prepared for an event still fits it exactly when the event exists, is scheduled, has
-- not started, and starts at the instant it was prepared for, where that is compared.
pub event_changed_since_iff :
    (e : EventRow) (now : ℕ) (drafted : DraftedFor)
    → (event_changed_since (some e) now drafted ≡ none)
      ↔ (e.status ≡ "scheduled")
        × (now < e.local_start_at)
        × ((drafted ≡ not_compared) ⊎ (drafted ≡ drafted_for (some e.local_start_at)))
unfolding event_changed_since occurrence_change
event_changed_since_iff e now not_compared = ground (arith, eq_iff e.status "scheduled")
event_changed_since_iff e now unrecorded = ground (arith, eq_iff e.status "scheduled")
event_changed_since_iff e now (drafted_for none) = ground (arith, eq_iff e.status "scheduled")
event_changed_since_iff e now (drafted_for (some at)) = ground (arith, eq_iff e.status "scheduled")
