-- ===== src/EventLifecycle/Tests.antt =====
-- src/lib/domain/event-lifecycle.ts: runs of the check, and its theorem at a concrete input.
use ticketguy.Prelude.{◌<◌, ◌≡◌, refl, ◌↔◌, ◌⊎◌, none, some}
use ticketguy.EventLifecycle.{
  EventRow, not_compared, drafted_for, event_missing, event_rescheduled, event_started,
  event_status, occurrence_change, event_changed_since, event_changed_since_iff,
}

abbrev concert : EventRow
concert = record { status = "scheduled"; local_start_at = 900 }

runs :
    (event_changed_since none 5 not_compared ≡ some event_missing)
    × (event_changed_since (some concert) 900 not_compared ≡ some event_started)
    × (event_changed_since (some concert) 5 (drafted_for (some 800)) ≡ some event_rescheduled)
    × (event_changed_since (some (record concert { status = "cancelled" })) 5 not_compared
        ≡ some (event_status "cancelled"))
unfolding occurrence_change event_changed_since
runs = (refl, refl, refl, refl)

event_changed_since_iff_example :
    (event_changed_since (some concert) 5 (drafted_for (some 900)) ≡ none)
    ↔ (concert.status ≡ "scheduled")
      × (5 < 900)
      × ((drafted_for (some 900) ≡ not_compared)
          ⊎ (drafted_for (some 900) ≡ drafted_for (some 900)))
event_changed_since_iff_example = event_changed_since_iff concert 5 (drafted_for (some 900))
