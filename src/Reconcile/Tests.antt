-- ===== src/Reconcile/Tests.antt =====
-- src/lib/email/reconcile.ts: runs of the sweep, and each theorem at a concrete input.
use ticketguy.Prelude.{◌≡◌, refl, String, true, false, none, some, List, [], ◌∷◌}
use ticketguy.Outbox.{enqueue_outbox}
use ticketguy.Reconcile.{
  ReceivedListing, Mailroom, is_known, known_provider_ids, ingest, ingest_all, reconcile_received,
}
use ticketguy.Reconcile.Sweep.{reconcile_received_complete}

rules : Unit {0}
unfolding enqueue_outbox is_known known_provider_ids ingest ingest_all reconcile_received
rules = tt

abbrev fresh : String → String
fresh id = id

abbrev listing : List ReceivedListing
listing =
    (record { id = "m1"; created_at = none })
    ∷ (record { id = "m2"; created_at = some "2026-09-01" })
    ∷ (record { id = "m2"; created_at = some "2026-09-01" })
    ∷ []

abbrev room : Mailroom
room = record { events = []; messages = "m1" ∷ []; outbox = [] }

runs :
    ((reconcile_received true 5 fresh listing room).1.missing ≡ "m2" ∷ "m2" ∷ [])
    × ((reconcile_received true 5 fresh listing room).1.known ≡ 1)
    × ((reconcile_received true 5 fresh listing room).1.enqueued ≡ 1)
    × ((reconcile_received false 5 fresh listing room).0 ≡ room)
unfolding rules
runs = (refl, refl, refl, refl)

reconcile_received_complete_example :
    ((reconcile_received true 9 fresh listing
        (reconcile_received true 5 fresh listing room).0).1.missing
      ≡ [])
    × ((reconcile_received true 9 fresh listing
          (reconcile_received true 5 fresh listing room).0).1.enqueued
        ≡ 0)
    × ((reconcile_received true 9 fresh listing (reconcile_received true 5 fresh listing room).0).0
        ≡ (reconcile_received true 5 fresh listing room).0)
reconcile_received_complete_example = reconcile_received_complete true 5 9 fresh listing room tt
