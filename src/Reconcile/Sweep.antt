-- ===== src/Reconcile/Sweep.antt =====
-- src/lib/email/reconcile.ts: after a sweep nothing that was listed is missing any more.
use ticketguy.Prelude.{
  ℕ, ◌≡◌, refl, inl, inr, Bool, true, false, String, arith, List, [], ◌∷◌, ◌++◌, map, any, All,
  All-append, str_eq, eq_iff, if◌then◌else◌, Bool-cases,
}
use ticketguy.Reconcile.Keys.{reconcile_key_inj}
use ticketguy.Reconcile.{
  ReceivedListing, InboundEvent, Mailroom, is_known, reconcile_key, inbound_of, ingest, ingest_all,
  missing_of, reconcile_received,
}

-- A row whose key is the sweep's for some message carries the id of that message.
abbrev pub IsKeyedRow : InboundEvent → Type 0
IsKeyedRow e = (id : String) → e.provider_event_id ≡ reconcile_key id → e.email_id ≡ id

abbrev pub IsKeyed : Mailroom → Type 0
IsKeyed room = All IsKeyedRow room.events

any-append_left :
    (p : InboundEvent → Bool) (xs ys : List InboundEvent)
    → any p xs ≡ true
    → any p (xs ++ ys) ≡ true
any-append_left p [] ys h = absurd (cc)
any-append_left p (x ∷ xs) ys h = ground (arith, any-append_left p xs ys)

any-append_right :
    (p : InboundEvent → Bool) (xs : List InboundEvent) (r : InboundEvent)
    → p r ≡ true
    → any p (xs ++ r ∷ []) ≡ true
any-append_right p [] r h = rw h refl
any-append_right p (x ∷ xs) r h = ground (arith, any-append_right p xs r h)

module _ (now : ℕ) (fresh : String → String) where
  -- What is known stays known.
  ingest_keeps :
      (m : ReceivedListing) (room : Mailroom) (id : String)
      → is_known room id ≡ true
      → is_known (ingest now fresh m room).0 id ≡ true
  unfolding ingest is_known
  ingest_keeps m room id h =
      elim (Bool-cases (any (λ e. str_eq e.provider_event_id (reconcile_key m.id)) room.events)) [
        | inl e ↦ rw e h
        | inr e ↦ rw e (
            ground (
              arith,
              any-append_left (λ e. str_eq e.email_id id) room.events
                  (inbound_of m (fresh m.id) ∷ []),
            ))
      ]

  ingest_all_keeps :
      (ms : List ReceivedListing) (room : Mailroom) (id : String)
      → is_known room id ≡ true
      → is_known (ingest_all now fresh ms room).0 id ≡ true
  unfolding ingest_all
  ingest_all_keeps [] room id h = h
  ingest_all_keeps (m ∷ ms) room id h =
      ingest_all_keeps ms (ingest now fresh m room).0 id (ingest_keeps m room id h)

  ingest-IsKeyed :
      (m : ReceivedListing) (room : Mailroom) → IsKeyed room → IsKeyed (ingest now fresh m room).0
  unfolding ingest
  ingest-IsKeyed m room h =
      elim (Bool-cases (any (λ e. str_eq e.provider_event_id (reconcile_key m.id)) room.events)) [
        | inl e ↦ rw e h
        | inr e ↦
            rw e (All-append IsKeyedRow room.events _ h ((λ id k. reconcile_key_inj m.id id k), tt))
      ]

  keyed_any :
      (events : List InboundEvent) (id : String)
      → All IsKeyedRow events
      → any (λ e. str_eq e.provider_event_id (reconcile_key id)) events ≡ true
      → any (λ e. str_eq e.email_id id) events ≡ true
  keyed_any [] id h found = absurd (cc)
  keyed_any (e ∷ events) id h found =
      elim (Bool-cases (str_eq e.provider_event_id (reconcile_key id))) [
        | inl q ↦
            let same = h.0 id ((eq_iff e.provider_event_id (reconcile_key id)).0 q) in
            rw ((eq_iff e.email_id id).1 same) refl
        | inr q ↦ ground (arith, keyed_any events id h.1 (rw q at found))
      ]

  ingest_known :
      (m : ReceivedListing) (room : Mailroom)
      → IsKeyed room
      → is_known (ingest now fresh m room).0 m.id ≡ true
  unfolding ingest is_known
  ingest_known m room h =
      elim (Bool-cases (any (λ e. str_eq e.provider_event_id (reconcile_key m.id)) room.events)) [
        | inl e ↦ rw (e, keyed_any room.events m.id h e) refl
        | inr e ↦
            let new =
              any-append_right (λ e. str_eq e.email_id m.id) room.events (inbound_of m (fresh m.id))
                ((eq_iff m.id m.id).1 refl) in
            rw (e, new) refl
      ]

  ingest_all_known :
      (ms : List ReceivedListing) (room : Mailroom)
      → IsKeyed room
      → All (λ m. is_known (ingest_all now fresh ms room).0 m.id ≡ true) ms
  unfolding ingest_all
  ingest_all_known [] room h = tt
  ingest_all_known (m ∷ ms) room h =
      let after = (ingest now fresh m room).0 in
      (
        ingest_all_keeps ms after m.id (ingest_known m room h),
        ingest_all_known ms after (ingest-IsKeyed m room h),
      )

  -- Whatever was known before or was missing is known after the sweep.
  listing_known :
      (listing : List ReceivedListing) (room after : Mailroom)
      → ((id : String) → is_known room id ≡ true → is_known after id ≡ true)
      → All (λ m. is_known after m.id ≡ true) (missing_of room listing)
      → missing_of after listing ≡ []
  listing_known [] room after keeps h = refl
  listing_known (m ∷ ms) room after keeps h = elim (Bool-cases (is_known room m.id)) [
    | inl e ↦ rw (keeps m.id e) (listing_known ms room after keeps (rw e at h))
    | inr e ↦ let both = rw e at h in rw both.0 (listing_known ms room after keeps both.1)
  ]

-- After a sweep that is applied, the same listing has no missing message: a second sweep finds
-- none, queues nothing and leaves everything as it was.
pub reconcile_received_complete :
    (apply : Bool) (now later : ℕ) (fresh : String → String) (listing : List ReceivedListing)
    (room : Mailroom)
    → IsKeyed room
    → ((reconcile_received apply later fresh listing
          (reconcile_received true now fresh listing room).0).1.missing
        ≡ [])
      × ((reconcile_received apply later fresh listing
            (reconcile_received true now fresh listing room).0).1.enqueued
          ≡ 0)
      × ((reconcile_received apply later fresh listing
            (reconcile_received true now fresh listing room).0).0
          ≡ (reconcile_received true now fresh listing room).0)
unfolding reconcile_received ingest_all
reconcile_received_complete apply now later fresh listing room h =
    let after = (ingest_all now fresh (missing_of room listing) room).0 in
    let found =
      listing_known now fresh listing room after
        (ingest_all_keeps now fresh (missing_of room listing) room)
        (ingest_all_known now fresh (missing_of room listing) room h) in
    rw found (nothing_left apply)
  where
    nothing_left :
        (b : Bool)
        → (map (λ (m : ReceivedListing). m.id) [] ≡ [])
          × ((if b
                then (ingest_all later fresh []
                    (ingest_all now fresh (missing_of room listing) room).0)
                else ((ingest_all now fresh (missing_of room listing) room).0, 0)).1
              ≡ 0)
          × ((if b
                then (ingest_all later fresh []
                    (ingest_all now fresh (missing_of room listing) room).0)
                else ((ingest_all now fresh (missing_of room listing) room).0, 0)).0
              ≡ (ingest_all now fresh (missing_of room listing) room).0)
    nothing_left true = (refl, refl, refl)
    nothing_left false = (refl, refl, refl)
