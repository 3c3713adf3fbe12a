-- ===== src/SendIntents/Tests.antt =====
-- src/lib/email/send-intents.ts: runs of the operations, and each theorem at a concrete input.
use mathlib.Core.List.{Memᴰ}
use ticketguy.Prelude.{◌≡◌, refl, String, false, none, some, List, [], ◌∷◌}
use ticketguy.SendGate.{follow_up}
use ticketguy.SendIntents.{
  SendIntentInput, SendIntent, complained, failed, new_intent, create_send_intent, Claim,
  claim_send_intent, release_claim, to_queued, to_uncertain, record_provider_accepted, is_delivered,
  is_failed, is_bounced, apply_provider_status, applied, mapped, upsert_provider_mapping, claim_row,
}
use ticketguy.SendIntents.Creation.{create_send_intent_idempotent}
use ticketguy.SendIntents.Claims.{
  claim_send_intent_exclusive, release_claim-record_provider_accepted,
  claim_send_intent-release_claim,
}
use ticketguy.SendIntents.Statuses.{
  Report, apply_reports, Advances, apply_reports-Advances, failure_report_overwrites,
}

abbrev pub draft : SendIntentInput
draft = record {
  dedupe_key = "follow_up:r1";
  message_class = follow_up;
  contact_id = some "c1";
  conversation_id = some "v1";
  request_id = some "r1";
  request_revision = some 1;
  approval_id = none;
  approved_hash = none;
  recipient = "a@example.com";
  from_address = "my@ticketguy.now";
  subject = "Your tickets";
  body_text = "Hello";
  body_html = "<p>Hello</p>";
  headers = [];
}

abbrev digest : SendIntentInput → String
digest i = i.body_text

abbrev pub intent : SendIntent
intent = new_intent digest draft "i1" 1000

abbrev complained_intent : SendIntent
complained_intent = record intent { state = complained; provider_message_id = some "p1" }

upsert_test :
    (upsert_provider_mapping "p1" (some "follow_up:r1") is_delivered 5 (intent ∷ [])).1 ≡ mapped
unfolding upsert_provider_mapping apply_provider_status
upsert_test = refl

create_send_intent_idempotent_example :
    create_send_intent digest
      (record draft { subject = "Other" })
      "i2"
      9
      (create_send_intent digest draft "i1" 1000 []).0
    ≡ (
      (create_send_intent digest draft "i1" 1000 []).0,
      record { id = (create_send_intent digest draft "i1" 1000 []).1.id; created = false },
    )
create_send_intent_idempotent_example =
    create_send_intent_idempotent digest draft (record draft { subject = "Other" }) "i1" "i2" 1000 9
      [] refl

claim_send_intent_exclusive_example :
    claim_send_intent "i1" "b" 3 (claim_send_intent "i1" "a" 2 (intent ∷ [])).0
    ≡ ((claim_send_intent "i1" "a" 2 (intent ∷ [])).0, none)
claim_send_intent_exclusive_example = claim_send_intent_exclusive "i1" "a" "b" 2 3 (intent ∷ [])

abbrev claim : Claim
claim = record { id = "i1"; claim_token = "a" }

release_claim-record_provider_accepted_example :
    release_claim claim to_uncertain
      (some "timeout")
      4
      (record_provider_accepted claim "p1" 3 (claim_row "a" 2 intent ∷ []))
    ≡ record_provider_accepted claim "p1" 3 (claim_row "a" 2 intent ∷ [])
release_claim-record_provider_accepted_example =
    release_claim-record_provider_accepted claim to_uncertain (some "timeout") 4 "p1" 3
      (claim_row "a" 2 intent ∷ [])

claim_send_intent-release_claim_example :
    (claim_send_intent "i1" "b" 9
      (release_claim claim to_queued none 5 (claim_send_intent "i1" "a" 2 (intent ∷ [])).0)).1
    ≡ some (record { id = "i1"; claim_token = "b" })
claim_send_intent-release_claim_example =
    claim_send_intent-release_claim "i1" "a" "b" 2 9 5 to_queued none (intent ∷ []) refl

abbrev late_delivery : List Report
late_delivery =
    record { message_id = "p1"; status = is_bounced; rfc_id = none; wall = 5 }
    ∷ record { message_id = "p1"; status = is_delivered; rfc_id = some "m1"; wall = 6 }
    ∷ []

apply_reports-Advances_example :
    (u : SendIntent) × Memᴰ u (apply_reports late_delivery (complained_intent ∷ []))
    × Advances complained_intent u
apply_reports-Advances_example =
    apply_reports-Advances late_delivery (complained_intent ∷ []) complained_intent
      (refl, (refl, tt)) (tt, tt) (Memᴰ.head refl)

failure_report_overwrites_example :
    (u : SendIntent) × Memᴰ u
      (apply_provider_status "p1" is_failed none 7 (complained_intent ∷ [])).0
    × (u.id ≡ "i1")
    × (u.state ≡ failed)
    × ((apply_provider_status "p1" is_failed none 7 (complained_intent ∷ [])).1 ≡ applied)
failure_report_overwrites_example =
    failure_report_overwrites "p1" none 7 (complained_intent ∷ []) complained_intent refl
