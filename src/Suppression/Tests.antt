-- ===== src/Suppression/Tests.antt =====
-- src/lib/domain/suppression.ts: runs of the opt-outs, and each theorem at a concrete input.
use ticketguy.Prelude.{◌≡◌, ◌≢◌, refl, true, false, some, [], ◌∷◌, All}
use ticketguy.Prelude.Tables.{update_where}
use ticketguy.SendGate.{
  Env, GateInput, marketing, acknowledgment, global_scope, marketing_scope, watch_scope, allowed,
  evaluate_gate,
}
use ticketguy.Suppression.{
  OptOutTables, active, cancelled, complaint, hard_bounce, runs_for, add_suppression,
  revoke_marketing, stop_all, apply_provider_complaint_or_bounce, load_suppression_scopes,
}
use ticketguy.Suppression.Effects.{
  stopped, reported, apply_all, complaint_blocks, stop_all_blocks, stop_all_cancels,
}

rules : Unit {0}
unfolding update_where add_suppression revoke_marketing stop_all apply_provider_complaint_or_bounce
    load_suppression_scopes
rules = tt

abbrev tables : OptOutTables
tables = record {
  suppressions = [];
  permissions = [];
  watches =
      (record { contact_id = "c1"; state = active })
      ∷ (record { contact_id = "c2"; state = active })
      ∷ [];
  event_alerts = (record { contact_id = "c1"; state = active }) ∷ [];
}

abbrev env : Env
env = record {
  fixture_mode = false;
  email_send_enabled = true;
  marketing_send_enabled = true;
  watch_send_enabled = true;
  event_alerts_enabled = true;
  follow_up_enabled = true;
  human_review_required = false;
  test_recipient_allowlist = [];
}

abbrev offer_mail : GateInput
offer_mail = record {
  message_class = marketing;
  recipient_lookup = "a@example.com";
  contains_fixture_data = false;
  approved = true;
  approval_hash_matches = true;
  revision_current = true;
  evidence_fresh = true;
  marketing_permission = true;
  test_mode = false;
}

abbrev reply : GateInput
reply = record offer_mail { message_class = acknowledgment }

runs :
    (load_suppression_scopes "a@example.com"
        (stop_all (some "c1") "a@example.com" tables).suppressions
      ≡ marketing_scope ∷ watch_scope ∷ [])
    × ((stop_all (some "c1") "a@example.com" tables).watches
        ≡ (record { contact_id = "c1"; state = cancelled })
          ∷ (record { contact_id = "c2"; state = active })
          ∷ [])
    × (load_suppression_scopes "a@example.com"
          (apply_all
            (reported "a@example.com" complaint "resend"
              ∷ reported "a@example.com" hard_bounce "resend"
              ∷ [])
            tables).suppressions
        ≡ global_scope ∷ [])
unfolding rules
runs = (refl, refl, refl)

complaint_blocks_example :
    evaluate_gate env []
      (load_suppression_scopes "a@example.com"
        (apply_all (stopped (some "c2") "b@example.com" ∷ []) (
          apply_provider_complaint_or_bounce "a@example.com" complaint "resend"
            tables)).suppressions)
      reply
    ≢ allowed
complaint_blocks_example =
    complaint_blocks env [] reply "a@example.com" tables complaint "resend"
      (stopped (some "c2") "b@example.com" ∷ [])

stop_all_blocks_example :
    evaluate_gate env []
      (load_suppression_scopes "a@example.com"
        (apply_all [] (stop_all (some "c1") "a@example.com" tables)).suppressions)
      offer_mail
    ≢ allowed
stop_all_blocks_example =
    stop_all_blocks env [] offer_mail "a@example.com" tables (some "c1") [] refl

stop_all_cancels_example :
    All (λ w. runs_for "c1" w ≡ false) (stop_all (some "c1") "a@example.com" tables).watches
    × All (λ w. runs_for "c1" w ≡ false) (stop_all (some "c1") "a@example.com" tables).event_alerts
stop_all_cancels_example = stop_all_cancels "c1" "a@example.com" tables
