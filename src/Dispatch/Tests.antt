-- ===== src/Dispatch/Tests.antt =====
-- src/lib/intake/pipeline.ts, `dispatchSend`: each theorem at a concrete input.
use ticketguy.Prelude.{◌≡◌, ◌⊎◌, refl, true, false, none, some, [], ◌∷◌, arith}
use ticketguy.Prelude.Tables.{update_where}
use ticketguy.SendGate.{Env, follow_up, gate_reasons, is_off}
use ticketguy.SendIntents.{
  provider_accepted, SendIntentInput, SendIntent, uncertain, new_intent, claim_send_intent,
  record_provider_accepted, release_claim, uncertain_retry_decision,
}
use ticketguy.Dispatch.{
  Facts, Dispatched, dispatch_send, dispatch_intent, dispatch_queued, all_reasons, gate_input,
  submission_of, accepted, throws, sent, needs_reconciliation,
}
use ticketguy.Dispatch.Sending.{IsCleared, dispatch_send-Submits}
use ticketguy.Dispatch.Window.{dispatch_send_outside_window, retry_restarts_window}

abbrev env : Env
env = record {
  fixture_mode = false;
  email_send_enabled = true;
  marketing_send_enabled = false;
  watch_send_enabled = true;
  event_alerts_enabled = true;
  follow_up_enabled = true;
  human_review_required = true;
  test_recipient_allowlist = [];
}

abbrev draft : SendIntentInput
draft = record {
  dedupe_key = "follow_up:r1";
  message_class = follow_up;
  contact_id = some "c1";
  conversation_id = some "v1";
  request_id = some "r1";
  request_revision = some 1;
  approval_id = none;
  approved_hash = none;
  recipient = "a@example.com";
  from_address = "my@ticketguy.now";
  subject = "Your tickets";
  body_text = "Hello";
  body_html = "<p>Hello</p>";
  headers = [];
}

abbrev intent : SendIntent
intent = new_intent (λ i. i.body_text) draft "i1" 1000

abbrev facts : Facts
facts = record {
  env = env;
  switches = [];
  normalize_email_lookup = λ a. a;
  suppressed = λ a. [];
  revision_current = true;
  approval_stands = false;
  draft_hash = none;
  evidence_fresh = true;
  evidence_is_fixture = false;
  permission_granted = false;
  policy_ok = true;
  event_change = none;
  draft_expired = false;
  capture = false;
  captured_id = "";
  captured_rfc_id = "";
  provider = some (accepted "p1");
}

code : Unit {0}
unfolding dispatch_send dispatch_intent dispatch_queued all_reasons gate_input gate_reasons is_off
    claim_send_intent release_claim record_provider_accepted update_where uncertain_retry_decision
code = tt

abbrev after_send : Dispatched
after_send = record {
  rows =
      record intent {
        state = provider_accepted;
        claimed_at = some 2000;
        attempts = 1;
        provider_message_id = some "p1";
        submitted_at = some 2000;
      }
      ∷ [];
  submitted = submission_of draft ∷ [];
  outcome = sent;
}

send_test : dispatch_send "i1" "a" 2000 2001 facts (intent ∷ []) ≡ some after_send
unfolding code
send_test = refl

dispatch_send-Submits_example :
    (after_send.submitted ≡ [])
    ⊎ (IsCleared facts draft false
        × (facts.capture ≡ false)
        × (after_send.submitted ≡ submission_of draft ∷ []))
dispatch_send-Submits_example =
    dispatch_send-Submits "i1" "a" 2000 2001 facts (intent ∷ []) intent after_send refl send_test

abbrev unsure : SendIntent
unsure = record intent { state = uncertain; claimed_at = some 1000 }

dispatch_send_outside_window_example :
    dispatch_send "i1" "a" 86401000 86401001 facts (unsure ∷ [])
    ≡ some (record { rows = unsure ∷ []; submitted = []; outcome = needs_reconciliation })
dispatch_send_outside_window_example =
    dispatch_send_outside_window "i1" "a" 86401000 86401001 1000 facts (unsure ∷ []) unsure refl
      refl refl (omega arith)

abbrev failing : Facts
failing = record facts { provider = some (throws "timeout") }

clear : all_reasons failing draft true ≡ []
unfolding code
clear = refl

-- retried after 20 hours and again after 40
retry_restarts_window_example :
    (d d' : Dispatched) × (dispatch_send "i1" "a" 72001000 5 failing (unsure ∷ []) ≡ some d)
    × (d.submitted ≡ submission_of draft ∷ [])
    × (dispatch_send "i1" "b" 144001000 6 failing d.rows ≡ some d')
    × (d'.submitted ≡ submission_of draft ∷ [])
retry_restarts_window_example =
    retry_restarts_window unsure "a" "b" "timeout" 1000 72001000 144001000 5 6 failing refl refl
      refl clear refl refl (omega arith) (omega arith) (omega arith)
