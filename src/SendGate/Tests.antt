-- ===== src/SendGate/Tests.antt =====
-- src/lib/email/send-gate.ts: runs of the gate, and each theorem at a concrete input.
use ticketguy.Prelude.{◌≡◌, ◌↔◌, refl, true, false, not, if◌then◌else◌, str_eq, [], ◌∷◌}
use ticketguy.SendGate.{
  Env, GateInput, watch_confirmation, watch_scope, allowed, refused, not_approved, suppressed_watch,
  is_off, gate_reasons, evaluate_gate,
}
use ticketguy.SendGate.Switches.{
  set_kill_switch, ensure_default_switches, set_kill_switch-is_off, ensure_default_switches-is_off,
}
use ticketguy.SendGate.Exactness.{IsPermitted, evaluate_gate-allowed_iff}

abbrev live_env : Env
live_env = record {
  fixture_mode = false;
  email_send_enabled = true;
  marketing_send_enabled = false;
  watch_send_enabled = true;
  event_alerts_enabled = true;
  follow_up_enabled = true;
  human_review_required = true;
  test_recipient_allowlist = [];
}

abbrev confirmation : GateInput
confirmation = record {
  message_class = watch_confirmation;
  recipient_lookup = "a@example.com";
  contains_fixture_data = false;
  approved = true;
  approval_hash_matches = true;
  revision_current = true;
  evidence_fresh = false;
  marketing_permission = false;
  test_mode = false;
}

gate_tests :
    (evaluate_gate live_env [] [] confirmation ≡ allowed)
    × (evaluate_gate live_env [] (watch_scope ∷ []) (record confirmation { approved = false })
        ≡ refused (suppressed_watch ∷ not_approved ∷ []))
unfolding evaluate_gate gate_reasons is_off
gate_tests = (refl, refl)

evaluate_gate-allowed_iff_example :
    (evaluate_gate live_env (("watches", true) ∷ []) [] confirmation ≡ allowed)
    ↔ IsPermitted live_env (("watches", true) ∷ []) [] confirmation
evaluate_gate-allowed_iff_example =
    evaluate_gate-allowed_iff live_env (("watches", true) ∷ []) [] confirmation

set_kill_switch-is_off_example :
    is_off "marketing" (set_kill_switch "all_outbound" false (("marketing", false) ∷ [])) ≡ (
      if str_eq "all_outbound" "marketing"
      then not false
      else is_off "marketing" (("marketing", false) ∷ []))
set_kill_switch-is_off_example =
    set_kill_switch-is_off "all_outbound" "marketing" false (("marketing", false) ∷ [])

ensure_default_switches-is_off_example :
    is_off "marketing" (ensure_default_switches (("marketing", false) ∷ []))
    ≡ is_off "marketing" (("marketing", false) ∷ [])
ensure_default_switches-is_off_example =
    ensure_default_switches-is_off "marketing" (("marketing", false) ∷ [])
