-- ===== src/SendGate.antt =====
-- src/lib/email/send-gate.ts: the gate that every message passes immediately before it is sent.
-- A reason is a constructor where the source has a fixed text; switches and suppression scopes
-- are read as the maps that `loadSwitches` and `loadSuppressionScopes` build.
pub mod Exactness
pub mod Switches
mod Tests
use ticketguy.Prelude.{
  ℕ, String, Bool, true, false, not, ◌&&◌, ◌||◌, Option, none, some, List, [], ◌∷◌, ◌++◌, map,
  str_eq, if◌then◌else◌, contains, any, length, ltb,
}
use ticketguy.Prelude.Pushes.{push_if}

pub data MessageClass : Type 0 where
  acknowledgment clarification recommendation no_result watch_confirmation watch_alert :
      MessageClass
  event_alert follow_up marketing verification staff_reply : MessageClass

pub data SuppressionScope : Type 0 where
  global_scope marketing_scope watch_scope : SuppressionScope

-- The fields of the environment that the gate reads (src/lib/config/env.ts).
pub record Env : Type 0 where
  pub fixture_mode : Bool
  pub email_send_enabled : Bool
  pub marketing_send_enabled : Bool
  pub watch_send_enabled : Bool
  pub event_alerts_enabled : Bool
  pub follow_up_enabled : Bool
  pub human_review_required : Bool
  pub test_recipient_allowlist : List String

pub record GateInput : Type 0 where
  pub message_class : MessageClass
  pub recipient_lookup : String
  pub contains_fixture_data : Bool
  pub approved : Bool
  pub approval_hash_matches : Bool
  pub revision_current : Bool
  pub evidence_fresh : Bool
  pub marketing_permission : Bool
  pub test_mode : Bool

pub data GateReason : Type 0 where
  app_mode_fixture email_send_disabled content_contains_fixture_data : GateReason
  kill_switch_all_outbound kill_switch_recommendations kill_switch_marketing : GateReason
  kill_switch_watches kill_switch_follow_ups : GateReason
  marketing_send_disabled no_marketing_permission suppressed_marketing : GateReason
  watch_send_disabled suppressed_watch event_alerts_disabled follow_up_disabled : GateReason
  suppressed_global recipient_not_in_test_allowlist : GateReason
  not_approved approval_hash_mismatch revision_stale evidence_stale : GateReason

pub data GateResult : Type 0 where
  allowed : GateResult
  refused : List GateReason → GateResult

-- rows of kill_switches, as a map from keys
abbrev pub Switches : Type 0
Switches = List (String × Bool)

-- `switches[key] === false`: a missing key is not switched off
unfoldable pub is_off : String → Switches → Bool
is_off key [] = false
is_off key ((k, enabled) ∷ rest) = if str_eq k key then not enabled else is_off key rest

abbrev pub same_scope : SuppressionScope → SuppressionScope → Bool
same_scope global_scope global_scope = true
same_scope marketing_scope marketing_scope = true
same_scope watch_scope watch_scope = true
same_scope _ _ = false

abbrev pub has_scope : SuppressionScope → List SuppressionScope → Bool
has_scope scope = any (same_scope scope)

abbrev pub requires_approval : MessageClass → Bool
requires_approval recommendation = true
requires_approval watch_alert = true
requires_approval marketing = true
requires_approval _ = false

-- the classes that `HUMAN_REVIEW_REQUIRED` leaves alone
abbrev pub exempt_from_review : MessageClass → Bool
exempt_from_review acknowledgment = true
exempt_from_review clarification = true
exempt_from_review verification = true
exempt_from_review no_result = true
exempt_from_review event_alert = true
exempt_from_review follow_up = true
exempt_from_review staff_reply = true
exempt_from_review _ = false

abbrev pub is_nonempty : List String → Bool
is_nonempty [] = false
is_nonempty (x ∷ xs) = true

abbrev pub verdict : List GateReason → GateResult
verdict [] = allowed
verdict (r ∷ rs) = refused (r ∷ rs)

module _ (env : Env) (switches : Switches) (suppressed : List SuppressionScope) where
  -- the reasons of the blocks that ask for the message's class
  pub class_reasons : GateInput → MessageClass → List GateReason
  class_reasons input recommendation =
      push_if (is_off "recommendations" switches) kill_switch_recommendations
  class_reasons input marketing =
      push_if (not env.marketing_send_enabled) marketing_send_disabled
      ++ (push_if (is_off "marketing" switches) kill_switch_marketing
          ++ (push_if (not input.marketing_permission) no_marketing_permission
              ++ push_if (has_scope marketing_scope suppressed) suppressed_marketing))
  class_reasons input watch_alert =
      push_if (not env.watch_send_enabled) watch_send_disabled
      ++ (push_if (is_off "watches" switches) kill_switch_watches
          ++ push_if (has_scope watch_scope suppressed) suppressed_watch)
  class_reasons input watch_confirmation =
      push_if (not env.watch_send_enabled) watch_send_disabled
      ++ (push_if (is_off "watches" switches) kill_switch_watches
          ++ push_if (has_scope watch_scope suppressed) suppressed_watch)
  class_reasons input event_alert =
      push_if (not env.event_alerts_enabled) event_alerts_disabled
      ++ (push_if (is_off "watches" switches) kill_switch_watches
          ++ push_if (has_scope watch_scope suppressed) suppressed_watch)
  class_reasons input follow_up =
      push_if (not env.follow_up_enabled) follow_up_disabled
      ++ (push_if (is_off "follow_ups" switches) kill_switch_follow_ups
          ++ push_if (has_scope watch_scope suppressed) suppressed_watch)
  class_reasons input _ = []

  abbrev pub needs_approval : MessageClass → Bool
  needs_approval c =
      requires_approval c || (env.human_review_required && not (exempt_from_review c))

  abbrev pub outside_allowlist : GateInput → Bool
  outside_allowlist input =
      not input.test_mode
      && (is_nonempty env.test_recipient_allowlist
          && not (contains input.recipient_lookup env.test_recipient_allowlist))

  abbrev pub needs_fresh_evidence : MessageClass → Bool
  needs_fresh_evidence recommendation = true
  needs_fresh_evidence watch_alert = true
  needs_fresh_evidence _ = false

  unfoldable pub gate_reasons : GateInput → List GateReason
  unfolding class_reasons
  gate_reasons input =
      push_if env.fixture_mode app_mode_fixture
      ++ (push_if (not env.email_send_enabled) email_send_disabled
          ++ (push_if input.contains_fixture_data content_contains_fixture_data
              ++ (push_if (is_off "all_outbound" switches) kill_switch_all_outbound
                  ++ (class_reasons input input.message_class
                      ++ (push_if (has_scope global_scope suppressed) suppressed_global
                          ++ (push_if (outside_allowlist input) recipient_not_in_test_allowlist
                              ++ (push_if (needs_approval input.message_class && not input.approved)
                                    not_approved
                                  ++ (push_if
                                        (needs_approval input.message_class
                                          && not input.approval_hash_matches)
                                        approval_hash_mismatch
                                      ++ (push_if (not input.revision_current) revision_stale
                                          ++ push_if
                                              (needs_fresh_evidence input.message_class
                                                && not input.evidence_fresh)
                                              evidence_stale)))))))))

  unfoldable pub evaluate_gate : GateInput → GateResult
  evaluate_gate input = verdict (gate_reasons input)
