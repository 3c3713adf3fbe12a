-- ===== src/SendGate/Exactness.antt =====
-- src/lib/email/send-gate.ts: what the gate lets through, stated class by class without the list
-- of reasons.
use ticketguy.Prelude.{◌≡◌, ◌↔◌, ◌⊎◌, refl, true, false, List, [], ◌∷◌, arith, contains}
use ticketguy.SendGate.{
  Env, Switches, SuppressionScope, global_scope, marketing_scope, watch_scope, GateInput,
  MessageClass, recommendation, watch_confirmation, watch_alert, event_alert, follow_up, marketing,
  GateReason, allowed, is_off, has_scope, gate_reasons, evaluate_gate, verdict,
}

abbrev pub IsApproved : GateInput → Type 0
IsApproved input = (input.approved ≡ true) × (input.approval_hash_matches ≡ true)

module _ (env : Env) (switches : Switches) (suppressed : List SuppressionScope) where
  -- The watch switches and opt-outs.
  abbrev pub WatchesOpen : Type 0
  WatchesOpen = (is_off "watches" switches ≡ false) × (has_scope watch_scope suppressed ≡ false)

  -- What each class of message needs besides what every message needs.
  abbrev pub ClassPermits : MessageClass → GateInput → Type 0
  ClassPermits recommendation input =
      (is_off "recommendations" switches ≡ false) × IsApproved input × (input.evidence_fresh ≡ true)
  ClassPermits marketing input =
      (env.marketing_send_enabled ≡ true)
      × (is_off "marketing" switches ≡ false)
      × (input.marketing_permission ≡ true)
      × (has_scope marketing_scope suppressed ≡ false)
      × IsApproved input
  ClassPermits watch_alert input =
      (env.watch_send_enabled ≡ true)
      × WatchesOpen
      × IsApproved input
      × (input.evidence_fresh ≡ true)
  ClassPermits watch_confirmation input =
      (env.watch_send_enabled ≡ true)
      × WatchesOpen
      × ((env.human_review_required ≡ false) ⊎ IsApproved input)
  ClassPermits event_alert input = (env.event_alerts_enabled ≡ true) × WatchesOpen
  ClassPermits follow_up input =
      (env.follow_up_enabled ≡ true)
      × (is_off "follow_ups" switches ≡ false)
      × (has_scope watch_scope suppressed ≡ false)
  ClassPermits _ input = Unit {0}

  pub record IsPermitted (input : GateInput) : Type 0 where
    pub live : env.fixture_mode ≡ false
    pub enabled : env.email_send_enabled ≡ true
    pub real : input.contains_fixture_data ≡ false
    pub outbound : is_off "all_outbound" switches ≡ false
    pub class : ClassPermits input.message_class input
    pub wanted : has_scope global_scope suppressed ≡ false
    pub recipient :
        (input.test_mode ≡ true)
        ⊎ (env.test_recipient_allowlist ≡ [])
        ⊎ (contains input.recipient_lookup env.test_recipient_allowlist ≡ true)
    pub current : input.revision_current ≡ true

  no_reasons :
      (c : MessageClass) (input : GateInput)
      → input.message_class ≡ c
      → gate_reasons env switches suppressed input ≡ []
      → IsPermitted input
  unfolding gate_reasons
  no_reasons recommendation input e h = ground arith
  no_reasons _ input e h = ground arith

  permitted-no_reasons :
      (c : MessageClass) (input : GateInput)
      → input.message_class ≡ c
      → IsPermitted input
      → gate_reasons env switches suppressed input ≡ []
  unfolding gate_reasons
  permitted-no_reasons recommendation input e p = ground arith
  permitted-no_reasons _ input e p = ground arith

verdict-allowed_iff : (rs : List GateReason) → (verdict rs ≡ allowed) ↔ (rs ≡ [])
verdict-allowed_iff [] = ground arith
verdict-allowed_iff (r ∷ rs) = ground arith

-- A message passes the gate exactly when it is permitted: the service is live and sending, the
-- content is real, no kill switch, opt-out or bounce that concerns its class stands against it,
-- its class has the approval, marketing permission and fresh evidence that it needs, its revision
-- is current, and its recipient may be written to.
pub evaluate_gate-allowed_iff :
    (env : Env) (switches : Switches) (suppressed : List SuppressionScope) (input : GateInput)
    → (evaluate_gate env switches suppressed input ≡ allowed)
      ↔ IsPermitted env switches suppressed input
unfolding evaluate_gate
evaluate_gate-allowed_iff env switches suppressed input =
    let (to, from) = verdict-allowed_iff (gate_reasons env switches suppressed input) in
    (
      λ e. no_reasons env switches suppressed input.message_class input refl (to e),
      λ p. from (permitted-no_reasons env switches suppressed input.message_class input refl p),
    )
