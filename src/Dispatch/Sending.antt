-- ===== src/Dispatch/Sending.antt =====
-- src/lib/intake/pipeline.ts, `dispatchSend`: what has to hold for a message to reach the provider,
-- and what is then submitted.
use ticketguy.Prelude.{
  ℕ, ◌≡◌, ◌⊎◌, refl, subst, String, true, false, Option, none, some, List, [], ◌∷◌, ◌++◌, map, Bool,
  if◌then◌else◌, arith, find, not, all, Bool-cases, Option-cases, inl, inr, is_some, ◌&&◌, ◌||◌,
}
use mathlib.Core.Option.{some-injective}
use ticketguy.Prelude.Pushes.{push_if, append-nil_iff}
use ticketguy.SendGate.{evaluate_gate, GateInput, GateReason}
use ticketguy.SendGate.Exactness.{IsPermitted, evaluate_gate-allowed_iff}
use ticketguy.SendIntents.{
  SendIntent, SendIntents, SendIntentInput, Claim, claim_send_intent, has_id,
  uncertain_retry_decision, RetryDecision, manual_reconciliation, retry_same_key,
}
use ticketguy.Dispatch.{
  Facts, gate_input, scopes_for, gate_says, policy_holds, change_of, is_expired, Dispatched,
  fixture_header, has_approval, has_draft, has_request, same_hash, DispatchReason, submission_of,
  all_reasons, gated, deliver, submit, refuse, dispatch_queued, dispatch_intent, dispatch_send,
  gate, changed_reasons, is_suppression, requeue, dispatch_uncertain, dispatch_claimed, accepted,
  throws, ProviderReply, policy_changed, recommendation_expired, first_submitted, is_uncertain,
}

-- What the gate is asked about is this intent: an approval that is claimed is the intent's, and the
-- rows of an approval, a request or a contact that the intent has bear out what is claimed of them.
pub record IsAsked (f : Facts) (i : SendIntentInput) (a : GateInput) : Type 0 where
  pub class : a.message_class ≡ i.message_class
  pub address : a.recipient_lookup ≡ f.normalize_email_lookup i.recipient
  pub capture : a.test_mode ≡ f.capture
  pub fixture :
      (a.contains_fixture_data
        || (not (fixture_header i.headers) && (not (has_approval i) || not f.evidence_is_fixture)))
      ≡ true
  pub approval :
      (not a.approved || (is_some i.approval_id && (not (has_approval i) || f.approval_stands)))
      ≡ true
  pub hash :
      (not a.approval_hash_matches || (not (has_draft i) || same_hash f.draft_hash i.approved_hash))
      ≡ true
  pub revision : (not a.revision_current || (not (has_request i) || f.revision_current)) ≡ true
  pub evidence : (not a.evidence_fresh || (not (has_approval i) || f.evidence_fresh)) ≡ true
  pub permission :
      (not a.marketing_permission || (is_some i.contact_id && f.permission_granted)) ≡ true

-- The intent's message may be sent at this moment: the gate, asked about this intent, the policy,
-- the event and the draft's expiry all let it through.
pub record IsCleared (f : Facts) (i : SendIntentInput) (retrying : Bool) : Type 0 where
  pub permitted : IsPermitted f.env f.switches (scopes_for f i) (gate_input f i)
  pub asked : IsAsked f i (gate_input f i)
  pub policy : policy_holds f i ≡ true
  pub event : change_of f i ≡ none
  pub unexpired : is_expired f i retrying ≡ false

map-nil : (rs : List GateReason) → map gate rs ≡ [] → rs ≡ []
map-nil [] e = refl
map-nil (r ∷ rs) e = absurd (cc)

gate_input-IsAsked : (f : Facts) (i : SendIntentInput) → IsAsked f i (gate_input f i)
unfolding gate_input
gate_input-IsAsked f i = record {
  class = refl;
  address = refl;
  capture = refl;
  fixture = ground arith;
  approval = ground arith;
  hash = ground arith;
  revision = ground arith;
  evidence = ground arith;
  permission = ground arith;
}

no_reasons-IsCleared :
    (f : Facts) (i : SendIntentInput) (retrying : Bool)
    → all_reasons f i retrying ≡ []
    → IsCleared f i retrying
unfolding all_reasons gate_input
no_reasons-IsCleared f i retrying e = record {
  permitted =
      (evaluate_gate-allowed_iff f.env f.switches (scopes_for f i) (gate_input f i)).0
        (unfold evaluate_gate in rw (map-nil (gate_says f i) parts.0));
  asked = gate_input-IsAsked f i;
  policy = held (policy_holds f i) (change_of f i) (is_expired f i retrying) parts.1;
  event = unchanged (policy_holds f i) (change_of f i) (is_expired f i retrying) parts.1;
  unexpired = in_time (policy_holds f i) (change_of f i) (is_expired f i retrying) parts.1;
}
  where
    own : Bool → Option String → Bool → List DispatchReason
    own ok change late =
        push_if (not ok) policy_changed
        ++ (changed_reasons change ++ push_if late recommendation_expired)

    parts :
        (map gate (gate_says f i) ≡ [])
        × (own (policy_holds f i) (change_of f i) (is_expired f i retrying) ≡ [])
    parts =
        (append-nil_iff (map gate (gate_says f i))
            (own (policy_holds f i) (change_of f i) (is_expired f i retrying))).0
          e

    held : (ok : Bool) (change : Option String) (late : Bool) → own ok change late ≡ [] → ok ≡ true
    held ok change late h = ground arith

    unchanged :
        (ok : Bool) (change : Option String) (late : Bool) → own ok change late ≡ [] → change ≡ none
    unchanged ok change late h = ground arith

    in_time :
        (ok : Bool) (change : Option String) (late : Bool) → own ok change late ≡ [] → late ≡ false
    in_time ok change late h = ground arith

-- nothing is submitted where the gate has reasons
refuse-submitted :
    (c : Claim) (wall : ℕ) (rs : List DispatchReason) (rows : SendIntents)
    → (refuse c wall rs rows).submitted ≡ []
refuse-submitted c wall rs rows = elim (Bool-cases (all is_suppression rs)) [
  | inl e ↦ rw e
  | inr e ↦ rw e
]

submit-submitted :
    (i : SendIntentInput) (c : Claim) (now wall : ℕ) (reply : ProviderReply) (rows : SendIntents)
    → (submit i c now wall reply rows).submitted ≡ submission_of i ∷ []
submit-submitted i c now wall (accepted m) rows = refl
submit-submitted i c now wall (throws e) rows = refl

deliver-submitted :
    (i : SendIntentInput) (c : Claim) (now wall : ℕ) (f : Facts) (rows : SendIntents)
    → ((deliver i c now wall f rows).submitted ≡ [])
      ⊎ ((f.capture ≡ false) × ((deliver i c now wall f rows).submitted ≡ submission_of i ∷ []))
deliver-submitted i c now wall f rows = elim (Bool-cases f.capture) [
  | inl e ↦ rw e (inl refl)
  | inr e ↦ elim (Option-cases f.provider) [
    | inl p ↦ rw (e, p) (inl refl)
    | inr (reply, p) ↦ rw (e, p) (inr (refl, submit-submitted i c now wall reply rows))
  ]
]

-- Either nothing is submitted, or the message was cleared and is submitted once, as it stands.
abbrev Submits : SendIntentInput → Bool → Facts → Dispatched → Type 0
Submits i retrying f d =
    (d.submitted ≡ [])
    ⊎ (IsCleared f i retrying × (f.capture ≡ false) × (d.submitted ≡ submission_of i ∷ []))

gated-Submits :
    (i : SendIntentInput) (retrying : Bool) (c : Claim) (now wall : ℕ) (f : Facts)
    (rows : SendIntents) (rs : List DispatchReason)
    → all_reasons f i retrying ≡ rs
    → Submits i retrying f (gated i c now wall f rs rows)
gated-Submits i retrying c now wall f rows (r ∷ rs) e = inl (refuse-submitted c wall (r ∷ rs) rows)
gated-Submits i retrying c now wall f rows [] e = elim (deliver-submitted i c now wall f rows) [
  | inl none_sent ↦ inl none_sent
  | inr (live, one) ↦ inr (no_reasons-IsCleared f i retrying e, live, one)
]

dispatch_claimed-Submits :
    (i : SendIntentInput) (retrying : Bool) (claim : Option Claim) (now wall : ℕ) (f : Facts)
    (rows : SendIntents)
    → Submits i retrying f (dispatch_claimed i retrying claim now wall f rows)
unfolding dispatch_claimed
dispatch_claimed-Submits i retrying none now wall f rows = inl refl
dispatch_claimed-Submits i retrying (some c) now wall f rows =
    gated-Submits i retrying c now wall f rows (all_reasons f i retrying) refl

dispatch_queued-Submits :
    (r : SendIntent) (token : String) (now wall : ℕ) (f : Facts) (rows : SendIntents)
    → Submits r.input (is_uncertain r.state) f (dispatch_queued r token now wall f rows)
unfolding dispatch_queued
dispatch_queued-Submits r token now wall f rows =
    dispatch_claimed-Submits r.input (is_uncertain r.state)
      (claim_send_intent r.id token now rows).1 now wall f (claim_send_intent r.id token now rows).0

dispatch_uncertain-Submits :
    (decision : RetryDecision) (r : SendIntent) (token : String) (now wall : ℕ) (f : Facts)
    (rows : SendIntents)
    → Submits r.input (is_uncertain r.state) f (dispatch_uncertain decision r token now wall f rows)
unfolding dispatch_uncertain
dispatch_uncertain-Submits manual_reconciliation r token now wall f rows = inl refl
dispatch_uncertain-Submits retry_same_key r token now wall f rows =
    dispatch_queued-Submits r token now wall f (requeue r.id rows)

dispatch_intent-Submits :
    (r : SendIntent) (token : String) (now wall : ℕ) (f : Facts) (rows : SendIntents)
    → Submits r.input (is_uncertain r.state) f (dispatch_intent r token now wall f rows)
unfolding dispatch_intent
dispatch_intent-Submits r token now wall f rows = by_state (is_uncertain r.state)
  where
    by_state :
        (b : Bool)
        → Submits r.input (is_uncertain r.state) f (
            if b
            then dispatch_uncertain
                (uncertain_retry_decision (first_submitted r) now)
                r
                token
                now
                wall
                f
                rows
            else dispatch_queued r token now wall f rows)
    by_state true =
        dispatch_uncertain-Submits (uncertain_retry_decision (first_submitted r) now) r token now
          wall f rows
    by_state false = dispatch_queued-Submits r token now wall f rows

-- A message reaches the provider only when it is cleared at that moment and test mode does not
-- capture it: the gate, asked about the intent's own class and address and about the approval, the
-- request's revision and the contact that the intent has, permits it, and the policy, the event and
-- the draft's expiry hold nothing against it. What is submitted is then one message, under the
-- intent's dedupe key and with the intent's own content. Otherwise nothing is submitted.
pub dispatch_send-Submits :
    (id token : String) (now wall : ℕ) (f : Facts) (rows : SendIntents) (r : SendIntent)
    (d : Dispatched)
    → find (has_id id) rows ≡ some r
    → dispatch_send id token now wall f rows ≡ some d
    → (d.submitted ≡ [])
      ⊎ (IsCleared f r.input (is_uncertain r.state)
          × (f.capture ≡ false)
          × (d.submitted ≡ submission_of r.input ∷ []))
unfolding dispatch_send
dispatch_send-Submits id token now wall f rows r d found e =
    let e' : some (dispatch_intent r token now wall f rows) ≡ some d =
      rw (found, dispatch_send) at e in
    subst (λ x. Submits r.input (is_uncertain r.state) f x) (some-injective _ _ e')
      (dispatch_intent-Submits r token now wall f rows)
