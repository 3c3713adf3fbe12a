-- ===== src/ServiceDepth/Enforcement.antt =====
-- src/lib/intake/service-policy.ts: what enforcing the policy takes away from the rights.
use ticketguy.Prelude.{
  ℕ, String, true, false, Option, some, ◌≡◌, ◌↔◌, ◌⊎◌, inl, inr, refl, sym, subst, Bool-cases,
}
use ticketguy.ServiceDepth.{
  Operation, operations, official_lookup, provided_offer_check, live_comparison, historical_context,
  trend_advice, market_tracking, price_watch, event_alert, staff_comparison, Words,
  ServicePolicyDecision,
}
use ticketguy.ServiceDepth.Policy.{allows}
use ticketguy.ServiceDepth.Capability.{available, CapabilityContext, evaluate_operation_capability}
use ticketguy.ServiceDepth.Rights.{IsReady, evaluate_operation_capability-available_iff}
use ticketguy.ServiceDepth.Snapshot.{
  PolicySnapshot, PolicyTables, PolicyEnv, EventRows, is_enforce, capability, capability_context,
  capabilities_for, decision_for_event, snapshot_of, policy_for_event,
}

allows_all :
    (d : ServicePolicyDecision) (op : Operation)
    → allows (record d { allowed_operations = operations }) op ≡ true
unfolding allows
allows_all d official_lookup = refl
allows_all d provided_offer_check = refl
allows_all d live_comparison = refl
allows_all d historical_context = refl
allows_all d trend_advice = refl
allows_all d market_tracking = refl
allows_all d price_watch = refl
allows_all d event_alert = refl
allows_all d staff_comparison = refl

-- What an operation needs does not hang on the decision.
IsReady-decision :
    (ctx : CapabilityContext) (d : ServicePolicyDecision) (op : Operation)
    → IsReady (record ctx { decision = d }) op ≡ IsReady ctx op
IsReady-decision ctx d official_lookup = refl
IsReady-decision ctx d provided_offer_check = refl
IsReady-decision ctx d live_comparison = refl
IsReady-decision ctx d historical_context = refl
IsReady-decision ctx d trend_advice = refl
IsReady-decision ctx d market_tracking = refl
IsReady-decision ctx d price_watch = refl
IsReady-decision ctx d event_alert = refl
IsReady-decision ctx d staff_comparison = refl

abbrev permitting_all : CapabilityContext → CapabilityContext
permitting_all ctx = record ctx {
  decision = record ctx.decision { allowed_operations = operations };
}

evaluate-permitting_all :
    (ctx : CapabilityContext) (op : Operation)
    → ((evaluate_operation_capability ctx op).state ≡ available) ↔ (
        (allows ctx.decision op ≡ true)
        × ((evaluate_operation_capability (permitting_all ctx) op).state ≡ available))
evaluate-permitting_all ctx op =
    let (to, from) = evaluate_operation_capability-available_iff ctx op in
    let (to_all, from_all) = evaluate_operation_capability-available_iff (permitting_all ctx) op in
    let same = IsReady-decision ctx (permitting_all ctx).decision op in
    (
      (λ h.
          let (allowed, ready) = to h in
          (allowed, from_all (allows_all ctx.decision op, subst (λ T. T) (sym same) ready))),
      λ h. from (h.0, subst (λ T. T) same ((to_all h.1).1)),
    )

snapshot_of_iff :
    (words : Words) (db : PolicyTables) (env : PolicyEnv) (row : EventRows) (now : ℕ)
    (intent : Option String) (op : Operation)
    → let s = snapshot_of words db env row now intent in
      ((s.capabilities op).state ≡ available)
      ↔ ((allows s.decision op ≡ true) × ((s.rights op).state ≡ available))
unfolding snapshot_of capabilities_for capability_context
snapshot_of_iff words db env row now intent op =
    evaluate-permitting_all
      (capability_context db env (decision_for_event words env row now intent) row.event now) op

capability_iff :
    (s : PolicySnapshot) (op : Operation)
    → ((s.capabilities op).state ≡ available)
      ↔ ((allows s.decision op ≡ true) × ((s.rights op).state ≡ available))
    → ((capability s op).state ≡ available) ↔ (
        ((is_enforce s.mode ≡ false) ⊎ (allows s.decision op ≡ true))
        × ((s.rights op).state ≡ available))
unfolding capability
capability_iff s op same = elim (Bool-cases (is_enforce s.mode)) [
  | inl e ↦ rw e (
    (λ h. (inr (same.0 h).0, (same.0 h).1)),
    λ h. elim (h.0) [ inl q ↦ absurd (cc q) | inr q ↦ same.1 (q, h.1) ],
  )
  | inr e ↦ rw e ((λ h. (inl refl, h)), λ h. h.1)
]

-- For a snapshot of the tables, a worker may act on an operation exactly when its rights,
-- configuration and coverage allow it, and moreover, where the mode enforces the policy, the
-- decision allows it too: enforcing only takes away, and the other modes ask for the rights alone.
pub policy_for_event-capability_iff :
    (words : Words) (db : PolicyTables) (env : PolicyEnv) (row : EventRows) (now : ℕ)
    (intent : Option String) (op : Operation) (snap : PolicySnapshot)
    → policy_for_event words db env (some row) now intent ≡ some snap
    → ((capability snap op).state ≡ available) ↔ (
        ((is_enforce snap.mode ≡ false) ⊎ (allows snap.decision op ≡ true))
        × ((snap.rights op).state ≡ available))
unfolding policy_for_event
policy_for_event-capability_iff words db env row now intent op snap e =
    let made = snapshot_of words db env row now intent in
    let same : made ≡ snap = cc e in
    subst
      (λ s. ((capability s op).state ≡ available) ↔ (
        ((is_enforce s.mode ≡ false) ⊎ (allows s.decision op ≡ true))
        × ((s.rights op).state ≡ available)))
      same (capability_iff made op (snapshot_of_iff words db env row now intent op))
