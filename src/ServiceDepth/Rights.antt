-- ===== src/ServiceDepth/Rights.antt =====
-- src/lib/domain/service-depth.ts: when an operation can run, stated on the adapters, the licence
-- and the configuration without the chain of returns.
use ticketguy.Prelude.{
  Bool, true, not, ◌&&◌, List, [], ◌∷◌, ◌≡◌, ◌↔◌, ◌⊎◌, inl, inr, refl, arith, any, keep, Bool-cases,
}
use ticketguy.ServiceDepth.{
  Operation, official_lookup, provided_offer_check, live_comparison, historical_context,
  trend_advice, market_tracking, price_watch, event_alert, staff_comparison,
}
use ticketguy.ServiceDepth.Policy.{allows}
use ticketguy.ServiceDepth.Capability.{
  available, CapabilityContext, is_usable, is_monitor, is_covered, is_empty, has_alerts,
  is_followed, compare_capability, watch_capability, rights_of, evaluate_operation_capability,
}

is_empty-keep {ℓ} :
    {A : Type ℓ} (p q : A → Bool) (xs : List A)
    → is_empty (keep q (keep p xs)) ≡ not (any (λ x. p x && q x) xs)
is_empty-keep p q [] = refl
is_empty-keep p q (x ∷ xs) = ground (arith, is_empty-keep p q xs)

keep-is_empty {ℓ} :
    {A : Type ℓ} (q : A → Bool) (xs : List A) → is_empty xs ≡ true → is_empty (keep q xs) ≡ true
keep-is_empty q [] h = refl
keep-is_empty q (x ∷ xs) h = cc

module _ (ctx : CapabilityContext) where
  -- Some adapter is enabled, approved, able to quote, and knows the event.
  abbrev pub is_quoted : Bool
  is_quoted = any (λ a. is_usable "quote_search" a && is_covered ctx a) ctx.adapters

  abbrev pub is_watched : Bool
  is_watched = any (λ a. is_monitor a && is_covered ctx a) ctx.adapters

  -- What the rights, the configuration and the coverage must have for an operation.
  abbrev pub IsReady : Operation → Type 0
  IsReady live_comparison = is_quoted ≡ true
  IsReady historical_context = ctx.licence.benchmark ≡ true
  IsReady trend_advice = (ctx.licence.advice ≡ true) ⊎ (ctx.licence.tracking ≡ true)
  IsReady market_tracking = (ctx.market_key ≡ true) × (ctx.licence.tracking ≡ true)
  IsReady price_watch =
      (ctx.watch_send_enabled ≡ true)
      × ((is_watched ≡ true)
          ⊎ ((ctx.market_key ≡ true)
              × (has_alerts ctx.market ≡ true)
              × (is_followed ctx.market ≡ true)))
  IsReady _ = Unit {0}

  compare_capability_iff : ((compare_capability ctx).state ≡ available) ↔ IsReady live_comparison
  unfolding compare_capability
  compare_capability_iff =
      let integrated = keep (is_usable "quote_search") ctx.adapters in
      ground (
        arith,
        is_empty-keep (is_usable "quote_search") (is_covered ctx) ctx.adapters,
        keep-is_empty (is_covered ctx) integrated,
      )

  watch_capability_iff : ((watch_capability ctx).state ≡ available) ↔ IsReady price_watch
  unfolding watch_capability
  watch_capability_iff = ground (arith, is_empty-keep is_monitor (is_covered ctx) ctx.adapters)

  pub rights_of_iff : (op : Operation) → ((rights_of ctx op).state ≡ available) ↔ IsReady op
  unfolding rights_of
  rights_of_iff live_comparison = compare_capability_iff
  rights_of_iff historical_context = ground arith
  rights_of_iff trend_advice = ground arith
  rights_of_iff market_tracking = ground arith
  rights_of_iff price_watch = watch_capability_iff
  rights_of_iff official_lookup = ground arith
  rights_of_iff provided_offer_check = ground arith
  rights_of_iff event_alert = ground arith
  rights_of_iff staff_comparison = ground arith

-- An operation is available exactly when the policy allows it and the rights, the configuration
-- and the coverage have what it needs: an enabled and approved adapter that quotes and knows the
-- event for a comparison; the benchmark licence for history; the advice or the tracking licence
-- for a trend; the key and the tracking licence for tracking; and for a price watch the sending
-- switch with a monitoring adapter that knows the event, or else the key, the alerts licence and
-- the event followed on the market.
pub evaluate_operation_capability-available_iff :
    (ctx : CapabilityContext) (op : Operation)
    → ((evaluate_operation_capability ctx op).state ≡ available)
      ↔ ((allows ctx.decision op ≡ true) × IsReady ctx op)
unfolding evaluate_operation_capability
evaluate_operation_capability-available_iff ctx op = elim (Bool-cases (allows ctx.decision op)) [
  | inl e ↦ rw e (let (to, from) = rights_of_iff ctx op in ((λ h. (refl, to h)), λ h. from (h.1)))
  | inr e ↦ rw e ((λ h. absurd (cc h)), λ h. absurd (cc (h.0)))
]
