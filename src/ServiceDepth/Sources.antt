-- ===== src/ServiceDepth/Sources.antt =====
-- src/lib/domain/service-depth.ts: the sources that an operation is told to use.
use mathlib.Core.List.{Memᴰ}
use ticketguy.Prelude.{
  String, Bool, true, false, not, ◌&&◌, ◌||◌, if◌then◌else◌, List, [], ◌∷◌, ◌≡◌, ◌⊎◌, inl, inr,
  refl, arith, keep, contains, All, Bool-cases,
}
use ticketguy.ServiceDepth.{
  ReasonCode, Operation, official_lookup, provided_offer_check, live_comparison, historical_context,
  trend_advice, market_tracking, price_watch, event_alert, staff_comparison,
}
use ticketguy.ServiceDepth.Policy.{allows}
use ticketguy.ServiceDepth.Capability.{
  AdapterFacts, CapabilityContext, market_watch_source, is_usable, is_monitor, is_covered, ids_of,
  is_empty, has_alerts, is_followed, can_run, cannot_run, compare_capability, watch_capability,
  rights_of, evaluate_operation_capability,
}

module _ (ctx : CapabilityContext) where
  -- An adapter of the configuration that is on, approved and knows the event.
  abbrev pub Serves : String → AdapterFacts → Type 0
  Serves id a =
      Memᴰ a ctx.adapters
      × (a.source_id ≡ id)
      × (a.enabled ≡ true)
      × (a.access_approved ≡ true)
      × (contains id ctx.covered_source_ids ≡ true)

  -- A source that may be named for an operation: one that an adapter serves, or the market's
  -- listings for a price watch.
  abbrev pub IsNamed : Operation → String → Type 0
  IsNamed op id =
      ((a : AdapterFacts) × Serves id a) ⊎ ((op ≡ price_watch) × (id ≡ market_watch_source))

  served :
      (op : Operation) (p : AdapterFacts → Bool)
      → ((a : AdapterFacts) → p a ≡ true → (a.enabled ≡ true) × (a.access_approved ≡ true))
      → (xs : List AdapterFacts) → ((a : AdapterFacts) → Memᴰ a xs → Memᴰ a ctx.adapters)
      → All (IsNamed op) (ids_of (keep (is_covered ctx) (keep p xs)))
  served op p sound [] inside = tt
  served op p sound (x ∷ xs) inside =
      let rest = served op p sound xs (λ a m. inside a (Memᴰ.tail m)) in
      elim (Bool-cases (p x)) [
        | inr e ↦ rw e rest
        | inl e ↦ elim (Bool-cases (is_covered ctx x)) [
          | inr c ↦ rw (e, c) rest
          | inl c ↦
              let (on, approved) = sound x e in
              rw (e, c) (inl (x, (inside x (Memᴰ.head refl), refl, on, approved, c)), rest)
        ]
      ]

  compare_sources : All (IsNamed live_comparison) (compare_capability ctx).source_ids
  unfolding compare_capability
  compare_sources =
      let integrated = keep (is_usable "quote_search") ctx.adapters in
      elim (Bool-cases (is_empty integrated)) [
        | inl e ↦ rw e tt
        | inr e ↦ elim (Bool-cases (is_empty (keep (is_covered ctx) integrated))) [
          | inl f ↦ rw (e, f) tt
          | inr f ↦
              rw (e, f)
                (served live_comparison (is_usable "quote_search") (λ a h. ground arith)
                  ctx.adapters (λ a m. m))
        ]
      ]

  watch_sources : All (IsNamed price_watch) (watch_capability ctx).source_ids
  unfolding watch_capability
  watch_sources =
      elim (Bool-cases (is_empty (keep (is_covered ctx) (keep is_monitor ctx.adapters)))) [
        | inr f ↦ elim (Bool-cases ctx.watch_send_enabled) [
          | inr w ↦ rw w tt
          | inl w ↦
              rw (w, f)
                (served price_watch is_monitor (λ a h. ground arith) ctx.adapters (λ a m. m))
        ]
        | inl f ↦ rw f (
            fallback ctx.watch_send_enabled (ctx.market_key && has_alerts ctx.market)
              (is_followed ctx.market) (is_empty (keep is_monitor ctx.adapters)))
      ]
    where
      fallback :
          (w k s e : Bool)
          → All
              (IsNamed price_watch)
              (if not w
                then cannot_run ctx price_watch ReasonCode.delivery_disabled
                else if k
                then (if s
                    then can_run ctx price_watch (market_watch_source ∷ [])
                    else cannot_run ctx price_watch ReasonCode.event_not_covered)
                else if e
                then cannot_run ctx price_watch ReasonCode.monitoring_unavailable
                else cannot_run ctx price_watch ReasonCode.event_not_covered).source_ids
      fallback false k s e = tt
      fallback true true true e = (inr (refl, refl), tt)
      fallback true true false e = tt
      fallback true false s true = tt
      fallback true false s false = tt

  licensed :
      (op : Operation) (b c : Bool) (r s : ReasonCode)
      → All
          (IsNamed op)
          (if b
            then cannot_run ctx op r
            else if c
            then can_run ctx op []
            else cannot_run ctx op s).source_ids
  licensed op true c r s = tt
  licensed op false true r s = tt
  licensed op false false r s = tt

  rights_of_sources : (op : Operation) → All (IsNamed op) (rights_of ctx op).source_ids
  unfolding rights_of
  rights_of_sources live_comparison = compare_sources
  rights_of_sources price_watch = watch_sources
  rights_of_sources market_tracking =
      licensed market_tracking (not ctx.market_key) ctx.licence.tracking
        ReasonCode.source_not_integrated ReasonCode.history_use_unapproved
  rights_of_sources historical_context =
      licensed historical_context false ctx.licence.benchmark ReasonCode.policy_changed
        ReasonCode.history_use_unapproved
  rights_of_sources trend_advice =
      licensed trend_advice false (ctx.licence.advice || ctx.licence.tracking)
        ReasonCode.policy_changed ReasonCode.history_use_unapproved
  rights_of_sources official_lookup = tt
  rights_of_sources provided_offer_check = tt
  rights_of_sources event_alert = tt
  rights_of_sources staff_comparison = tt

-- Whatever an operation is told to use is a source that an enabled, approved adapter serves and
-- that knows the event; only a price watch may be told to use the market's listings instead.
pub evaluate_operation_capability-sources :
    (ctx : CapabilityContext) (op : Operation)
    → All (IsNamed ctx op) (evaluate_operation_capability ctx op).source_ids
unfolding evaluate_operation_capability
evaluate_operation_capability-sources ctx op = elim (Bool-cases (allows ctx.decision op)) [
  | inr e ↦ rw e tt
  | inl e ↦ rw e (rights_of_sources ctx op)
]
