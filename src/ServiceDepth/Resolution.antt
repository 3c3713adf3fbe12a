-- ===== src/ServiceDepth/Resolution.antt =====
-- src/lib/domain/service-depth.ts: what a request may have done for it, without the table of
-- operations and the chain of returns.
use ticketguy.Prelude.{
  ℕ, String, Bool, true, false, Option, none, some, List, [], ◌∷◌, ◌≡◌, ◌↔◌, ◌⊎◌, inl, inr, refl,
  ap, sym, ◌∙◌, ◌≤◌, max, ◌||◌, if◌then◌else◌, leb, leb_iff, str_eq, contains, find, any, arith,
  Bool-cases,
}
use ticketguy.ServiceDepth.{
  ServiceDepth, ReasonCode, outside, guide, compare, core, depth_rank, Operation, official_lookup,
  provided_offer_check, live_comparison, historical_context, trend_advice, market_tracking,
  price_watch, event_alert, staff_comparison, operations_by_depth, policy_category, rule_of,
}
use ticketguy.ServiceDepth.Policy.{
  DepthOverride, PolicyContext, is_foreign, applies, is_outside, promotes, promotion, depth_for,
  first_reasons, promoted, resolve_category, resolve_for, resolve_service_policy, same_operation,
  allows,
}

-- The least depth that does an operation.
abbrev pub needed : Operation → ServiceDepth
needed official_lookup = guide
needed provided_offer_check = guide
needed live_comparison = compare
needed event_alert = compare
needed _ = core

-- Operations grow with the depth.
operations_by_depth-leb :
    (d : ServiceDepth) (op : Operation)
    → any (same_operation op) (operations_by_depth d) ≡ leb (depth_rank (needed op)) (depth_rank d)
operations_by_depth-leb outside official_lookup = refl
operations_by_depth-leb outside provided_offer_check = refl
operations_by_depth-leb outside live_comparison = refl
operations_by_depth-leb outside historical_context = refl
operations_by_depth-leb outside trend_advice = refl
operations_by_depth-leb outside market_tracking = refl
operations_by_depth-leb outside price_watch = refl
operations_by_depth-leb outside event_alert = refl
operations_by_depth-leb outside staff_comparison = refl
operations_by_depth-leb guide official_lookup = refl
operations_by_depth-leb guide provided_offer_check = refl
operations_by_depth-leb guide live_comparison = refl
operations_by_depth-leb guide historical_context = refl
operations_by_depth-leb guide trend_advice = refl
operations_by_depth-leb guide market_tracking = refl
operations_by_depth-leb guide price_watch = refl
operations_by_depth-leb guide event_alert = refl
operations_by_depth-leb guide staff_comparison = refl
operations_by_depth-leb compare official_lookup = refl
operations_by_depth-leb compare provided_offer_check = refl
operations_by_depth-leb compare live_comparison = refl
operations_by_depth-leb compare historical_context = refl
operations_by_depth-leb compare trend_advice = refl
operations_by_depth-leb compare market_tracking = refl
operations_by_depth-leb compare price_watch = refl
operations_by_depth-leb compare event_alert = refl
operations_by_depth-leb compare staff_comparison = refl
operations_by_depth-leb core official_lookup = refl
operations_by_depth-leb core provided_offer_check = refl
operations_by_depth-leb core live_comparison = refl
operations_by_depth-leb core historical_context = refl
operations_by_depth-leb core trend_advice = refl
operations_by_depth-leb core market_tracking = refl
operations_by_depth-leb core price_watch = refl
operations_by_depth-leb core event_alert = refl
operations_by_depth-leb core staff_comparison = refl

module _ (ctx : PolicyContext) where
  -- The category that the rules know the request by, and the depth of its format.
  abbrev pub known_category : String
  known_category = policy_category ctx.category

  abbrev pub depth_by_format : ServiceDepth
  depth_by_format = (depth_for (rule_of known_category) ctx.format).0

  -- The rank that an override grants, none where the category is unknown or outside.
  abbrev pub granted_by : Option DepthOverride → ℕ
  granted_by none = 0
  granted_by (some o) =
      if str_eq known_category "unknown" || is_outside (rule_of known_category).base
      then 0
      else depth_rank o.depth

  -- The first override that is live and names the event or its entity.
  abbrev pub live_override : Option DepthOverride
  live_override = find (applies ctx) ctx.overrides

  abbrev pub is_blocked : Bool
  is_blocked = contains known_category ctx.blocked_categories

  abbrev pub CategoryPermits : Operation → Type 0
  CategoryPermits op =
      ((is_blocked ≡ true) × (op ≡ official_lookup))
      ⊎ ((is_blocked ≡ false)
          × (depth_rank (needed op) ≤ max (depth_rank depth_by_format) (granted_by live_override)))

  -- What may be done: nothing for another product or country, at most a look at the official
  -- route for a blocked category, and else what the deeper of format and override reaches.
  abbrev pub Permits : Option String → Operation → Type 0
  Permits intent op = (intent ≡ none) × (is_foreign ctx.country ≡ false) × CategoryPermits op

  allows-promoted :
      (op : Operation) (rs : List ReasonCode) (found : Option DepthOverride)
      → allows
          (promoted ctx known_category depth_by_format rs
            (promotion known_category (rule_of known_category) depth_by_format found))
          op
        ≡ leb (depth_rank (needed op)) (max (depth_rank depth_by_format) (granted_by found))
  unfolding allows
  allows-promoted op rs none = ground (arith, operations_by_depth-leb depth_by_format op)
  allows-promoted op rs (some o) =
      elim (Bool-cases (promotes known_category (rule_of known_category) depth_by_format o)) [
        | inl e ↦ rw e (ground (arith, operations_by_depth-leb o.depth op))
        | inr e ↦ rw e (ground (arith, operations_by_depth-leb depth_by_format op))
      ]

  only_official :
      (op : Operation)
      → (any (same_operation op) (official_lookup ∷ []) ≡ true) ↔ (op ≡ official_lookup)
  only_official official_lookup = (λ h. refl, λ h. refl)
  only_official provided_offer_check = ground arith
  only_official live_comparison = ground arith
  only_official historical_context = ground arith
  only_official trend_advice = ground arith
  only_official market_tracking = ground arith
  only_official price_watch = ground arith
  only_official event_alert = ground arith
  only_official staff_comparison = ground arith

  allows-resolve_category :
      (op : Operation)
      → (allows (resolve_category ctx known_category) op ≡ true)
        ↔ ((is_foreign ctx.country ≡ false) × CategoryPermits op)
  unfolding resolve_category allows
  allows-resolve_category op = elim (Bool-cases (is_foreign ctx.country)) [
    | inl foreign ↦ rw foreign ((λ h. absurd (cc)), λ h. absurd (cc (h.0)))
    | inr here ↦ elim (Bool-cases is_blocked) [
      | inl b ↦
          rw (here, b)
            (
              (λ h. (refl, inl (refl, (only_official op).0 h))),
              λ h. elim (h.1) [ inl (_, e) ↦ (only_official op).1 e | inr (q, _) ↦ absurd (cc q) ],
            )
      | inr b ↦
          let e = allows-promoted op (first_reasons ctx known_category) live_override in
          rw (here, b)
            (
              (λ h. (refl, inr (refl, (leb_iff _ _).0 (sym e ∙ h)))),
              λ h. elim (h.1) [ inl (q, _) ↦ absurd (cc q) | inr (_, q) ↦ e ∙ (leb_iff _ _).1 q ],
            )
    ]
  ]

  allows-resolve_for :
      (intent : Option String) (op : Operation)
      → (allows (resolve_for ctx intent) op ≡ true) ↔ Permits intent op
  unfolding resolve_for allows
  allows-resolve_for none op =
      let (to, from) = allows-resolve_category op in
      ((λ h. (refl, (to h).0, (to h).1)), λ h. from (h.1, h.2))
  allows-resolve_for (some intent) op = ((λ h. absurd (cc h)), λ h. absurd (cc (h.0)))

-- An operation is allowed exactly when the request is for no other product and no other country,
-- and either its category is blocked and the operation is the look at the official route, or the
-- category is not blocked and the deeper of the format's depth and the first live override's
-- reaches the depth that the operation needs; an override counts for no unknown or outside
-- category.
pub resolve_service_policy-allows_iff :
    (ctx : PolicyContext) (op : Operation)
    → (allows (resolve_service_policy ctx) op ≡ true) ↔ Permits ctx ctx.outside_intent op
unfolding resolve_service_policy
resolve_service_policy-allows_iff ctx op = allows-resolve_for ctx ctx.outside_intent op

-- Overrides never take anything away: what a request may have done without them it may have done
-- with them.
pub resolve_service_policy_overrides :
    (ctx : PolicyContext) (op : Operation)
    → allows (resolve_service_policy (record ctx { overrides = [] })) op ≡ true
    → allows (resolve_service_policy ctx) op ≡ true
resolve_service_policy_overrides ctx op h =
    let (i, f, permits) =
      (resolve_service_policy-allows_iff (record ctx { overrides = [] }) op).0 h in
    (resolve_service_policy-allows_iff ctx op).1
      (i, f, elim permits [ inl b ↦ inl b | inr (b, le) ↦ inr (b, omega arith) ])

granted_by_outside :
    (ctx : PolicyContext) (found : Option DepthOverride)
    → is_outside (rule_of (known_category ctx)).base ≡ true
    → granted_by ctx found ≡ 0
granted_by_outside ctx none o = refl
granted_by_outside ctx (some x) o = ground arith

-- A block on a category that the service does not cover at all opens the look at the official
-- route, which is closed without the block.
pub block_opens_outside :
    (ctx : PolicyContext)
    → ctx.outside_intent ≡ none
    → is_foreign ctx.country ≡ false
    → is_outside (rule_of (known_category ctx)).base ≡ true
    → depth_by_format ctx ≡ outside
    → contains (known_category ctx) ctx.blocked_categories ≡ true
    → (allows (resolve_service_policy ctx) official_lookup ≡ true)
      × (allows (resolve_service_policy (record ctx { blocked_categories = [] })) official_lookup
          ≡ false)
block_opens_outside ctx i f o d b = (
  (resolve_service_policy-allows_iff ctx official_lookup).1 (i, f, inl (b, refl)),
  elim (Bool-cases (allows (resolve_service_policy open_ctx) official_lookup)) [
    | inl e ↦ absurd (closed ((resolve_service_policy-allows_iff open_ctx official_lookup).0 e))
    | inr e ↦ e
  ],
)
  where
    open_ctx : PolicyContext
    open_ctx = record ctx { blocked_categories = [] }

    closed : ¬ (Permits open_ctx open_ctx.outside_intent official_lookup)
    closed h = elim (h.2) [
      | inl (p, _) ↦ absurd (cc p)
      | inr (_, le) ↦
          omega (arith, le, ap depth_rank d, granted_by_outside open_ctx (live_override open_ctx) o)
    ]
