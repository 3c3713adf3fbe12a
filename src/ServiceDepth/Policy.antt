-- ===== src/ServiceDepth/Policy.antt =====
-- src/lib/domain/service-depth.ts: resolveServicePolicy.
use ticketguy.Prelude.{
  ℕ, String, Bool, true, false, not, ◌&&◌, ◌||◌, Option, none, some, List, [], ◌∷◌, ◌++◌, str_eq,
  ltb, ◌==◌, if◌then◌else◌, contains, any, find,
}
use ticketguy.ServiceDepth.{
  ServiceDepth, outside, guide, compare, depth_rank, Operation, official_lookup, operation_number,
  ReasonCode, EventFormat, Rule, ServicePolicyDecision, operations_by_depth, limits_of,
  policy_category, rule_of,
}

-- owner, reason and evidence, which only document an override, are left out
pub record DepthOverride : Type 0 where
  pub id : String
  pub depth : ServiceDepth
  pub event_ids : List String
  pub entity_slugs : List String
  pub expires_at : ℕ

pub record PolicyContext : Type 0 where
  pub category : Option String
  pub format : Option EventFormat
  pub outside_intent : Option String
  pub event_id : Option String
  pub entity_slug : Option String
  pub country : Option String
  pub blocked_categories : List String
  pub overrides : List DepthOverride
  pub now : ℕ

abbrev when {ℓ} : {A : Type ℓ} → Bool → Option A → Option A
when true o = o
when false o = none

abbrev is_small : Option EventFormat → Bool
is_small (some EventFormat.club) = true
is_small (some EventFormat.local) = true
is_small _ = false

abbrev is_touring : Option EventFormat → Bool
is_touring (some EventFormat.touring) = true
is_touring _ = false

abbrev is_unknown : Option EventFormat → Bool
is_unknown none = true
is_unknown (some EventFormat.unknown) = true
is_unknown _ = false

-- the two last returns
abbrev base_reason : Option EventFormat → ReasonCode
base_reason (some EventFormat.festival) = ReasonCode.festival_format
base_reason (some EventFormat.touring) = ReasonCode.touring_format
base_reason _ = ReasonCode.category_default

unfoldable pub depth_for : Rule → Option EventFormat → ServiceDepth × ReasonCode
depth_for rule format = elim (when (is_small format) rule.club) [
  | some d ↦ (d, ReasonCode.club_or_local_format)
  | none ↦ elim (when (is_touring format) rule.touring) [
    | some d ↦ (d, ReasonCode.touring_format)
    | none ↦ elim (when (is_unknown format) rule.unknown) [
      | some d ↦ (d, ReasonCode.unknown_format)
      | none ↦ (rule.base, base_reason format)
    ]
  ]
]

abbrev make :
    PolicyContext
    → String
    → ServiceDepth
    → List ReasonCode
    → List Operation
    → Option String
    → ServicePolicyDecision
make ctx category depth reasons ops override_id = record {
  policy_version = "sd-1";
  category = category;
  format = ctx.format;
  depth = depth;
  reasons = reasons;
  override_id = override_id;
  allowed_operations = ops;
  limits = limits_of depth;
}

-- `ctx.country && ctx.country !== 'US'`
abbrev pub is_foreign : Option String → Bool
is_foreign none = false
is_foreign (some country) = not (str_eq country "") && not (str_eq country "US")

-- `key && ids.includes(key)`
abbrev pub names : Option String → List String → Bool
names none ids = false
names (some key) ids = not (str_eq key "") && contains key ids

abbrev pub applies : PolicyContext → DepthOverride → Bool
applies ctx o =
    ltb ctx.now o.expires_at
    && (names ctx.event_id o.event_ids || names ctx.entity_slug o.entity_slugs)

abbrev pub is_outside : ServiceDepth → Bool
is_outside outside = true
is_outside _ = false

abbrev pub promotes : String → Rule → ServiceDepth → DepthOverride → Bool
promotes category rule depth o =
    ltb (depth_rank depth) (depth_rank o.depth)
    && (not (str_eq category "unknown") && not (is_outside rule.base))

-- the override that is in force, of the one that was found
abbrev pub promotion : String → Rule → ServiceDepth → Option DepthOverride → Option DepthOverride
promotion category rule depth none = none
promotion category rule depth (some o) = if promotes category rule depth o then some o else none

abbrev depth_reasons : ServiceDepth → List ReasonCode
depth_reasons guide = ReasonCode.guide_official_only ∷ []
depth_reasons compare = ReasonCode.compare_no_tracking ∷ []
depth_reasons _ = []

abbrev pub promoted :
    PolicyContext
    → String
    → ServiceDepth
    → List ReasonCode
    → Option DepthOverride
    → ServicePolicyDecision
promoted ctx category by_format reasons none =
    make ctx category by_format (reasons ++ depth_reasons by_format) (operations_by_depth by_format)
      none
promoted ctx category by_format reasons (some o) =
    make ctx category o.depth
      (reasons ++ (ReasonCode.core_override_approved ∷ depth_reasons o.depth))
      (operations_by_depth o.depth) (some o.id)

abbrev pub first_reasons : PolicyContext → String → List ReasonCode
first_reasons ctx category =
    (if str_eq category "unknown"
      then ReasonCode.unknown_category
      else (depth_for (rule_of category) ctx.format).1)
    ∷ []

unfoldable pub resolve_category : PolicyContext → String → ServicePolicyDecision
resolve_category ctx category =
    let by_format = (depth_for (rule_of category) ctx.format).0 in
    let reasons = first_reasons ctx category in
    if is_foreign ctx.country
    then make ctx category outside (ReasonCode.non_us_event ∷ []) (operations_by_depth outside) none
    else if contains category ctx.blocked_categories
    then make ctx category by_format (reasons ++ ReasonCode.operator_blocked ∷ [])
        (official_lookup ∷ []) none
    else promoted ctx category by_format reasons
        (promotion category (rule_of category) by_format (find (applies ctx) ctx.overrides))

unfoldable pub resolve_for : PolicyContext → Option String → ServicePolicyDecision
resolve_for ctx (some intent) =
    make ctx intent outside (ReasonCode.outside_product ∷ []) (operations_by_depth outside) none
resolve_for ctx none = resolve_category ctx (policy_category ctx.category)

unfoldable pub resolve_service_policy : PolicyContext → ServicePolicyDecision
unfolding resolve_for
resolve_service_policy ctx = resolve_for ctx ctx.outside_intent

abbrev pub same_operation : Operation → Operation → Bool
same_operation a b = operation_number a == operation_number b

unfoldable pub allows : ServicePolicyDecision → Operation → Bool
allows d op = any (same_operation op) d.allowed_operations
