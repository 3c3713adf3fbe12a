-- ===== src/Comparison.antt =====
-- src/lib/domain/comparison.ts with the types of src/lib/domain/types.ts: eligibility and ranking
-- of offers. `lower` stands for `toLowerCase`, `collate` for `localeCompare`; `observed_at` is the
-- parsed instant. The affiliate fields, which nothing here reads, are left out.
pub mod Ranking
pub mod Eligibility
pub mod Partition
mod Tests
use ticketguy.Prelude.{
  ℕ, ◌+◌, Bool, true, false, not, ◌&&◌, ◌||◌, String, Option, none, some, List, [], ◌∷◌, ◌++◌, map,
  str_eq, ◌==◌, ltb, if◌then◌else◌, or_else, is_some, contains, any,
}
use ticketguy.Prelude.Pushes.{push_if}

pub data PriceCompleteness : Type 0 where
  verified_total estimated_total incomplete : PriceCompleteness

pub data AdmissionType : Type 0 where
  reserved general_admission standing other : AdmissionType

pub data Availability : Type 0 where
  available unavailable unknown : Availability

pub record Offer : Type 0 where
  pub id : String
  pub source_id : String
  pub event_id : String
  pub observed_at : ℕ
  pub quantity : ℕ
  pub currency : String
  pub base_total_cents : Option ℕ
  pub mandatory_fee_total_cents : Option ℕ
  pub tax_total_cents : Option ℕ
  pub delivery_total_cents : Option ℕ
  pub payable_total_cents : Option ℕ
  pub price_completeness : PriceCompleteness
  pub section : Option String
  pub row : Option String
  pub seats_together : Option Bool
  pub admission_type : AdmissionType
  pub restrictions : List String
  pub delivery_method : Option String
  pub availability : Availability
  pub seat_class : Option String

pub record HardConstraints : Type 0 where
  pub quantity : ℕ
  pub budget_total_cents : Option ℕ
  pub together_required : Option Bool
  pub exclude_obstructed_view : Bool
  pub require_accessible : Bool
  pub acceptable_sections : Option (List String)

pub data ExclusionReason : Type 0 where
  wrong_event wrong_quantity parking_only different_session resale_deposit : ExclusionReason
  vip_package obstructed_view not_accessible accessible_only : ExclusionReason
  section_not_acceptable seats_not_together not_available over_budget : ExclusionReason
  wrong_currency : ExclusionReason

pub data ReviewFlag : Type 0 where
  adjacency_unknown fees_unknown tax_unknown delivery_unknown : ReviewFlag
  availability_unknown total_estimated : ReviewFlag

pub data Verdict : Type 0 where
  eligible needs_review excluded : Verdict

pub record Evaluated : Type 0 where
  pub offer : Offer
  pub verdict : Verdict
  pub exclusions : List ExclusionReason
  pub flags : List ReviewFlag
  pub comparable_total_cents : Option ℕ

-- `EXCLUDING_RESTRICTIONS[r]`
unfoldable pub excluding_restriction : String → Option ExclusionReason
excluding_restriction r =
    if str_eq r "parking_only"
    then some parking_only
    else if str_eq r "different_session" || str_eq r "wrong_session"
    then some different_session
    else if str_eq r "resale_deposit"
    then some resale_deposit
    else if str_eq r "vip_package" || str_eq r "unrelated_package"
    then some vip_package
    else none

-- two of the four reasons that a restriction can give
abbrev pub same_reason : ExclusionReason → ExclusionReason → Bool
same_reason parking_only parking_only = true
same_reason different_session different_session = true
same_reason resale_deposit resale_deposit = true
same_reason vip_package vip_package = true
same_reason _ _ = false

abbrev pub push_new : Option ExclusionReason → List ExclusionReason → List ExclusionReason
push_new none seen = seen
push_new (some r) seen = if any (same_reason r) seen then seen else seen ++ r ∷ []

-- the loop over the restrictions, on the reasons so far
unfoldable pub push_restrictions : List String → List ExclusionReason → List ExclusionReason
push_restrictions [] seen = seen
push_restrictions (r ∷ rs) seen = push_restrictions rs (push_new (excluding_restriction r) seen)

-- a truthy section of the offer that is not among the acceptable ones
abbrev pub section_refused : (String → String) → Option (List String) → Option String → Bool
section_refused lower (some sections) (some s) =
    not (str_eq s "") && not (contains (lower s) (map lower sections))
section_refused lower _ _ = false

abbrev pub is_false : Option Bool → Bool
is_false (some b) = not b
is_false none = false

abbrev pub is_true : Option Bool → Bool
is_true (some b) = b
is_true none = false

abbrev pub is_reserved : AdmissionType → Bool
is_reserved reserved = true
is_reserved _ = false

abbrev pub is_unavailable : Availability → Bool
is_unavailable unavailable = true
is_unavailable _ = false

abbrev pub is_unknown : Availability → Bool
is_unknown unknown = true
is_unknown _ = false

abbrev pub is_verified : PriceCompleteness → Bool
is_verified verified_total = true
is_verified _ = false

-- `c.togetherRequired && c.quantity > 1`
abbrev pub must_sit_together : HardConstraints → Bool
must_sit_together c = is_true c.together_required && ltb 1 c.quantity

abbrev pub sum_known : Option ℕ → Option ℕ → Option ℕ → Option ℕ → Option ℕ
sum_known (some a) (some b) (some c) (some d) = some (a + b + c + d)
sum_known _ _ _ _ = none

-- the whole party's payable total
unfoldable pub total_of : Offer → Option ℕ
total_of offer = elim offer.payable_total_cents [
  | some t ↦ some t
  | none ↦
      sum_known offer.base_total_cents offer.mandatory_fee_total_cents offer.tax_total_cents
        offer.delivery_total_cents
]

abbrev pub exceeds : Option ℕ → Option ℕ → Bool
exceeds (some total) (some budget) = ltb budget total
exceeds _ _ = false

unfoldable pub exclusions_of :
    (String → String) → Offer → HardConstraints → String → List ExclusionReason
exclusions_of lower offer c event_id =
    let accessible = contains "accessible_seating" offer.restrictions in
    push_restrictions offer.restrictions (
      push_if (not (str_eq offer.event_id event_id)) wrong_event
      ++ push_if (not (offer.quantity == c.quantity)) wrong_quantity
      ++ push_if (not (str_eq offer.currency "USD")) wrong_currency)
    ++ (push_if (c.exclude_obstructed_view && contains "obstructed_view" offer.restrictions)
          obstructed_view
        ++ push_if (c.require_accessible && not accessible) not_accessible
        ++ push_if (not c.require_accessible && accessible) accessible_only
        ++ push_if (section_refused lower c.acceptable_sections offer.section)
            section_not_acceptable
        ++ push_if (must_sit_together c && is_false offer.seats_together) seats_not_together
        ++ push_if (is_unavailable offer.availability) not_available
        ++ push_if (exceeds (total_of offer) c.budget_total_cents) over_budget)

unfoldable pub flags_of : Offer → HardConstraints → List ReviewFlag
flags_of offer c =
    let unpriced = not (is_some offer.payable_total_cents) in
    push_if
      (must_sit_together c
        && not (is_some offer.seats_together)
        && is_reserved offer.admission_type)
      adjacency_unknown
    ++ push_if (is_unknown offer.availability) availability_unknown
    ++ push_if (not (is_some offer.mandatory_fee_total_cents) && unpriced) fees_unknown
    ++ push_if (not (is_some offer.tax_total_cents) && unpriced) tax_unknown
    ++ push_if
        (not (is_some offer.delivery_total_cents)
          && unpriced
          && not (is_some offer.delivery_method))
        delivery_unknown
    ++ push_if (not (is_verified offer.price_completeness)) total_estimated

abbrev pub verdict_of : List ExclusionReason → List ReviewFlag → Verdict
verdict_of (_ ∷ _) flags = excluded
verdict_of [] (_ ∷ _) = needs_review
verdict_of [] [] = eligible

unfoldable pub evaluate_offer : (String → String) → HardConstraints → String → Offer → Evaluated
evaluate_offer lower c event_id offer =
    let exclusions = exclusions_of lower offer c event_id in
    let flags = flags_of offer c in
    record {
      offer = offer;
      verdict = verdict_of exclusions flags;
      exclusions = exclusions;
      flags = flags;
      comparable_total_cents = total_of offer;
    }
