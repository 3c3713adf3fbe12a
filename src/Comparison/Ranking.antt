-- ===== src/Comparison/Ranking.antt =====
-- src/lib/domain/comparison.ts: `rank`, `compareOffers`, `independentOptionCount` and
-- `verifiedSavings`. The groups are listed by the first offer of each.
use ticketguy.Prelude.{
  ℕ, compare, Ordering, Bool, true, false, not, ◌&&◌, String, Option, none, some, List, [], ◌∷◌,
  ◌++◌, map, keep, length, str_eq, ◌==◌, ltb, if◌then◌else◌, or_else,
}
use ticketguy.Prelude.Int.{ℤ, sub_ℕ}
use ticketguy.Prelude.Sorting.{sort_by, then_by}
use ticketguy.Comparison.{
  Offer, HardConstraints, Evaluated, Verdict, eligible, needs_review, excluded, AdmissionType,
  reserved, general_admission, standing, other, evaluate_offer, is_false, is_verified,
}

-- `Number.MAX_SAFE_INTEGER`
abbrev pub max_safe_integer : ℕ
max_safe_integer = 9007199254740991

abbrev pub price_key : Evaluated → ℕ
price_key e = or_else e.comparable_total_cents max_safe_integer

-- `deliveryMethod ? 0 : 1`
abbrev pub delivery_key : Option String → ℕ
delivery_key none = 1
delivery_key (some m) = if str_eq m "" then 1 else 0

-- 1 for seats known to be apart, for a group that did not say that splitting is fine
unfoldable pub apart : HardConstraints → Evaluated → ℕ
apart c e =
    if ltb 1 c.quantity && not (is_false c.together_required) && is_false e.offer.seats_together
    then 1
    else 0

module _ (collate : String → String → Ordering) where
  -- cheapest first, then fresher, then with a delivery method, then the id
  unfoldable pub rank : Evaluated → Evaluated → Ordering
  rank a b = then_by (compare (price_key a) (price_key b)) (
      then_by (compare b.offer.observed_at a.offer.observed_at) (
        then_by
          (compare (delivery_key a.offer.delivery_method) (delivery_key b.offer.delivery_method))
          (collate a.offer.id b.offer.id)))

  unfoldable pub by_apart : HardConstraints → Evaluated → Evaluated → Ordering
  by_apart c a b = then_by (compare (apart c a) (apart c b)) (rank a b)

abbrev pub is_eligible : Evaluated → Bool
is_eligible e = verdict_is e.verdict
  where
    verdict_is : Verdict → Bool
    verdict_is eligible = true
    verdict_is _ = false

abbrev pub needs_review_of : Evaluated → Bool
needs_review_of e = verdict_is e.verdict
  where
    verdict_is : Verdict → Bool
    verdict_is needs_review = true
    verdict_is _ = false

abbrev pub is_excluded : Evaluated → Bool
is_excluded e = verdict_is e.verdict
  where
    verdict_is : Verdict → Bool
    verdict_is excluded = true
    verdict_is _ = false

abbrev admission_text : AdmissionType → String
admission_text reserved = "reserved"
admission_text general_admission = "general_admission"
admission_text standing = "standing"
admission_text other = "other"

-- `seatClass ?? admissionType`
abbrev pub group_key : Evaluated → String
group_key e = or_else e.offer.seat_class (admission_text e.offer.admission_type)

unfoldable pub add_evaluated :
    Evaluated → List (String × List Evaluated) → List (String × List Evaluated)
add_evaluated e [] = (group_key e, e ∷ []) ∷ []
add_evaluated e ((k, l) ∷ groups) =
    let later = add_evaluated e groups in
    if str_eq k (group_key e) then (k, l ++ e ∷ []) ∷ groups else (k, l) ∷ later

unfoldable pub group_all :
    List Evaluated → List (String × List Evaluated) → List (String × List Evaluated)
group_all [] groups = groups
group_all (e ∷ es) groups = group_all es (add_evaluated e groups)

abbrev pub same_text : Option String → Option String → Bool
same_text none none = true
same_text (some a) (some b) = str_eq a b
same_text _ _ = false

abbrev pub is_truthy : Option String → Bool
is_truthy none = false
is_truthy (some s) = not (str_eq s "")

-- the hint that two offers are one listing seen at two sources
unfoldable pub may_duplicate : Offer → Offer → Bool
may_duplicate a b =
    not (str_eq a.source_id b.source_id)
    && is_truthy a.section
    && same_text a.section b.section
    && same_text a.row b.row
    && (a.quantity == b.quantity)

unfoldable pub duplicates_with : Offer → List Evaluated → List (String × String)
duplicates_with a [] = []
duplicates_with a (e ∷ es) =
    let rest = duplicates_with a es in
    if may_duplicate a e.offer then (a.id, e.offer.id) ∷ rest else rest

unfoldable pub possible_duplicates_of : List Evaluated → List (String × String)
possible_duplicates_of [] = []
possible_duplicates_of (e ∷ es) = duplicates_with e.offer es ++ possible_duplicates_of es

pub record ComparisonResult : Type 0 where
  pub eligible_offers : List Evaluated
  pub review_offers : List Evaluated
  pub excluded_offers : List Evaluated
  pub groups : List (String × List Evaluated)
  pub possible_duplicates : List (String × String)

unfoldable pub compare_offers :
    (String → String)
    → (String → String → Ordering)
    → List Offer
    → HardConstraints
    → String
    → ComparisonResult
compare_offers lower collate offers c event_id =
    let evaluated = map (evaluate_offer lower c event_id) offers in
    let good = sort_by (by_apart collate c) (keep is_eligible evaluated) in
    let review = sort_by (rank collate) (keep needs_review_of evaluated) in
    record {
      eligible_offers = good;
      review_offers = review;
      excluded_offers = keep is_excluded evaluated;
      groups = group_all (good ++ review) [];
      possible_duplicates = possible_duplicates_of (good ++ review);
    }

unfoldable pub independent_option_count : ComparisonResult → Option ℕ
independent_option_count result = count_of result.possible_duplicates
  where
    count_of : List (String × String) → Option ℕ
    count_of (_ ∷ _) = none
    count_of [] = some (length result.eligible_offers)

abbrev pub difference : Option ℕ → Option ℕ → Option ℤ
difference (some a) (some b) = some (sub_ℕ a b)
difference _ _ = none

unfoldable pub verified_savings : Option Offer → Option Evaluated → Option ℤ
verified_savings (some baseline) (some best) =
    if is_eligible best
      && is_verified baseline.price_completeness
      && is_verified best.offer.price_completeness
      && (baseline.quantity == best.offer.quantity)
      && str_eq baseline.event_id best.offer.event_id
    then difference baseline.payable_total_cents best.comparable_total_cents
    else none
verified_savings _ _ = none
