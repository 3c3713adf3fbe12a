-- ===== src/Comparison/Tests.antt =====
-- src/lib/domain/comparison.ts: runs of the comparison, and each theorem at a concrete input.
use Prim.Native.String.{count}
use mathlib.Core.List.Memᴰ
use ticketguy.Prelude.{
  ℕ, ◌≤◌, ◌<◌, ◌≡◌, refl, ◌↔◌, ◌⊎◌, compare, Ordering, String, Bool, true, false, Option, none,
  some, arith, List, [], ◌∷◌, ◌++◌, map, Perm,
}
use ticketguy.Prelude.Sorting.{IsConsistent, insert_by, sort_by}
use ticketguy.Comparison.{
  Offer, HardConstraints, Evaluated, reserved, verified_total, available, eligible,
  excluding_restriction, push_restrictions, total_of, exclusions_of, flags_of, evaluate_offer,
}
use ticketguy.Comparison.Ranking.{
  rank, apart, by_apart, price_key, add_evaluated, group_all, may_duplicate, duplicates_with,
  possible_duplicates_of, compare_offers, independent_option_count, verified_savings,
}
use ticketguy.Comparison.Eligibility.{
  IsEligible, evaluate_offer-eligible_iff, unpriced_offer_passes_budget,
}
use ticketguy.Comparison.Partition.{compare_offers-Perm, compare_offers_best}

rules : Unit {0}
unfolding insert_by sort_by excluding_restriction push_restrictions total_of exclusions_of flags_of
    evaluate_offer rank apart by_apart add_evaluated group_all may_duplicate duplicates_with
    possible_duplicates_of compare_offers independent_option_count verified_savings
rules = tt

abbrev lower : String → String
lower s = s

abbrev collate : String → String → Ordering
collate a b = compare (count a) (count b)

collate-IsConsistent : IsConsistent collate
collate-IsConsistent = record { total = λ a b g. ground arith; trans = λ a b c p q. ground arith }

abbrev offer : String → Option ℕ → Option Bool → Offer
offer id total together = record {
  id = id;
  source_id = id;
  event_id = "event";
  observed_at = 100;
  quantity = 2;
  currency = "USD";
  base_total_cents = none;
  mandatory_fee_total_cents = some 500;
  tax_total_cents = some 0;
  delivery_total_cents = none;
  payable_total_cents = total;
  price_completeness = verified_total;
  section = some id;
  row = none;
  seats_together = together;
  admission_type = reserved;
  restrictions = [];
  delivery_method = some "mobile";
  availability = available;
  seat_class = none;
}

abbrev wishes : HardConstraints
wishes = record {
  quantity = 2;
  budget_total_cents = some 30000;
  together_required = none;
  exclude_obstructed_view = true;
  require_accessible = false;
  acceptable_sections = none;
}

abbrev offers : List Offer
offers =
    offer "apart" (some 10000) (some false)
    ∷ offer "dear" (some 29000) (some true)
    ∷ offer "cheap" (some 20000) none
    ∷ offer "over" (some 30001) (some true)
    ∷ []

abbrev judged : Offer → Evaluated
judged o = evaluate_offer lower wishes "event" o

runs :
    ((compare_offers lower collate offers wishes "event").eligible_offers
      ≡ judged (offer "cheap" (some 20000) none)
        ∷ judged (offer "dear" (some 29000) (some true))
        ∷ judged (offer "apart" (some 10000) (some false))
        ∷ [])
    × ((compare_offers lower collate offers wishes "event").excluded_offers
        ≡ judged (offer "over" (some 30001) (some true)) ∷ [])
    × (independent_option_count (compare_offers lower collate offers wishes "event") ≡ some 3)
unfolding rules
runs = (refl, refl, refl)

-- no total can be computed for this one
abbrev unpriced : Offer
unpriced = offer "unpriced" none (some true)

unpriced_state : (total_of unpriced ≡ none) × ((judged unpriced).verdict ≡ eligible)
unfolding rules
unpriced_state = (refl, refl)

evaluate_offer-eligible_iff_example :
    ((judged (offer "dear" (some 29000) (some true))).verdict ≡ eligible)
    ↔ IsEligible lower wishes "event" (offer "dear" (some 29000) (some true))
evaluate_offer-eligible_iff_example =
    evaluate_offer-eligible_iff lower wishes "event" (offer "dear" (some 29000) (some true))

unpriced_offer_passes_budget_example :
    (evaluate_offer lower (record wishes { budget_total_cents = some 1 }) "event" unpriced).verdict
    ≡ eligible
unpriced_offer_passes_budget_example =
    unpriced_offer_passes_budget lower wishes "event" unpriced 1 unpriced_state.0 unpriced_state.1

compare_offers-Perm_example :
    Perm
      ((compare_offers lower collate offers wishes "event").eligible_offers
        ++ ((compare_offers lower collate offers wishes "event").review_offers
            ++ (compare_offers lower collate offers wishes "event").excluded_offers))
      (map judged offers)
compare_offers-Perm_example = compare_offers-Perm lower collate offers wishes "event"

compare_offers_best_example :
    (apart wishes (judged (offer "cheap" (some 20000) none))
      < apart wishes (judged (offer "apart" (some 10000) (some false))))
    ⊎ ((apart wishes (judged (offer "cheap" (some 20000) none))
          ≡ apart wishes (judged (offer "apart" (some 10000) (some false))))
        × (price_key (judged (offer "cheap" (some 20000) none))
            ≤ price_key (judged (offer "apart" (some 10000) (some false)))))
compare_offers_best_example =
    compare_offers_best lower collate offers wishes "event" collate-IsConsistent
      (judged (offer "cheap" (some 20000) none)) (judged (offer "apart" (some 10000) (some false)))
      (judged (offer "dear" (some 29000) (some true))
        ∷ judged (offer "apart" (some 10000) (some false))
        ∷ [])
      runs.0 (Memᴰ.tail (Memᴰ.head refl))
