-- ===== src/Comparison/Eligibility.antt =====
-- src/lib/domain/comparison.ts: which offers `evaluateOffer` calls eligible.
use ticketguy.Prelude.{
  ℕ, ◌≡◌, ◌≢◌, ◌↔◌, ◌⊎◌, true, false, not, ◌&&◌, String, Option, none, some, arith, List, [], ◌∷◌,
  ◌++◌, All, contains, is_some, str_eq, ◌==◌, eq_iff,
}
use ticketguy.Prelude.Pushes.{push_if, append-nil_iff}
use ticketguy.Comparison.{
  Offer, HardConstraints, ExclusionReason, ReviewFlag, wrong_event, wrong_quantity, wrong_currency,
  obstructed_view, not_accessible, accessible_only, section_not_acceptable, seats_not_together,
  not_available, over_budget, unavailable, unknown, reserved, eligible, excluding_restriction,
  push_restrictions, push_new, exclusions_of, flags_of, total_of, exceeds, evaluate_offer,
  verdict_of, verified_total, available, section_refused, must_sit_together, is_false,
  is_unavailable,
}

push_new_nil :
    (o : Option ExclusionReason) (seen : List ExclusionReason)
    → (push_new o seen ≡ []) ↔ ((o ≡ none) × (seen ≡ []))
push_new_nil none seen = ground arith
push_new_nil (some r) [] = ground arith
push_new_nil (some r) (x ∷ seen) = ground arith

push_restrictions_nil :
    (rs : List String) (seen : List ExclusionReason)
    → (push_restrictions rs seen ≡ [])
      ↔ (All (λ r. excluding_restriction r ≡ none) rs × (seen ≡ []))
unfolding push_restrictions
push_restrictions_nil [] seen = ground arith
push_restrictions_nil (r ∷ rs) seen = ground (
  arith,
  push_restrictions_nil rs (push_new (excluding_restriction r) seen),
  push_new_nil (excluding_restriction r) seen,
)

verdict_nil :
    (ex : List ExclusionReason) (fl : List ReviewFlag)
    → (verdict_of ex fl ≡ eligible) ↔ (ex ≡ []) × (fl ≡ [])
verdict_nil [] [] = ground arith
verdict_nil [] (f ∷ fl) = ground arith
verdict_nil (e ∷ ex) fl = ground arith

module _ (lower : String → String) (c : HardConstraints) (event_id : String) (offer : Offer) where
  abbrev first_reasons : List ExclusionReason
  first_reasons =
      push_if (not (str_eq offer.event_id event_id)) wrong_event
      ++ push_if (not (offer.quantity == c.quantity)) wrong_quantity
      ++ push_if (not (str_eq offer.currency "USD")) wrong_currency

  abbrev last_reasons : List ExclusionReason
  last_reasons =
      push_if (c.exclude_obstructed_view && contains "obstructed_view" offer.restrictions)
        obstructed_view
      ++ push_if (c.require_accessible && not (contains "accessible_seating" offer.restrictions))
          not_accessible
      ++ push_if (not c.require_accessible && contains "accessible_seating" offer.restrictions)
          accessible_only
      ++ push_if (section_refused lower c.acceptable_sections offer.section) section_not_acceptable
      ++ push_if (must_sit_together c && is_false offer.seats_together) seats_not_together
      ++ push_if (is_unavailable offer.availability) not_available
      ++ push_if (exceeds (total_of offer) c.budget_total_cents) over_budget

  first_nil :
      (first_reasons ≡ [])
      ↔ (offer.event_id ≡ event_id) × (offer.quantity ≡ c.quantity) × (offer.currency ≡ "USD")
  first_nil = ground (arith, eq_iff offer.event_id event_id, eq_iff offer.currency "USD")

  last_nil :
      (last_reasons ≡ [])
      ↔ ((c.exclude_obstructed_view ≡ false)
          ⊎ (contains "obstructed_view" offer.restrictions ≡ false))
        × (contains "accessible_seating" offer.restrictions ≡ c.require_accessible)
        × (section_refused lower c.acceptable_sections offer.section ≡ false)
        × ((must_sit_together c ≡ false) ⊎ (offer.seats_together ≢ some false))
        × (offer.availability ≢ unavailable)
        × (exceeds (total_of offer) c.budget_total_cents ≡ false)
  last_nil = ground arith

  exclusions_nil :
      (exclusions_of lower offer c event_id ≡ [])
      ↔ All (λ r. excluding_restriction r ≡ none) offer.restrictions
        × (first_reasons ≡ [])
        × (last_reasons ≡ [])
  unfolding exclusions_of
  exclusions_nil =
      let joined =
        append-nil_iff (push_restrictions offer.restrictions first_reasons) last_reasons in
      let restricted = push_restrictions_nil offer.restrictions first_reasons in
      (
        (λ h.
            let (before, later) = joined.0 h in
            let (none_excludes, first) = restricted.0 before in (none_excludes, first, later)),
        λ (none_excludes, first, later). joined.1 (restricted.1 (none_excludes, first), later),
      )

  flags_nil :
      (flags_of offer c ≡ [])
      ↔ ((must_sit_together c ≡ false)
          ⊎ (offer.seats_together ≢ none)
          ⊎ (offer.admission_type ≢ reserved))
        × (offer.availability ≢ unknown)
        × ((is_some offer.payable_total_cents ≡ true)
            ⊎ ((is_some offer.mandatory_fee_total_cents ≡ true)
                × (is_some offer.tax_total_cents ≡ true)
                × ((is_some offer.delivery_total_cents ≡ true)
                    ⊎ (is_some offer.delivery_method ≡ true))))
        × (offer.price_completeness ≡ verified_total)
  unfolding flags_of
  flags_nil = ground arith

  -- What an offer must be to be shown as eligible.
  pub record IsEligible : Type 0 where
    pub this_event : offer.event_id ≡ event_id
    pub this_quantity : offer.quantity ≡ c.quantity
    pub dollars : offer.currency ≡ "USD"
    pub unrestricted : All (λ r. excluding_restriction r ≡ none) offer.restrictions
    pub view :
        (c.exclude_obstructed_view ≡ false)
        ⊎ (contains "obstructed_view" offer.restrictions ≡ false)
    pub access : contains "accessible_seating" offer.restrictions ≡ c.require_accessible
    pub section : section_refused lower c.acceptable_sections offer.section ≡ false
    pub together :
        (must_sit_together c ≡ false)
        ⊎ (offer.seats_together ≡ some true)
        ⊎ ((offer.seats_together ≡ none) × (offer.admission_type ≢ reserved))
    pub in_stock : offer.availability ≡ available
    pub verified : offer.price_completeness ≡ verified_total
    pub priced :
        (is_some offer.payable_total_cents ≡ true)
        ⊎ ((is_some offer.mandatory_fee_total_cents ≡ true)
            × (is_some offer.tax_total_cents ≡ true)
            × ((is_some offer.delivery_total_cents ≡ true)
                ⊎ (is_some offer.delivery_method ≡ true)))
    pub affordable : exceeds (total_of offer) c.budget_total_cents ≡ false

  -- An offer is eligible exactly when it is for this event and quantity in dollars, carries no
  -- excluding restriction, has the view, access and section that are asked for, has seats together
  -- where the group must sit together (unreserved admission may leave it open), is available, has
  -- a verified price with its parts known, and a total, where one can be computed, within budget.
  pub evaluate_offer-eligible_iff :
      ((evaluate_offer lower c event_id offer).verdict ≡ eligible) ↔ IsEligible
  unfolding evaluate_offer
  evaluate_offer-eligible_iff = (to, from)
    where
      no_reason :
          (verdict_of (exclusions_of lower offer c event_id) (flags_of offer c) ≡ eligible)
          ↔ (exclusions_of lower offer c event_id ≡ []) × (flags_of offer c ≡ [])
      no_reason = verdict_nil (exclusions_of lower offer c event_id) (flags_of offer c)

      to :
          verdict_of (exclusions_of lower offer c event_id) (flags_of offer c) ≡ eligible
          → IsEligible
      to h =
          let (ex, fl) = no_reason.0 h in
          let (unrestricted, first, last) = exclusions_nil.0 ex in
          let (event, quantity, dollars) = first_nil.0 first in
          let (view, access, section, together, stock, budget) = last_nil.0 last in
          let (seated, known, priced, verified) = flags_nil.0 fl in
          record {
            this_event = event;
            this_quantity = quantity;
            dollars = dollars;
            unrestricted = unrestricted;
            view = view;
            access = access;
            section = section;
            together = ground arith;
            in_stock = ground arith;
            verified = verified;
            priced = priced;
            affordable = budget;
          }

      from :
          IsEligible
          → verdict_of (exclusions_of lower offer c event_id) (flags_of offer c) ≡ eligible
      from p = no_reason.1 (
        exclusions_nil.1 (
          p.unrestricted,
          first_nil.1 (p.this_event, p.this_quantity, p.dollars),
          last_nil.1 (
            p.view,
            p.access,
            p.section,
            ground (arith, p.together),
            ground (arith, p.in_stock),
            p.affordable,
          ),
        ),
        flags_nil.1 (ground (arith, p.together), ground (arith, p.in_stock), p.priced, p.verified),
      )

-- An offer that is eligible although no total can be computed for it is eligible under every
-- budget, however small.
pub unpriced_offer_passes_budget :
    (lower : String → String) (c : HardConstraints) (event_id : String) (offer : Offer) (budget : ℕ)
    → total_of offer ≡ none
    → (evaluate_offer lower c event_id offer).verdict ≡ eligible
    → (evaluate_offer lower (record c { budget_total_cents = some budget }) event_id offer).verdict
      ≡ eligible
unpriced_offer_passes_budget lower c event_id offer budget unpriced good =
    let p = (evaluate_offer-eligible_iff lower c event_id offer).0 good in
    (evaluate_offer-eligible_iff lower (record c { budget_total_cents = some budget }) event_id
        offer).1
      (record {
        this_event = p.this_event;
        this_quantity = p.this_quantity;
        dollars = p.dollars;
        unrestricted = p.unrestricted;
        view = p.view;
        access = p.access;
        section = p.section;
        together = p.together;
        in_stock = p.in_stock;
        verified = p.verified;
        priced = p.priced;
        affordable = ground arith;
      })
