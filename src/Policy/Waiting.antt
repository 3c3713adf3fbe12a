-- ===== src/Policy/Waiting.antt =====
-- src/lib/advice/policy.ts: when waiting is advised, until when, and when a watch is set up.
use ticketguy.Prelude.{
  ℕ, ◌≡◌, ◌≢◌, refl, ◌↔◌, ◌⊎◌, inl, inr, Bool, true, false, Option, none, some, arith, [], is_some,
  ◌&&◌, not, Bool-cases,
}
use ticketguy.Policy.{
  PolicyInput, PolicyResult, wait_and_recheck, medium, high, window_open, within_budget,
  market_shrinking, market_falling,
}
use ticketguy.Policy.Decide.{
  decide, finish, finish_waiting, no_fit, could_improve, secure, tolerates_waiting, is_true,
  opening_reasons, weigh_waiting, with_offer, falling_market,
}

-- the customer said that the risk is fine, and by when they decide
pub record AcceptsWaiting (input : PolicyInput) : Type 0 where
  pub risk :
      (input.priorities.wait_risk_tolerance ≡ some medium)
      ⊎ (input.priorities.wait_risk_tolerance ≡ some high)
  pub deadline : (d : ℕ) × (input.priorities.decision_deadline ≡ some d)

-- no verified offer, but a market for exactly this group that falls, for who need not attend
pub record IsFallingMarket (input : PolicyInput) : Type 0 where
  pub no_offer : input.offers.best_eligible_total_cents ≡ none
  pub falling : market_falling input.market ≡ true
  pub optional : input.priorities.must_attend ≢ some true

-- an offer within the budget whose price is above target and falling
pub record IsFallingOffer (input : PolicyInput) : Type 0 where
  pub affordable : within_budget input ≡ true
  pub deliverable : input.offers.delivery_feasible ≢ some false
  pub supply : market_shrinking input.market ≡ false
  pub improves : could_improve input ≡ true

abbrev accepts : PolicyInput → Bool
accepts input =
    tolerates_waiting input.priorities.wait_risk_tolerance
    && is_some input.priorities.decision_deadline

accepts_iff : (input : PolicyInput) → (accepts input ≡ true) ↔ AcceptsWaiting input
accepts_iff input = (
  (λ h. record {
    risk = ground arith;
    deadline = known input.priorities.decision_deadline (ground arith);
  }),
  λ a. ground (arith, a.risk, a.deadline.1),
)
  where
    known : (o : Option ℕ) → is_some o ≡ true → (d : ℕ) × (o ≡ some d)
    known none h = absurd (cc)
    known (some d) h = (d, refl)

abbrev Waits : PolicyResult → Type 0
Waits r = r.decision ≡ wait_and_recheck

module _ (input : PolicyInput) where
  no_fit_never : (reasons : _) (clarify : _) → ¬ Waits (no_fit input reasons clarify)
  unfolding no_fit finish
  no_fit_never reasons clarify h = ground arith

  falling_market_iff : (reasons : _) → Waits (falling_market input reasons) ↔ (accepts input ≡ true)
  unfolding falling_market finish_waiting finish
  falling_market_iff reasons = elim (Bool-cases (accepts input)) [
    | inl e ↦ rw e ((λ h. refl), λ h. refl)
    | inr e ↦ rw e ((λ h. absurd (no_fit_never _ _ h)), λ h. absurd (cc))
  ]

  weigh_waiting_iff : (reasons : _) → Waits (weigh_waiting input reasons) ↔ (accepts input ≡ true)
  unfolding weigh_waiting finish_waiting finish secure
  weigh_waiting_iff reasons = ground arith

  with_offer_iff :
      (reasons : _)
      → Waits (with_offer input reasons)
        ↔ (accepts input ≡ true)
          × (window_open input ≡ true)
          × (input.offers.delivery_feasible ≢ some false)
          × (market_shrinking input.market ≡ false)
          × (could_improve input ≡ true)
  unfolding with_offer finish secure
  with_offer_iff reasons = ground (arith, weigh_waiting_iff reasons)

  -- the branch of `decide` for a falling market without a verified offer
  abbrev unlisted : Bool
  unlisted =
      not (is_some input.offers.best_eligible_total_cents)
      && market_falling input.market
      && window_open input
      && not (is_true input.priorities.must_attend)

  offered : within_budget input ≡ true → is_some input.offers.best_eligible_total_cents ≡ true
  unfolding within_budget
  offered h = ground arith

  decide-Waits :
      Waits (decide input)
      ↔ ((unlisted ≡ true) × (accepts input ≡ true))
        ⊎ ((unlisted ≡ false)
            × (within_budget input ≡ true)
            × (accepts input ≡ true)
            × (window_open input ≡ true)
            × (input.offers.delivery_feasible ≢ some false)
            × (market_shrinking input.market ≡ false)
            × (could_improve input ≡ true))
  unfolding decide
  decide-Waits =
      let reasons = opening_reasons input in
      ground (
        arith,
        falling_market_iff reasons,
        with_offer_iff reasons,
        no_fit_never reasons [],
        offered,
      )

  within_offer : IsFallingOffer input → is_some input.offers.best_eligible_total_cents ≡ true
  within_offer o = offered o.affordable

  -- Waiting is advised exactly when the customer has accepted the risk and named a deadline, the
  -- wait window is still open, and either there is no verified offer, the market for exactly this
  -- group falls and the customer need not attend, or a deliverable offer within the budget is
  -- above target with falling prices and a supply that is not shrinking.
  pub decide_waits_iff :
      ((decide input).decision ≡ wait_and_recheck)
      ↔ AcceptsWaiting input
        × (window_open input ≡ true)
        × (IsFallingMarket input ⊎ IsFallingOffer input)
  decide_waits_iff = ground (arith, decide-Waits, accepts_iff input, offered, within_offer)
