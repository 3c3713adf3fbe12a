-- ===== src/Policy/Buying.antt =====
-- src/lib/advice/policy.ts: when buying is advised.
use ticketguy.Prelude.{ℕ, ◌≤◌, ◌≡◌, ◌≢◌, refl, ◌⊎◌, ◌∙◌, true, false, Option, none, some, arith, []}
use ticketguy.Policy.{PolicyInput, buy_now, window_open, within_budget, market_shrinking}
use ticketguy.Policy.Decide.{
  decide, finish, finish_waiting, no_fit, with_offer, falling_market, opening_reasons,
}

module _ (input : PolicyInput) where
  no_fit-never_buys : (r c : _) → (no_fit input r c).decision ≢ buy_now
  unfolding no_fit finish
  no_fit-never_buys r c h = ground arith

  falling_market-never_buys : (r : _) → (falling_market input r).decision ≢ buy_now
  unfolding falling_market finish_waiting finish no_fit
  falling_market-never_buys r h = ground arith

  buys_within : (decide input).decision ≡ buy_now → within_budget input ≡ true
  unfolding decide
  buys_within h =
      let r = opening_reasons input in
      ground (arith, falling_market-never_buys r, no_fit-never_buys r [])

  decide-with_offer :
      within_budget input ≡ true
      → (decide input).decision ≡ (with_offer input (opening_reasons input)).decision
  unfolding decide within_budget
  decide-with_offer h = ground arith

  -- Buying is only ever advised on a verified offer, and never above a budget that is known.
  pub decide_buys :
      (budget : ℕ)
      → input.priorities.budget_total_cents ≡ some budget
      → (decide input).decision ≡ buy_now
      → (best : ℕ) × (input.offers.best_eligible_total_cents ≡ some best) × (best ≤ budget)
  unfolding within_budget
  decide_buys budget e buys = affordable input.offers.best_eligible_total_cents refl
    where
      affordable :
          (o : Option ℕ)
          → input.offers.best_eligible_total_cents ≡ o
          → (best : ℕ) × (o ≡ some best) × (best ≤ budget)
      affordable none p = absurd (ground (arith, buys_within buys))
      affordable (some best) p = (best, refl, ground (arith, buys_within buys))

  with_offer-now :
      (r : _)
      → (window_open input ≡ false)
        ⊎ (input.offers.delivery_feasible ≡ some false)
        ⊎ (market_shrinking input.market ≡ true)
      → (with_offer input r).decision ≡ buy_now
  unfolding with_offer finish
  with_offer-now r urgent = ground arith

  -- An offer within the budget is to be bought at once when the wait window has closed, when
  -- delivery is known to be infeasible, or when the market's listings are shrinking.
  pub decide_urgent :
      within_budget input ≡ true
      → (window_open input ≡ false)
        ⊎ (input.offers.delivery_feasible ≡ some false)
        ⊎ (market_shrinking input.market ≡ true)
      → (decide input).decision ≡ buy_now
  decide_urgent within urgent =
      decide-with_offer within ∙ with_offer-now (opening_reasons input) urgent
