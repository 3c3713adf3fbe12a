-- ===== src/Policy/Deadlines.antt =====
-- src/lib/advice/policy.ts: what a result carries besides its decision.
use ticketguy.Prelude.{
  ℕ, ◌+◌, ◌*◌, ◌≡◌, ◌≢◌, refl, ◌⊎◌, inl, true, false, ◌&&◌, Option, none, some, arith, [], or_else,
}
use ticketguy.Prelude.Int.{ℤ, pos, ◌≤ℤ◌, ◌<ℤ◌, sub_ℕ, min_ℤ, ltb_ℤ}
use ticketguy.Policy.{
  PolicyInput, PolicyResult, wait_and_recheck, wait_deadline, window_open, delivery_cutoff, earlier,
}
use ticketguy.Policy.Decide.{
  decide, opening_reasons, finish, finish_waiting, no_fit, secure, weigh_waiting, with_offer,
  falling_market,
}
use ticketguy.Policy.Waiting.{decide_waits_iff}

abbrev day_ms : ℕ
day_ms = 24 * 3600000

module _ (input : PolicyInput) where
  -- a waiting result with its deadline, or another one without
  abbrev WaitsOrNot : PolicyResult → Type 0
  WaitsOrNot r =
      ((r.decision ≡ wait_and_recheck)
        × (r.wait_deadline_at ≡ some (wait_deadline input))
        × (r.next_checkpoint_at ≡ some (min_ℤ (wait_deadline input) (pos (input.now + day_ms))))
        × (r.watch_scheduled
            ≡ (input.priorities.watch_consent_given && input.monitoring_coverage_available)))
      ⊎ ((r.decision ≢ wait_and_recheck)
          × (r.wait_deadline_at ≡ none)
          × (r.next_checkpoint_at ≡ none)
          × (r.watch_scheduled ≡ false))

  finish_waiting-Shape : (r s : _) → WaitsOrNot (finish_waiting input r s)
  unfolding finish_waiting finish
  finish_waiting-Shape r s = inl (refl, refl, refl, refl)

  no_fit-Shape : (r c : _) → WaitsOrNot (no_fit input r c)
  unfolding no_fit finish
  no_fit-Shape r c = ground arith

  secure-Shape : (r : _) → WaitsOrNot (secure input r)
  unfolding secure finish
  secure-Shape r = ground arith

  weigh_waiting-Shape : (r : _) → WaitsOrNot (weigh_waiting input r)
  unfolding weigh_waiting finish_waiting finish secure
  weigh_waiting-Shape r = ground arith

  with_offer-Shape : (r : _) → WaitsOrNot (with_offer input r)
  unfolding with_offer finish
  with_offer-Shape r = ground (arith, weigh_waiting-Shape r, secure-Shape r)

  falling_market-Shape : (r : _) → WaitsOrNot (falling_market input r)
  unfolding falling_market finish_waiting finish no_fit
  falling_market-Shape r = ground arith

  decide-Shape : WaitsOrNot (decide input)
  unfolding decide
  decide-Shape =
      let r = opening_reasons input in
      ground (arith, falling_market-Shape r, no_fit-Shape r [], with_offer-Shape r)

  -- A watch is scheduled only together with the advice to wait, with the customer's consent and
  -- where monitoring coverage exists.
  pub decide_watch :
      (decide input).watch_scheduled ≡ true
      → ((decide input).decision ≡ wait_and_recheck)
        × (input.priorities.watch_consent_given ≡ true)
        × (input.monitoring_coverage_available ≡ true)
  decide_watch watched = ground (arith, decide-Shape)

  earlier_le : (o : Option ℕ) (t : ℤ) → earlier o t ≤ℤ t
  earlier_le none t = omega arith
  earlier_le (some u) t = ground arith

  earlier_le_some : (o : Option ℕ) (t : ℤ) (u : ℕ) → o ≡ some u → earlier o t ≤ℤ pos u
  earlier_le_some o t u e = ground arith

  wait_deadline_le :
      (wait_deadline input ≤ℤ delivery_cutoff input)
      × ((d : ℕ) → input.priorities.decision_deadline ≡ some d → wait_deadline input ≤ℤ pos d)
  unfolding wait_deadline
  wait_deadline_le =
      let by_customer = earlier input.priorities.decision_deadline (delivery_cutoff input) in
      let staffed = earlier_le input.staffed_until by_customer in
      let customer = earlier_le input.priorities.decision_deadline (delivery_cutoff input) in
      (
        omega (arith, staffed, customer),
        λ d e. omega (
          arith,
          staffed,
          earlier_le_some input.priorities.decision_deadline (delivery_cutoff input) d e,
        ),
      )

  -- When waiting is advised, a deadline and a checkpoint are given: both lie after now, the
  -- checkpoint is at most the deadline and at most a day away, and the deadline is no later than
  -- the customer's own and no later than the safe delivery buffer before the event, which is the
  -- verified one or a day.
  pub decide_deadlines :
      (d : ℕ)
      → input.priorities.decision_deadline ≡ some d
      → (decide input).decision ≡ wait_and_recheck
      → (until checkpoint : ℤ) × ((decide input).wait_deadline_at ≡ some until)
        × ((decide input).next_checkpoint_at ≡ some checkpoint)
        × (pos input.now <ℤ checkpoint)
        × (checkpoint ≤ℤ until)
        × (checkpoint ≤ℤ pos (input.now + 24 * 3600000))
        × (until ≤ℤ pos d)
        × (until
            ≤ℤ sub_ℕ input.event_start_at
                (or_else input.offers.safe_delivery_buffer_minutes (24 * 60) * 60000))
  unfolding window_open delivery_cutoff
  decide_deadlines d e waits =
      let checkpoint = min_ℤ (wait_deadline input) (pos (input.now + day_ms)) in
      let opened = (decide_waits_iff input).0 waits in
      let after : ltb_ℤ (pos input.now) (wait_deadline input) ≡ true = opened.1 in
      let (cutoff, own) = wait_deadline_le in
      (
        wait_deadline input,
        checkpoint,
        ground (arith, decide-Shape),
        ground (arith, decide-Shape),
        ground arith,
        ground arith,
        ground arith,
        own d e,
        cutoff,
      )
