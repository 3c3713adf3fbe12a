-- ===== src/SendIntents/Claims.antt =====
-- src/lib/email/send-intents.ts: an intent is submitted by one worker at a time.
use ticketguy.Prelude.{
  ℕ, ◌≡◌, refl, String, true, false, Option, none, some, [], ◌∷◌, arith, any, if◌then◌else◌,
  Bool-cases, inl, inr, eq_iff,
}
use ticketguy.Prelude.Tables.{update_where, update_where_none, All-update_where, any_none}
use ticketguy.SendIntents.{
  SendIntent, SendIntents, Claim, ReleaseState, to_queued, claimable, claim_row, claim_send_intent,
  holds_claim, release_row, release_claim, acceptable, accept_row, record_provider_accepted,
  released_state, is_queued,
}

module _ (id token : String) (now : ℕ) where
  claimed-not-claimable :
      (r : SendIntent) → claimable id (if claimable id r then claim_row token now r else r) ≡ false
  claimed-not-claimable r = ground arith

  claimed_once :
      (rows : SendIntents)
      → any (claimable id) (update_where (claimable id) (claim_row token now) rows) ≡ false
  claimed_once rows =
      any_none _ _
        (All-update_where (λ r. claimable id r ≡ false) _ _ rows (λ r m. claimed-not-claimable r))

-- Once one worker has tried to claim an intent, a second claim of it changes nothing and returns
-- null, whether or not the first succeeded.
pub claim_send_intent_exclusive :
    (id token token' : String) (now now' : ℕ) (rows : SendIntents)
    → claim_send_intent id token' now' (claim_send_intent id token now rows).0
      ≡ ((claim_send_intent id token now rows).0, none)
unfolding claim_send_intent
claim_send_intent_exclusive id token token' now now' rows =
    let spent = claimed_once id token now rows in
    rw (update_where_none (claimable id) (claim_row token' now') _ spent) (rw spent)

module _ (claim : Claim) (to : ReleaseState) (error : Option String) (wall : ℕ) where
  accepted-not-held :
      (message_id : String) (now : ℕ) (r : SendIntent)
      → holds_claim claim (if acceptable claim r then accept_row message_id now r else r) ≡ false
  accepted-not-held message_id now r = ground arith

-- Once the provider's acceptance is recorded under a claim, releasing that claim does nothing: a
-- later failure in the dispatcher cannot put the intent back or mark it uncertain.
pub release_claim-record_provider_accepted :
    (claim : Claim) (to : ReleaseState) (error : Option String) (wall : ℕ) (message_id : String)
    (now : ℕ) (rows : SendIntents)
    → release_claim claim to error wall (record_provider_accepted claim message_id now rows)
      ≡ record_provider_accepted claim message_id now rows
unfolding release_claim record_provider_accepted
release_claim-record_provider_accepted claim to error wall message_id now rows =
    update_where_none _ _ _ (
      any_none _ _ (
        All-update_where (λ r. holds_claim claim r ≡ false) _ _ rows
          (λ r m. accepted-not-held claim to error wall message_id now r)))

module _ (id token : String) (now wall : ℕ) (error : Option String) where
  abbrev cycled : ReleaseState → SendIntents → SendIntents
  cycled to rows =
      update_where (holds_claim (record { id = id; claim_token = token }))
        (release_row to error wall) (update_where (claimable id) (claim_row token now) rows)

  -- one row through a claim and its release
  abbrev cycled_row : ReleaseState → SendIntent → SendIntent
  cycled_row to r =
      let r' = if claimable id r then claim_row token now r else r in
      if holds_claim (record { id = id; claim_token = token }) r'
      then release_row to error wall r'
      else r'

  requeued_row :
      (r : SendIntent) → claimable id r ≡ true → claimable id (cycled_row to_queued r) ≡ true
  requeued_row r h = ground (arith, eq_iff token token)

  requeued :
      (rows : SendIntents)
      → any (claimable id) rows ≡ true
      → any (claimable id) (cycled to_queued rows) ≡ true
  unfolding update_where
  requeued [] h = cc
  requeued (r ∷ rs) h = elim (Bool-cases (claimable id r)) [
    | inl e ↦ rw (requeued_row r e) refl
    | inr e ↦ ground (arith, requeued rs)
  ]

  spent_row :
      (to : ReleaseState) (r : SendIntent)
      → is_queued (released_state to) ≡ false
      → claimable id (cycled_row to r) ≡ false
  spent_row to r h = ground arith

  spent :
      (to : ReleaseState) (rows : SendIntents)
      → is_queued (released_state to) ≡ false
      → any (claimable id) (cycled to rows) ≡ false
  unfolding update_where
  spent to [] h = refl
  spent to (r ∷ rs) h = rw (spent_row to r h) (spent to rs h)

-- After a claim is released the intent can be claimed again exactly when it was put back in the
-- queue; released to any other state it cannot.
pub claim_send_intent-release_claim :
    (id token token' : String) (now now' wall : ℕ) (to : ReleaseState) (error : Option String)
    (rows : SendIntents)
    → any (claimable id) rows ≡ true
    → (claim_send_intent id token' now' (
        release_claim
          (record { id = id; claim_token = token })
          to
          error
          wall
          (claim_send_intent id token now rows).0)).1
      ≡ (if is_queued (released_state to)
          then some (record { id = id; claim_token = token' })
          else none)
unfolding claim_send_intent release_claim
claim_send_intent-release_claim id token token' now now' wall to_queued error rows there =
    rw (requeued id token now wall error rows there)
claim_send_intent-release_claim id token token' now now' wall to error rows there =
    rw (spent id token now wall error to rows refl)
