-- ===== src/Dispatch/Window.antt =====
-- src/lib/intake/pipeline.ts, `dispatchSend`, with src/lib/email/send-intents.ts,
-- `uncertainRetryDecision`: retries of a submission whose outcome is not known.
use text.Mathlib.TextPositions.{eq_refl}
use ticketguy.Prelude.{
  ℕ, ◌+◌, ◌*◌, ◌≤◌, ◌<◌, ◌≡◌, refl, String, true, false, none, some, [], ◌∷◌, arith, find,
}
use ticketguy.Prelude.Tables.{update_where}
use ticketguy.SendIntents.{
  SendIntent, SendIntents, uncertain, provider_idempotency_window_hours, uncertain_retry_decision,
  has_id, claim_send_intent, release_claim, manual_reconciliation, retry_same_key,
}
use ticketguy.Dispatch.{
  Facts, Dispatched, dispatch_send, dispatch_intent, dispatch_queued, submission_of, all_reasons,
  throws, uncertain_outcome, first_submitted, needs_reconciliation,
}

abbrev pub window_ms : ℕ
window_ms = provider_idempotency_window_hours * 3600000

outside_window :
    (first now : ℕ)
    → first + window_ms ≤ now
    → uncertain_retry_decision (some first) now ≡ manual_reconciliation
unfolding uncertain_retry_decision
outside_window first now late = ground arith

-- An uncertain submission whose recorded instant is a whole idempotency window old is not sent
-- again: nothing is submitted and nothing is written, and the outcome asks for a person.
pub dispatch_send_outside_window :
    (id token : String) (now wall first : ℕ) (f : Facts) (rows : SendIntents) (r : SendIntent)
    → find (has_id id) rows ≡ some r
    → r.state ≡ uncertain
    → first_submitted r ≡ some first
    → first + window_ms ≤ now
    → dispatch_send id token now wall f rows
      ≡ some (record { rows = rows; submitted = []; outcome = needs_reconciliation })
unfolding dispatch_send dispatch_intent
dispatch_send_outside_window id token now wall first f rows r found state at_first late =
    rw (found, state, at_first, outside_window first now late)

-- the row after a retry that fails again
abbrev failed_again : SendIntent → String → ℕ → ℕ → SendIntent
failed_again r error now wall = record r {
  state = uncertain;
  claim_token = none;
  claimed_at = some now;
  attempts = r.attempts + 1;
  last_error = some error;
  resolved_at = some wall;
}

inside_window :
    (first now : ℕ)
    → now < first + window_ms
    → uncertain_retry_decision (some first) now ≡ retry_same_key
unfolding uncertain_retry_decision
inside_window first now early = ground arith

failed_retry :
    (r : SendIntent) (token error : String) (first now wall : ℕ) (f : Facts)
    → r.state ≡ uncertain
    → first_submitted r ≡ some first
    → all_reasons f r.input true ≡ []
    → f.capture ≡ false
    → f.provider ≡ some (throws error)
    → now < first + window_ms
    → dispatch_send r.id token now wall f (r ∷ [])
      ≡ some (record {
        rows = failed_again r error now wall ∷ [];
        submitted = submission_of r.input ∷ [];
        outcome = uncertain_outcome;
      })
unfolding dispatch_send dispatch_intent dispatch_queued claim_send_intent release_claim update_where
failed_retry r token error first now wall f state at_first clear live prov early =
    simp (eq_refl, state, at_first, inside_window first now early, clear, live, prov)

-- The recorded instant is that of the latest claim: after a retry that fails again, the window is
-- counted anew from that retry. So an intent first submitted at `first` is submitted once more at
-- `later`, a whole window or more after `first`, when a retry at `now` lies between them.
pub retry_restarts_window :
    (r : SendIntent) (token token' error : String) (first now later wall wall' : ℕ) (f : Facts)
    → r.state ≡ uncertain
    → r.submitted_at ≡ none
    → r.claimed_at ≡ some first
    → all_reasons f r.input true ≡ []
    → f.capture ≡ false
    → f.provider ≡ some (throws error)
    → now < first + window_ms
    → later < now + window_ms
    → first + window_ms ≤ later
    → (d d' : Dispatched) × (dispatch_send r.id token now wall f (r ∷ []) ≡ some d)
      × (d.submitted ≡ submission_of r.input ∷ [])
      × (dispatch_send r.id token' later wall' f d.rows ≡ some d')
      × (d'.submitted ≡ submission_of r.input ∷ [])
retry_restarts_window r token token' error first now later wall wall' f state sub claim clear live
      prov early again late =
    (
      _,
      _,
      failed_retry r token error first now wall f state (rw (sub, claim)) clear live prov early,
      refl,
      failed_retry (failed_again r error now wall) token' error now later wall' f refl (rw sub)
          clear live prov again,
      refl,
    )
