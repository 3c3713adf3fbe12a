-- ===== src/Freshness/Exactness.antt =====
-- src/lib/domain/freshness.ts: when exactly an observation counts as fresh.
use ticketguy.Prelude.{ℕ, ◌+◌, ◌*◌, ◌≤◌, ◌≡◌, refl, ◌↔◌, ◌⊎◌, true, Option, none, some, arith}
use ticketguy.Freshness.{FreshnessArgs, effective_at, check_freshness}

-- The instant that counts: the source's own as-of, where it is older than the fetch.
pub record IsEffective (args : FreshnessArgs) (at : ℕ) : Type 0 where
  pub not_later : at ≤ args.fetched_at
  pub source : (as_of : ℕ) → args.source_as_of ≡ some as_of → at ≤ as_of
  pub one_of : (at ≡ args.fetched_at) ⊎ (args.source_as_of ≡ some at)

effective_at-IsEffective :
    (args : FreshnessArgs) → IsEffective args (effective_at args.source_as_of args.fetched_at)
effective_at-IsEffective args = record {
  not_later = ground arith;
  source = λ as_of e. ground arith;
  one_of = ground arith;
}

effective_at_unique :
    (args : FreshnessArgs) (at : ℕ)
    → IsEffective args at
    → at ≡ effective_at args.source_as_of args.fetched_at
effective_at_unique args at e = by_source args.source_as_of refl
  where
    by_source : (o : Option ℕ) → args.source_as_of ≡ o → at ≡ effective_at o args.fetched_at
    by_source none p = ground (arith, e.one_of)
    by_source (some as_of) p = ground (arith, e.one_of, e.source as_of p, e.not_later)

-- An observation is fresh exactly when the instant that counts is not in the future and at most
-- fifteen minutes old, or at most five when the event starts within a day; a reason is given
-- exactly when it is not fresh.
pub check_freshness_iff :
    (args : FreshnessArgs) (at : ℕ)
    → IsEffective args at
    → (((check_freshness args).fresh ≡ true) ↔ (
        (at ≤ args.now)
        × (args.now ≤ at + 15 * 60000)
        × ((args.now + 24 * 3600000 ≤ args.event_start_at) ⊎ (args.now ≤ at + 5 * 60000))))
      × (((check_freshness args).reason ≡ none) ↔ ((check_freshness args).fresh ≡ true))
unfolding check_freshness
check_freshness_iff args at e = ground (arith, effective_at_unique args at e)
