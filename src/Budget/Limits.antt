-- ===== src/Budget/Limits.antt =====
-- src/lib/ai/budget.ts: what holds of the ledger after a reservation, and after its release.
use ticketguy.Prelude.{
  ℕ, ◌+◌, ◌-◌, ◌%◌, ◌≤◌, ◌≡◌, refl, ap, inl, inr, Bool, true, String, none, arith, [], ◌∷◌, ◌++◌,
  keep, Bool-cases, eq_iff,
}
use mathlib.Core.List.{append_assoc}
use ticketguy.Prelude.Int.{ℤ, pos, ◌+ℤ◌, ◌≤ℤ◌}
use ticketguy.Budget.{
  LedgerRow, Ledger, ReserveArgs, granted, budget_exceeded, BudgetScope, released, charged,
  returned, made, unmade, sum_of, spend, calls_made, of_revision, since_midnight, new_row,
  reserve_budget, release_budget,
}

sum_of-append :
    (f : LedgerRow → ℕ) (xs ys : Ledger) → sum_of f (xs ++ ys) ≡ sum_of f xs + sum_of f ys
unfolding sum_of
sum_of-append f [] ys = omega arith
sum_of-append f (x ∷ xs) ys = omega (arith, sum_of-append f xs ys)

keep_last :
    (p : LedgerRow → Bool) (rows : Ledger) (r : LedgerRow)
    → p r ≡ true
    → keep p (rows ++ r ∷ []) ≡ keep p rows ++ r ∷ []
keep_last p [] r h = rw h refl
keep_last p (x ∷ rows) r h = elim (Bool-cases (p x)) [
  | inl e ↦ rw e (ap (λ l. x ∷ l) (keep_last p rows r h))
  | inr e ↦ rw e (keep_last p rows r h)
]

module _ (args : ReserveArgs) (id : String) (created_at : ℕ) where
  abbrev mine : LedgerRow → Bool
  mine = of_revision args.request_id args.revision

  mine_new : mine (new_row args id created_at) ≡ true
  mine_new = ground (arith, eq_iff args.request_id args.request_id)

  spend_reserved :
      (rows : Ledger)
      → spend (rows ++ new_row args id created_at ∷ [])
        ≡ spend rows +ℤ pos args.estimated_usd_micros
  unfolding spend sum_of ◌+ℤ◌
  spend_reserved rows = ground (
    arith,
    sum_of-append charged rows (new_row args id created_at ∷ []),
    sum_of-append returned rows (new_row args id created_at ∷ []),
  )

  calls_reserved :
      (rows : Ledger)
      → calls_made (rows ++ new_row args id created_at ∷ []) ≡ calls_made rows +ℤ pos 1
  unfolding calls_made sum_of ◌+ℤ◌
  calls_reserved rows = ground (
    arith,
    sum_of-append made rows (new_row args id created_at ∷ []),
    sum_of-append unmade rows (new_row args id created_at ∷ []),
  )

  -- the three totals that `reserve_budget` compares, before the new row
  abbrev Fits : Ledger → Type 0
  Fits rows =
      (spend (keep mine rows) +ℤ pos args.estimated_usd_micros ≤ℤ pos args.limits.request_hard)
      × (calls_made (keep mine rows) +ℤ pos 1 ≤ℤ pos args.limits.max_calls_per_revision)
      × (spend (keep (since_midnight args.now) rows) +ℤ pos args.estimated_usd_micros
          ≤ℤ pos args.limits.global_daily)

  granted-Fits :
      (rows : Ledger) (soft : Bool) (total : ℤ)
      → (reserve_budget args id created_at rows).1 ≡ granted id soft total
      → ((reserve_budget args id created_at rows).0 ≡ rows ++ new_row args id created_at ∷ [])
        × Fits rows
  unfolding reserve_budget
  granted-Fits rows soft total e = ground arith

  -- A reservation that is granted leaves the spend and the number of calls of its revision, and
  -- the spend of the day when its row is dated in that day, within their limits.
  pub reserve_budget_within :
      (rows : Ledger) (soft : Bool) (total : ℤ)
      → args.now - args.now % 86400000 ≤ created_at
      → (reserve_budget args id created_at rows).1 ≡ granted id soft total
      → (spend (
            keep
              (of_revision args.request_id args.revision)
              (reserve_budget args id created_at rows).0)
          ≤ℤ pos args.limits.request_hard)
        × (calls_made (
              keep
                (of_revision args.request_id args.revision)
                (reserve_budget args id created_at rows).0)
            ≤ℤ pos args.limits.max_calls_per_revision)
        × (spend (keep (since_midnight args.now) (reserve_budget args id created_at rows).0)
            ≤ℤ pos args.limits.global_daily)
  reserve_budget_within rows soft total dated e =
      let (added, (hard, calls, day)) = granted-Fits rows soft total e in
      let today : since_midnight args.now (new_row args id created_at) ≡ true = ground arith in
      rw
        (
          added,
          keep_last mine rows (new_row args id created_at) mine_new,
          keep_last (since_midnight args.now) rows (new_row args id created_at) today,
          spend_reserved (keep mine rows),
          calls_reserved (keep mine rows),
          spend_reserved (keep (since_midnight args.now) rows),
        )
        (hard, calls, day)

  -- A reservation that is refused writes nothing.
  pub reserve_budget_refused :
      (rows : Ledger) (scope : BudgetScope)
      → (reserve_budget args id created_at rows).1 ≡ budget_exceeded scope
      → (reserve_budget args id created_at rows).0 ≡ rows
  unfolding reserve_budget
  reserve_budget_refused rows scope e = ground arith

  abbrev pair_of : String → ℕ → Ledger
  pair_of other later =
      new_row args id created_at
      ∷ (record (new_row args other later) { run_id = none; kind = released })
      ∷ []

  balanced :
      (rows : Ledger) (other : String) (later : ℕ)
      → (spend (rows ++ pair_of other later) ≡ spend rows)
        × (calls_made (rows ++ pair_of other later) ≡ calls_made rows)
  unfolding spend calls_made sum_of
  balanced rows other later = (
    ground (
      arith,
      sum_of-append charged rows (pair_of other later),
      sum_of-append returned rows (pair_of other later),
    ),
    ground (
      arith,
      sum_of-append made rows (pair_of other later),
      sum_of-append unmade rows (pair_of other later),
    ),
  )

  -- Releasing a granted reservation that never reached the model gives the revision its spend and
  -- its number of calls back.
  pub release_budget-reserve_budget :
      (rows : Ledger) (soft : Bool) (total : ℤ) (other : String) (later : ℕ)
      → (reserve_budget args id created_at rows).1 ≡ granted id soft total
      → (spend (
            keep
              (of_revision args.request_id args.revision)
              (release_budget args other later (reserve_budget args id created_at rows).0))
          ≡ spend (keep (of_revision args.request_id args.revision) rows))
        × (calls_made (
              keep
                (of_revision args.request_id args.revision)
                (release_budget args other later (reserve_budget args id created_at rows).0))
            ≡ calls_made (keep (of_revision args.request_id args.revision) rows))
  unfolding release_budget
  release_budget-reserve_budget rows soft total other later e =
      let added = (granted-Fits rows soft total e).0 in
      let free = record (new_row args other later) { run_id = none; kind = released } in
      rw
        (
          added,
          keep_last mine (rows ++ new_row args id created_at ∷ []) free mine_new,
          keep_last mine rows (new_row args id created_at) mine_new,
          append_assoc (keep mine rows) (new_row args id created_at ∷ []) (free ∷ []),
        )
        (balanced (keep mine rows) other later)
