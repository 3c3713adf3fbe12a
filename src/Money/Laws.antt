-- ===== src/Money/Laws.antt =====
-- src/lib/domain/money.ts: whole-party and per-person amounts against each other.
use native.Mathlib.Nat.{mul-div-le, lt-mul-div-succ, mul-div_cancel, mul-add}
use ticketguy.Prelude.{ℕ, zero, suc, ◌+◌, ◌*◌, ◌/◌, ◌≤◌, ◌<◌, ◌≡◌, refl, ap, some, arith}
use ticketguy.Prelude.Int.{ℤ, pos, ◌+ℤ◌}
use ticketguy.Money.{
  ok, per_person_cents, per_ticket, whole_party, whole_party_budget_cents, savings_cents,
}

-- The per-person amount is the largest one that the party can pay each out of the whole, and the
-- cents lost by rounding are fewer than the party.
pub per_person_cents_bounds :
    (whole quantity each : ℕ)
    → per_person_cents (pos whole) (pos quantity) ≡ ok each
    → (quantity * each ≤ whole) × (whole < quantity * each + quantity)
unfolding per_person_cents
per_person_cents_bounds whole zero each e = absurd (cc)
per_person_cents_bounds whole (suc n) each e =
    let quotient : whole / suc n ≡ each = ground arith in
    rw (← quotient) (
      mul-div-le whole (suc n),
      omega (
        arith,
        lt-mul-div-succ whole {b = suc n} (omega arith),
        mul-add (suc n) (whole / suc n) 1,
      ),
    )

-- A per-ticket budget for a party of `quantity` is divided back to the ticket's price, and a
-- whole-party budget is never multiplied.
pub per_person_cents-whole_party_budget_cents :
    (budget quantity total : ℕ)
    → whole_party_budget_cents (some (pos budget)) (some per_ticket) (some (suc quantity))
      ≡ ok (some total)
    → (per_person_cents (pos total) (pos (suc quantity)) ≡ ok budget)
      × (whole_party_budget_cents (some (pos total)) (some whole_party) (some (suc quantity))
          ≡ ok (some total))
unfolding whole_party_budget_cents per_person_cents
per_person_cents-whole_party_budget_cents budget quantity total e =
    let product : budget * suc quantity ≡ total = ground arith in
    let back : total / suc quantity ≡ budget =
      rw (← product) (mul-div_cancel budget {n = suc quantity} (omega arith)) in
    (ap ok back, refl)

-- Savings are the exact signed difference: candidate and savings add up to the baseline.
pub savings_cents_exact :
    (baseline candidate : ℕ) (saved : ℤ)
    → savings_cents (some (pos baseline)) (some (pos candidate)) ≡ ok (some saved)
    → pos candidate +ℤ saved ≡ pos baseline
unfolding savings_cents ◌+ℤ◌
savings_cents_exact baseline candidate saved e = ground arith
