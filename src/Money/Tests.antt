-- ===== src/Money/Tests.antt =====
-- src/lib/domain/money.ts: each theorem at a concrete input.
use ticketguy.Prelude.{◌+◌, ◌*◌, ◌≤◌, ◌<◌, ◌≡◌, refl, some}
use ticketguy.Prelude.Int.{pos, negsuc, ◌+ℤ◌}
use ticketguy.Money.{
  ok, range_error, per_person_cents, per_ticket, whole_party, whole_party_budget_cents,
  savings_cents,
}
use ticketguy.Money.Laws.{
  per_person_cents_bounds, per_person_cents-whole_party_budget_cents, savings_cents_exact,
}

money_tests :
    (per_person_cents (pos 10000) (pos 3) ≡ ok 3333)
    × (per_person_cents (pos 10000) (pos 0) ≡ range_error)
    × (whole_party_budget_cents (some (pos 30000)) (some whole_party) (some 2) ≡ ok (some 30000))
    × (whole_party_budget_cents (some (pos 15000)) (some per_ticket) (some 2) ≡ ok (some 30000))
    × (savings_cents (some (pos 500)) (some (pos 700)) ≡ ok (some (negsuc 199)))
unfolding per_person_cents whole_party_budget_cents savings_cents
money_tests = (refl, refl, refl, refl, refl)

per_person_cents_bounds_example : (3 * 3333 ≤ 10000) × (10000 < 3 * 3333 + 3)
per_person_cents_bounds_example = per_person_cents_bounds 10000 3 3333 money_tests.0

per_person_cents-whole_party_budget_cents_example :
    (per_person_cents (pos 30000) (pos 2) ≡ ok 15000)
    × (whole_party_budget_cents (some (pos 30000)) (some whole_party) (some 2) ≡ ok (some 30000))
per_person_cents-whole_party_budget_cents_example =
    per_person_cents-whole_party_budget_cents 15000 1 30000 money_tests.3

savings_cents_exact_example : pos 700 +ℤ negsuc 199 ≡ pos 500
savings_cents_exact_example = savings_cents_exact 500 700 (negsuc 199) money_tests.4
