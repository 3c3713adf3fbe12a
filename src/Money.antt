-- ===== src/Money.antt =====
-- src/lib/domain/money.ts: integer amounts of USD cents. An amount that may be negative is an ℤ;
-- `assertCents` throws on one. Amounts that are no integers are not modelled.
pub mod Laws
mod Tests
use ticketguy.Prelude.{
  ℕ, zero, suc, ◌+◌, ◌*◌, ◌/◌, Bool, Option, none, some, ◌==◌, ltb, if◌then◌else◌,
}
use ticketguy.Prelude.Int.{ℤ, pos, negsuc, sub_ℕ}

-- A value, or the `RangeError` that is thrown.
pub data Checked {ℓ} (A : Type ℓ) : Type ℓ where
  ok : A → Checked A
  range_error : Checked A

infixl 10 ◌>>=◌
abbrev pub ◌>>=◌ {ℓ κ} : {A : Type ℓ} {B : Type κ} → Checked A → (A → Checked B) → Checked B
ok a >>= f = f a
range_error >>= f = range_error

unfoldable pub assert_cents : ℤ → Checked ℕ
assert_cents (pos n) = ok n
assert_cents (negsuc n) = range_error

abbrev positive_quantity : ℤ → Checked ℕ
positive_quantity (pos (suc n)) = ok (suc n)
positive_quantity _ = range_error

-- `Math.floor(wholePartyCents / quantity)`
unfoldable pub per_person_cents : ℤ → ℤ → Checked ℕ
unfolding assert_cents
per_person_cents whole quantity = do
  cents ← assert_cents whole
  n ← positive_quantity quantity
  ok (cents / n)

pub data BudgetBasis : Type 0 where
  per_ticket whole_party : BudgetBasis

unfoldable pub whole_party_budget_cents :
    Option ℤ → Option BudgetBasis → Option ℕ → Checked (Option ℕ)
unfolding assert_cents
whole_party_budget_cents none basis quantity = ok none
whole_party_budget_cents (some budget) none quantity = ok none
whole_party_budget_cents (some budget) (some whole_party) quantity = do
  cents ← assert_cents budget
  ok (some cents)
whole_party_budget_cents (some budget) (some per_ticket) none = do
  cents ← assert_cents budget
  ok none
whole_party_budget_cents (some budget) (some per_ticket) (some quantity) = do
  cents ← assert_cents budget
  ok (some (cents * quantity))

unfoldable pub savings_cents : Option ℤ → Option ℤ → Checked (Option ℤ)
unfolding assert_cents
savings_cents none candidate = ok none
savings_cents (some baseline) none = ok none
savings_cents (some baseline) (some candidate) = do
  b ← assert_cents baseline
  c ← assert_cents candidate
  ok (some (sub_ℕ b c))
