-- ===== src/Budget/Tests.antt =====
-- src/lib/ai/budget.ts: runs of the ledger, and each theorem at a concrete input.
use ticketguy.Prelude.{◌≡◌, refl, true, false, none, [], keep, arith}
use ticketguy.Prelude.Int.{pos, ◌≤ℤ◌, ◌+ℤ◌}
use ticketguy.Prelude.Tables.{update_where}
use ticketguy.Budget.{
  ReserveArgs, Usage, Ledger, granted, budget_exceeded, request_hard_scope, sum_of, spend,
  calls_made, of_revision, since_midnight, reserve_budget, settle_budget, release_budget,
  record_usage,
}
use ticketguy.Budget.Limits.{
  reserve_budget_within, reserve_budget_refused, release_budget-reserve_budget,
}

rules : Unit {0}
unfolding sum_of spend calls_made reserve_budget settle_budget release_budget record_usage
    update_where ◌+ℤ◌
rules = tt

abbrev call : ReserveArgs
call = record {
  request_id = "r";
  revision = 1;
  run_id = none;
  job_name = "draft";
  model = "m";
  estimated_usd_micros = 40;
  limits = record {
    request_soft = 50;
    request_hard = 100;
    global_daily = 1000;
    max_calls_per_revision = 3;
  };
  now = 86400500;
}

abbrev one : Ledger
one = (reserve_budget call "a" 86400500 []).0

abbrev two : Ledger
two = (reserve_budget call "b" 86400600 one).0

abbrev used : Usage
used = record { input_tokens = 10; output_tokens = 5; tool_calls = 0; actual_usd_micros = 12 }

runs :
    ((reserve_budget call "a" 86400500 []).1 ≡ granted "a" false (pos 40))
    × ((reserve_budget call "b" 86400600 one).1 ≡ granted "b" true (pos 80))
    × ((reserve_budget call "c" 86400700 two).1 ≡ budget_exceeded request_hard_scope)
    × ((reserve_budget call "c" 86400700 (settle_budget "a" used two)).1
        ≡ granted "c" true (pos 92))
    × (spend (record_usage call used "x" 86400800 (release_budget call "y" 86400800 two)) ≡ pos 52)
unfolding rules
runs = (refl, refl, refl, refl, refl)

reserve_budget_within_example :
    (spend (keep (of_revision "r" 1) two) ≤ℤ pos 100)
    × (calls_made (keep (of_revision "r" 1) two) ≤ℤ pos 3)
    × (spend (keep (since_midnight 86400500) two) ≤ℤ pos 1000)
reserve_budget_within_example =
    reserve_budget_within call "b" 86400600 one true (pos 80) (omega arith) runs.1

reserve_budget_refused_example : (reserve_budget call "c" 86400700 two).0 ≡ two
reserve_budget_refused_example =
    reserve_budget_refused call "c" 86400700 two request_hard_scope runs.2

release_budget-reserve_budget_example :
    (spend (keep (of_revision "r" 1) (release_budget call "y" 86400800 two))
      ≡ spend (keep (of_revision "r" 1) one))
    × (calls_made (keep (of_revision "r" 1) (release_budget call "y" 86400800 two))
        ≡ calls_made (keep (of_revision "r" 1) one))
release_budget-reserve_budget_example =
    release_budget-reserve_budget call "b" 86400600 one true (pos 80) "y" 86400800 runs.1
