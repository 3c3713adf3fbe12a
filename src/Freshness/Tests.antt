-- ===== src/Freshness/Tests.antt =====
-- src/lib/domain/freshness.ts: runs of the check, and its theorem at a concrete input.
use ticketguy.Prelude.{◌+◌, ◌*◌, ◌≤◌, ◌≡◌, ◌↔◌, ◌⊎◌, refl, inr, true, none, some, arith}
use ticketguy.Freshness.{FreshnessArgs, check_freshness, source_data_stale}
use ticketguy.Freshness.Exactness.{IsEffective, check_freshness_iff}

abbrev args : FreshnessArgs
args = record {
  fetched_at = 1000000;
  source_as_of = some 600000;
  event_start_at = 90000000;
  now = 1000000;
}

freshness_tests :
    ((check_freshness args).fresh ≡ true)
    × ((check_freshness (record args { event_start_at = 2000000 })).reason ≡ some source_data_stale)
unfolding check_freshness
freshness_tests = (refl, refl)

as_of : IsEffective args 600000
as_of = record { not_later = omega arith; source = λ t e. ground arith; one_of = inr refl }

check_freshness_iff_example :
    (((check_freshness args).fresh ≡ true) ↔ (
      (600000 ≤ 1000000)
      × (1000000 ≤ 600000 + 15 * 60000)
      × ((1000000 + 24 * 3600000 ≤ 90000000) ⊎ (1000000 ≤ 600000 + 5 * 60000))))
    × (((check_freshness args).reason ≡ none) ↔ ((check_freshness args).fresh ≡ true))
check_freshness_iff_example = check_freshness_iff args 600000 as_of
