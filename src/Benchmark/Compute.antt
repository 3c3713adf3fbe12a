-- ===== src/Benchmark/Compute.antt =====
-- src/lib/advice/benchmark.ts, `computeBenchmark`: the loop over the snapshots, the
-- representatives and the statistics.
use ticketguy.Prelude.{
  ℕ, compare, Ordering, String, Bool, true, false, not, ◌&&◌, Option, none, some, List, [], ◌∷◌,
  ◌++◌, map, str_eq, ltb, leb, if◌then◌else◌, length, any, contains, is_some,
}
use ticketguy.Prelude.Sorting.{sort_by, then_by}
use ticketguy.Benchmark.{
  HistoricalSnapshot, DatasetRights, BenchmarkInput, Adequacy, sufficient, limited, insufficient,
  ExclusionReason, target_event_excluded, fixture_data_not_admissible, no_dataset_rights,
  dataset_use_not_approved, dataset_quarantined, dataset_revoked, dataset_expired,
  dataset_retention_expired, different_entity, different_venue, different_layout_version,
  different_category, different_subtype, home_away_mismatch, different_quantity,
  different_seat_zone, fee_basis_not_verified, coverage_incomplete, no_eligible_group_offer,
  lead_bucket_mismatch, lead_distance_exceeded, source_reason, cohort_reason, quality_reason,
  dataset_of, distance, quantile_type7,
}

abbrev pub reason_text : ExclusionReason → String
reason_text target_event_excluded = "target_event_excluded"
reason_text fixture_data_not_admissible = "fixture_data_not_admissible"
reason_text no_dataset_rights = "no_dataset_rights"
reason_text dataset_use_not_approved = "dataset_use_not_approved"
reason_text dataset_quarantined = "dataset_quarantined"
reason_text dataset_revoked = "dataset_revoked"
reason_text dataset_expired = "dataset_expired"
reason_text dataset_retention_expired = "dataset_retention_expired"
reason_text different_entity = "different_entity"
reason_text different_venue = "different_venue"
reason_text different_layout_version = "different_layout_version"
reason_text different_category = "different_category"
reason_text different_subtype = "different_subtype"
reason_text home_away_mismatch = "home_away_mismatch"
reason_text different_quantity = "different_quantity"
reason_text different_seat_zone = "different_seat_zone"
reason_text fee_basis_not_verified = "fee_basis_not_verified"
reason_text coverage_incomplete = "coverage_incomplete"
reason_text no_eligible_group_offer = "no_eligible_group_offer"
reason_text lead_bucket_mismatch = "lead_bucket_mismatch"
reason_text lead_distance_exceeded = "lead_distance_exceeded"

pub record Exclusion : Type 0 where
  pub event_id : String
  pub reason : ExclusionReason

abbrev Group : Type 0
Group = String × List HistoricalSnapshot

-- the variables that the loop carries
pub record Tally : Type 0 where
  pub exclusions : List Exclusion
  pub used_zone_fallback : Bool
  pub license_expires_at : Option ℕ
  pub customer_display_allowed : Bool
  pub by_event : List (String × List HistoricalSnapshot)

abbrev pub empty_tally : Tally
empty_tally = record {
  exclusions = [];
  used_zone_fallback = false;
  license_expires_at = none;
  customer_display_allowed = true;
  by_event = [];
}

-- `exclude`: the same reason is listed once per event
unfoldable pub exclude : String → ExclusionReason → Tally → Tally
exclude id r t =
    if any (λ e. str_eq e.event_id id && str_eq (reason_text e.reason) (reason_text r)) t.exclusions
    then t
    else record t { exclusions = t.exclusions ++ (record { event_id = id; reason = r }) ∷ [] }

-- `a ?? b`
abbrev pub first_known : Option ℕ → Option ℕ → Option ℕ
first_known none b = b
first_known (some a) _ = some a

abbrev pub sooner : Option ℕ → Option ℕ → Option ℕ
sooner none known = known
sooner (some t) none = some t
sooner (some t) (some known) = some (if ltb t known then t else known)

-- what an admitted dataset's rights do to the result
unfoldable pub note_rights : DatasetRights → Tally → Tally
note_rights ds t = record t {
  customer_display_allowed =
      t.customer_display_allowed && contains "customer_display" ds.approved_uses;
  license_expires_at =
      sooner (first_known ds.derived_retention_until ds.raw_retention_until) t.license_expires_at;
}

abbrev pub note_licence : Bool → Option DatasetRights → Tally → Tally
note_licence false (some ds) t = note_rights ds t
note_licence _ _ t = t

-- a snapshot that names a zone but no section
unfoldable pub note_zone : BenchmarkInput → HistoricalSnapshot → Tally → Tally
note_zone input s t = record t {
  used_zone_fallback =
      if is_some input.target_seat_zone && not (is_some s.section)
      then true
      else t.used_zone_fallback;
}

unfoldable pub add_to_group :
    HistoricalSnapshot
    → List (String × List HistoricalSnapshot)
    → List (String × List HistoricalSnapshot)
add_to_group s [] = (s.event_id, s ∷ []) ∷ []
add_to_group s ((id, l) ∷ groups) =
    let later = add_to_group s groups in
    if str_eq id s.event_id then (id, l ++ s ∷ []) ∷ groups else (id, l) ∷ later

-- The three groups of checks in their order, each with the variables as they then stand.
abbrev pub settle :
    Option ExclusionReason
    → Option ExclusionReason
    → Option ExclusionReason
    → HistoricalSnapshot
    → (at_start licensed zoned : Tally) → Tally
settle (some r) _ _ s t _ _ = exclude s.event_id r t
settle none (some r) _ s _ licensed _ = exclude s.event_id r licensed
settle none none (some r) s _ _ zoned = exclude s.event_id r zoned
settle none none none s _ _ zoned = record zoned { by_event = add_to_group s zoned.by_event }

-- one round of the loop
unfoldable pub admit_snapshot : BenchmarkInput → Tally → HistoricalSnapshot → Tally
admit_snapshot input t s =
    let licensed = note_licence s.is_fixture (dataset_of s.dataset_id input.datasets) t in
    settle (source_reason input s) (cohort_reason input s) (quality_reason input s) s t licensed
      (note_zone input s licensed)

unfoldable pub tally_from : BenchmarkInput → Tally → List HistoricalSnapshot → Tally
tally_from input t [] = t
tally_from input t (s ∷ rest) = tally_from input (admit_snapshot input t s) rest

-- the comparator inside one event: nearest to the target lead time, then the id
abbrev pub nearer :
    (String → String → Ordering) → ℕ → HistoricalSnapshot → HistoricalSnapshot → Ordering
nearer collate lead a b =
    then_by (compare (distance a.lead_time_minutes lead) (distance b.lead_time_minutes lead))
      (collate a.id b.id)

abbrev pub heads : List HistoricalSnapshot → List HistoricalSnapshot → List HistoricalSnapshot
heads [] rest = rest
heads (s ∷ _) rest = s ∷ rest

unfoldable pub representatives_of :
    (String → String → Ordering)
    → ℕ
    → List (String × List HistoricalSnapshot)
    → List HistoricalSnapshot
representatives_of collate lead [] = []
representatives_of collate lead ((_, l) ∷ groups) =
    heads (sort_by (nearer collate lead) l) (representatives_of collate lead groups)

abbrev pub by_event_id :
    (String → String → Ordering) → HistoricalSnapshot → HistoricalSnapshot → Ordering
by_event_id collate a b = collate a.event_id b.event_id

-- `cheapestEligibleTotalCents!`: every admitted snapshot has one
abbrev pub value_of : HistoricalSnapshot → ℕ
value_of s = elim s.cheapest_eligible_total_cents [ some v ↦ v | none ↦ 0 ]

pub data AdequacyReason : Type 0 where
  small_sample fewer_than_5_comparable_events : ℕ → AdequacyReason
  fallback_section_to_equivalent_zone : AdequacyReason

unfoldable pub adequacy_of : ℕ → Adequacy
adequacy_of n = if leb 10 n then sufficient else if leb 5 n then limited else insufficient

abbrev pub sample_reasons : ℕ → List AdequacyReason
sample_reasons n =
    if leb 10 n
    then []
    else if leb 5 n
    then small_sample n ∷ []
    else fewer_than_5_comparable_events n ∷ []

-- the statistics are in quarter cents
pub record BenchmarkResult : Type 0 where
  pub representatives : List HistoricalSnapshot
  pub independent_event_count : ℕ
  pub median : Option ℕ
  pub p25 : Option ℕ
  pub p75 : Option ℕ
  pub adequacy : Adequacy
  pub adequacy_reasons : List AdequacyReason
  pub exclusions : List Exclusion
  pub fallback_applied : Bool
  pub license_expires_at : Option ℕ
  pub customer_display_allowed : Bool

abbrev statistic : ℕ → List ℕ → ℕ → Option ℕ
statistic n values k = if leb 5 n then some (quantile_type7 values k) else none

unfoldable pub representatives_from :
    (String → String → Ordering) → BenchmarkInput → List HistoricalSnapshot
representatives_from collate input = sort_by (by_event_id collate) (
    representatives_of collate input.target_lead_minutes
      (tally_from input empty_tally input.snapshots).by_event)

unfoldable pub compute_benchmark : (String → String → Ordering) → BenchmarkInput → BenchmarkResult
compute_benchmark collate input =
    let t = tally_from input empty_tally input.snapshots in
    let reps = representatives_from collate input in
    let values = map value_of reps in
    let n = length reps in
    let fallback = t.used_zone_fallback && input.allow_zone_fallback in
    record {
      representatives = reps;
      independent_event_count = n;
      median = statistic n values 2;
      p25 = statistic n values 1;
      p75 = statistic n values 3;
      adequacy = adequacy_of n;
      adequacy_reasons =
          sample_reasons n ++ (if fallback then fallback_section_to_equivalent_zone ∷ [] else []);
      exclusions = t.exclusions;
      fallback_applied = fallback;
      license_expires_at = t.license_expires_at;
      customer_display_allowed = if ltb 0 n then t.customer_display_allowed else false;
    }
