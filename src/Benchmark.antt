-- ===== src/Benchmark.antt =====
-- src/lib/advice/benchmark.ts: the historical benchmark. Amounts are whole cents, quantiles are
-- kept in quarter cents (type 7 at a quarter, a half and three quarters needs no finer unit),
-- instants are milliseconds since the epoch. `localeCompare` is the argument `collate`.
pub mod Quantiles
pub mod Compute
pub mod Admission
pub mod Groups
pub mod Cohort
pub mod Statistics
mod Tests
use ticketguy.Prelude.{
  ℕ, zero, suc, ◌+◌, ◌-◌, ◌*◌, ◌/◌, ◌%◌, compare, Ordering, String, Bool, true, false, not, ◌&&◌,
  ◌||◌, Option, none, some, List, [], ◌∷◌, ◌++◌, map, str_eq, ◌==◌, ltb, leb, if◌then◌else◌,
  or_else, length, any, contains, find,
}
use ticketguy.Prelude.Sorting.{sort_by, then_by}

pub data LeadBucket : Type 0 where
  hours_0_6 hours_6_24 days_1_3 days_3_7 days_7_14 days_14_30 days_30_up : LeadBucket

-- `h < 6`, `h < 24`, … with the hours written as minutes
unfoldable pub lead_bucket : ℕ → LeadBucket
lead_bucket minutes =
    if ltb minutes (6 * 60)
    then hours_0_6
    else if ltb minutes (24 * 60)
    then hours_6_24
    else if ltb minutes (72 * 60)
    then days_1_3
    else if ltb minutes (168 * 60)
    then days_3_7
    else if ltb minutes (336 * 60)
    then days_7_14
    else if ltb minutes (720 * 60)
    then days_14_30
    else days_30_up

abbrev pub bucket_index : LeadBucket → ℕ
bucket_index hours_0_6 = 0
bucket_index hours_6_24 = 1
bucket_index days_1_3 = 2
bucket_index days_3_7 = 3
bucket_index days_7_14 = 4
bucket_index days_14_30 = 5
bucket_index days_30_up = 6

pub data FeeBasis : Type 0 where
  verified_total estimated_total incomplete : FeeBasis

pub data DayType : Type 0 where
  weekday weekend : DayType

pub record EventContext : Type 0 where
  pub entity_slug : String
  pub venue_id : String
  pub layout_version : Option String
  pub category : String
  pub subtype : Option String
  pub is_home : Option Bool
  pub day_type : Option DayType

pub record HistoricalSnapshot : Type 0 where
  pub id : String
  pub event_id : String
  pub dataset_id : Option String
  pub quantity : ℕ
  pub seat_zone : Option String
  pub section : Option String
  pub lead_time_minutes : ℕ
  pub cheapest_eligible_total_cents : Option ℕ
  pub fee_basis : FeeBasis
  pub coverage_complete : Bool
  pub is_fixture : Bool
  pub context : EventContext

pub data DatasetStatus : Type 0 where
  quarantined approved revoked expired : DatasetStatus

pub record DatasetRights : Type 0 where
  pub id : String
  pub status : DatasetStatus
  pub approved_uses : List String
  pub raw_retention_until : Option ℕ
  pub derived_retention_until : Option ℕ
  pub is_fixture : Bool

pub record BenchmarkInput : Type 0 where
  pub target_event_id : String
  pub target_context : EventContext
  pub target_quantity : ℕ
  pub target_seat_zone : Option String
  pub target_lead_minutes : ℕ
  pub snapshots : List HistoricalSnapshot
  pub datasets : List (String × DatasetRights)
  pub now : ℕ
  pub allow_fixtures : Bool
  pub allow_zone_fallback : Bool
  pub max_lead_distance_minutes : Option ℕ

pub data Adequacy : Type 0 where
  sufficient limited insufficient : Adequacy

pub data ExclusionReason : Type 0 where
  target_event_excluded fixture_data_not_admissible no_dataset_rights : ExclusionReason
  dataset_use_not_approved dataset_quarantined dataset_revoked dataset_expired : ExclusionReason
  dataset_retention_expired different_entity different_venue : ExclusionReason
  different_layout_version different_category different_subtype : ExclusionReason
  home_away_mismatch different_quantity different_seat_zone : ExclusionReason
  fee_basis_not_verified coverage_incomplete no_eligible_group_offer : ExclusionReason
  lead_bucket_mismatch lead_distance_exceeded : ExclusionReason

-- Type-7 quantile at k quarters, in quarter cents; the source throws on no values (here 0).
unfoldable pub at_index : List ℕ → ℕ → ℕ
at_index [] i = 0
at_index (x ∷ xs) zero = x
at_index (x ∷ xs) (suc i) = at_index xs i

-- the value at the position h, counted in quarters
unfoldable pub interpolate : List ℕ → ℕ → ℕ
interpolate s h =
    let lo = h / 4 in
    if h % 4 == 0
    then 4 * at_index s lo
    else 4 * at_index s lo + h % 4 * (at_index s (lo + 1) - at_index s lo)

unfoldable pub quantile_type7 : List ℕ → ℕ → ℕ
quantile_type7 values k = let s = sort_by compare values in interpolate s ((length s - 1) * k)

abbrev pub same_text : Option String → Option String → Bool
same_text none none = true
same_text (some a) (some b) = str_eq a b
same_text _ _ = false

-- both known, and different
abbrev pub home_differs : Option Bool → Option Bool → Bool
home_differs (some true) (some false) = true
home_differs (some false) (some true) = true
home_differs _ _ = false

unfoldable pub context_matches : EventContext → EventContext → Option ExclusionReason
context_matches a b =
    if not (str_eq a.entity_slug b.entity_slug)
    then some different_entity
    else if not (str_eq a.venue_id b.venue_id)
    then some different_venue
    else if not (same_text a.layout_version b.layout_version)
    then some different_layout_version
    else if not (str_eq a.category b.category)
    then some different_category
    else if not (same_text a.subtype b.subtype)
    then some different_subtype
    else if home_differs a.is_home b.is_home
    then some home_away_mismatch
    else none

abbrev pub status_reason : DatasetStatus → Option ExclusionReason
status_reason approved = none
status_reason quarantined = some dataset_quarantined
status_reason revoked = some dataset_revoked
status_reason expired = some dataset_expired

abbrev pub reached : Option ℕ → ℕ → Bool
reached none now = false
reached (some t) now = leb t now

unfoldable pub dataset_reason : DatasetRights → ℕ → Option ExclusionReason
dataset_reason ds now = elim (status_reason ds.status) [
  | some r ↦ some r
  | none ↦
      if not (contains "benchmark" ds.approved_uses)
      then some dataset_use_not_approved
      else if reached ds.raw_retention_until now
      then some dataset_retention_expired
      else none
]

-- `s.datasetId ? datasets[s.datasetId] : undefined`
unfoldable pub dataset_of : Option String → List (String × DatasetRights) → Option DatasetRights
dataset_of none sets = none
dataset_of (some id) [] = none
dataset_of (some id) ((k, ds) ∷ sets) =
    let later = dataset_of (some id) sets in
    if str_eq id "" then none else if str_eq k id then some ds else later

abbrev pub rights_reason : Option DatasetRights → ℕ → Option ExclusionReason
rights_reason none now = some no_dataset_rights
rights_reason (some ds) now = dataset_reason ds now

-- the checks before the context: the target event, fixtures, and dataset rights
unfoldable pub source_reason : BenchmarkInput → HistoricalSnapshot → Option ExclusionReason
source_reason input s =
    if str_eq s.event_id input.target_event_id
    then some target_event_excluded
    else if s.is_fixture
    then if input.allow_fixtures then none else some fixture_data_not_admissible
    else rights_reason (dataset_of s.dataset_id input.datasets) input.now

abbrev pub zone_differs : Option String → Option String → Bool
zone_differs none _ = false
zone_differs (some target) zone = not (same_text zone (some target))

-- the checks up to the seat zone
unfoldable pub cohort_reason : BenchmarkInput → HistoricalSnapshot → Option ExclusionReason
unfolding context_matches
cohort_reason input s = elim (context_matches input.target_context s.context) [
  | some r ↦ some r
  | none ↦
      if not (s.quantity == input.target_quantity)
      then some different_quantity
      else if zone_differs input.target_seat_zone s.seat_zone
      then some different_seat_zone
      else none
]

abbrev pub is_verified : FeeBasis → Bool
is_verified verified_total = true
is_verified _ = false

abbrev pub is_missing {ℓ} : {A : Type ℓ} → Option A → Bool
is_missing none = true
is_missing (some a) = false

-- `Math.abs(a - b)`
abbrev pub distance : ℕ → ℕ → ℕ
distance a b = a - b + (b - a)

-- no limit stands for an infinite one
abbrev pub exceeds : ℕ → Option ℕ → Bool
exceeds d none = false
exceeds d (some limit) = ltb limit d

-- the checks on the price and the lead time
unfoldable pub quality_reason : BenchmarkInput → HistoricalSnapshot → Option ExclusionReason
quality_reason input s =
    if not (is_verified s.fee_basis)
    then some fee_basis_not_verified
    else if not s.coverage_complete
    then some coverage_incomplete
    else if is_missing s.cheapest_eligible_total_cents
    then some no_eligible_group_offer
    else if not (
        bucket_index (lead_bucket s.lead_time_minutes)
        == bucket_index (lead_bucket input.target_lead_minutes))
    then some lead_bucket_mismatch
    else if exceeds (distance s.lead_time_minutes input.target_lead_minutes)
        input.max_lead_distance_minutes
    then some lead_distance_exceeded
    else none
