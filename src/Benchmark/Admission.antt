-- ===== src/Benchmark/Admission.antt =====
-- src/lib/advice/benchmark.ts: which snapshots the loop of `computeBenchmark` lets into the
-- cohort, stated without the order of its checks.
use ticketguy.Prelude.{
  ℕ, ◌≤◌, ◌<◌, ◌≡◌, ◌≢◌, refl, ◌↔◌, String, Bool, true, false, not, ◌&&◌, Option, none, some, arith,
  ap, is_some, contains, Bool-cases, eq_iff, inl, inr,
}
use ticketguy.Benchmark.{
  HistoricalSnapshot, DatasetRights, BenchmarkInput, EventContext, approved, verified_total,
  LeadBucket, lead_bucket, bucket_index, source_reason, cohort_reason, quality_reason, dataset_of,
  dataset_reason, rights_reason, context_matches, distance, same_text, home_differs, reached,
  zone_differs, exceeds, is_missing,
}

-- the dataset may be used for a benchmark at this instant
pub record IsLicensed (now : ℕ) (ds : DatasetRights) : Type 0 where
  pub status : ds.status ≡ approved
  pub benchmark_use : contains "benchmark" ds.approved_uses ≡ true
  pub retention : (t : ℕ) → ds.raw_retention_until ≡ some t → now < t

pub record IsComparable (target : EventContext) (c : EventContext) : Type 0 where
  pub entity : target.entity_slug ≡ c.entity_slug
  pub venue : target.venue_id ≡ c.venue_id
  pub layout : target.layout_version ≡ c.layout_version
  pub category : target.category ≡ c.category
  pub subtype : target.subtype ≡ c.subtype
  pub home : (a b : Bool) → target.is_home ≡ some a → c.is_home ≡ some b → a ≡ b

pub record IsAdmissible (input : BenchmarkInput) (s : HistoricalSnapshot) : Type 0 where
  pub other_event : s.event_id ≢ input.target_event_id
  pub fixture : s.is_fixture ≡ true → input.allow_fixtures ≡ true
  pub licensed :
      s.is_fixture ≡ false
      → (ds : DatasetRights) × (dataset_of s.dataset_id input.datasets ≡ some ds)
        × IsLicensed input.now ds
  pub comparable : IsComparable input.target_context s.context
  pub quantity : s.quantity ≡ input.target_quantity
  pub zone : (z : String) → input.target_seat_zone ≡ some z → s.seat_zone ≡ some z
  pub verified : s.fee_basis ≡ verified_total
  pub coverage : s.coverage_complete ≡ true
  pub priced : (v : ℕ) × (s.cheapest_eligible_total_cents ≡ some v)
  pub same_bucket : lead_bucket s.lead_time_minutes ≡ lead_bucket input.target_lead_minutes
  pub near :
      (limit : ℕ)
      → input.max_lead_distance_minutes ≡ some limit
      → distance s.lead_time_minutes input.target_lead_minutes ≤ limit

same_text_iff : (a b : Option String) → (same_text a b ≡ true) ↔ (a ≡ b)
same_text_iff none none = ground arith
same_text_iff none (some b) = ground arith
same_text_iff (some a) none = ground arith
same_text_iff (some a) (some b) = ground (arith, eq_iff a b)

home_same :
    (a b : Option Bool)
    → (home_differs a b ≡ false) ↔ ((x y : Bool) → a ≡ some x → b ≡ some y → x ≡ y)
home_same none b = ((λ h x y p q. ground arith), λ h. refl)
home_same (some x) none = ((λ h x y p q. ground arith), λ h. ground arith)
home_same (some x) (some y) = ((λ h a b p q. ground arith), λ h. ground (arith, h x y refl refl))

bucket_index_inj : (a b : LeadBucket) → bucket_index a ≡ bucket_index b → a ≡ b
bucket_index_inj a b e = ground arith

not_reached : (o : Option ℕ) (now : ℕ) → (reached o now ≡ false) ↔ ((t : ℕ) → o ≡ some t → now < t)
not_reached none now = ((λ h t e. ground arith), λ h. refl)
not_reached (some t) now = ((λ h u e. ground arith), λ h. ground (arith, h t refl))

dataset_reason-none :
    (ds : DatasetRights) (now : ℕ)
    → (dataset_reason ds now ≡ none)
      ↔ (ds.status ≡ approved)
        × (contains "benchmark" ds.approved_uses ≡ true)
        × (reached ds.raw_retention_until now ≡ false)
unfolding dataset_reason
dataset_reason-none ds now = ground arith

dataset_reason_iff :
    (ds : DatasetRights) (now : ℕ) → (dataset_reason ds now ≡ none) ↔ IsLicensed now ds
dataset_reason_iff ds now = (
  (λ h.
      let (status, usable, kept) = (dataset_reason-none ds now).0 h in
      record {
        status = status;
        benchmark_use = usable;
        retention = (not_reached ds.raw_retention_until now).0 kept;
      }),
  λ l.
      (dataset_reason-none ds now).1
        (l.status, l.benchmark_use, (not_reached ds.raw_retention_until now).1 l.retention),
)

context_matches-none :
    (a b : EventContext)
    → (context_matches a b ≡ none)
      ↔ (a.entity_slug ≡ b.entity_slug)
        × (a.venue_id ≡ b.venue_id)
        × (a.layout_version ≡ b.layout_version)
        × (a.category ≡ b.category)
        × (a.subtype ≡ b.subtype)
        × (home_differs a.is_home b.is_home ≡ false)
unfolding context_matches
context_matches-none a b = ground (
  arith,
  eq_iff a.entity_slug b.entity_slug,
  eq_iff a.venue_id b.venue_id,
  same_text_iff a.layout_version b.layout_version,
  eq_iff a.category b.category,
  same_text_iff a.subtype b.subtype,
)

context_matches_iff : (a b : EventContext) → (context_matches a b ≡ none) ↔ IsComparable a b
context_matches_iff a b = (
  (λ h.
      let (entity, venue, layout, category, subtype, home) = (context_matches-none a b).0 h in
      record {
        entity = entity;
        venue = venue;
        layout = layout;
        category = category;
        subtype = subtype;
        home = (home_same a.is_home b.is_home).0 home;
      }),
  λ c. (context_matches-none a b).1 (
    c.entity,
    c.venue,
    c.layout,
    c.category,
    c.subtype,
    (home_same a.is_home b.is_home).1 c.home,
  ),
)

rights_reason_iff :
    (o : Option DatasetRights) (now : ℕ)
    → (rights_reason o now ≡ none) ↔ ((ds : DatasetRights) × (o ≡ some ds) × IsLicensed now ds)
rights_reason_iff none now = ((λ h. ground arith), λ (ds, e, l). ground arith)
rights_reason_iff (some ds) now = (
  (λ h. (ds, refl, (dataset_reason_iff ds now).0 h)),
  λ (found, e, l). (dataset_reason_iff ds now).1 (rw (same e) l),
)
  where
    same : {found : DatasetRights} → some ds ≡ some found → ds ≡ found
    same e = ground arith

source_reason-none :
    (input : BenchmarkInput) (s : HistoricalSnapshot)
    → (source_reason input s ≡ none)
      ↔ (s.event_id ≢ input.target_event_id)
        × (s.is_fixture ≡ true → input.allow_fixtures ≡ true)
        × (s.is_fixture ≡ false
            → rights_reason (dataset_of s.dataset_id input.datasets) input.now ≡ none)
unfolding source_reason
source_reason-none input s = elim (Bool-cases s.is_fixture) [
  | inl e ↦ ground (arith, eq_iff s.event_id input.target_event_id)
  | inr e ↦ ground (arith, eq_iff s.event_id input.target_event_id)
]

zone_same :
    (o have : Option String)
    → (zone_differs o have ≡ false) ↔ ((z : String) → o ≡ some z → have ≡ some z)
zone_same none have = ((λ h z e. ground arith), λ h. refl)
zone_same (some t) have = (
  (λ h z e. ground (arith, same_text_iff have (some t))),
  λ h. ground (arith, same_text_iff have (some t), h t refl),
)

cohort_reason-none :
    (input : BenchmarkInput) (s : HistoricalSnapshot)
    → (cohort_reason input s ≡ none)
      ↔ (context_matches input.target_context s.context ≡ none)
        × (s.quantity ≡ input.target_quantity)
        × (zone_differs input.target_seat_zone s.seat_zone ≡ false)
unfolding cohort_reason
cohort_reason-none input s = ground arith

within_limit :
    (d : ℕ) (o : Option ℕ) → (exceeds d o ≡ false) ↔ ((limit : ℕ) → o ≡ some limit → d ≤ limit)
within_limit d none = ((λ h l e. ground arith), λ h. refl)
within_limit d (some limit) = ((λ h l e. ground arith), λ h. ground (arith, h limit refl))

quality_reason-none :
    (input : BenchmarkInput) (s : HistoricalSnapshot)
    → (quality_reason input s ≡ none)
      ↔ (s.fee_basis ≡ verified_total)
        × (s.coverage_complete ≡ true)
        × (is_missing s.cheapest_eligible_total_cents ≡ false)
        × (bucket_index (lead_bucket s.lead_time_minutes)
            ≡ bucket_index (lead_bucket input.target_lead_minutes))
        × (exceeds
              (distance s.lead_time_minutes input.target_lead_minutes)
              input.max_lead_distance_minutes
            ≡ false)
unfolding quality_reason
quality_reason-none input s = ground arith

-- no check of the loop stops the snapshot
abbrev pub admitted : BenchmarkInput → HistoricalSnapshot → Bool
admitted input s =
    not (is_some (source_reason input s))
    && not (is_some (cohort_reason input s))
    && not (is_some (quality_reason input s))

admitted-none :
    (input : BenchmarkInput) (s : HistoricalSnapshot)
    → (admitted input s ≡ true)
      ↔ (source_reason input s ≡ none)
        × (cohort_reason input s ≡ none)
        × (quality_reason input s ≡ none)
admitted-none input s = ground arith

known : {A : Type 0} (o : Option A) → is_missing o ≡ false → (a : A) × (o ≡ some a)
known none h = absurd (cc)
known (some a) h = (a, refl)

pub admitted-IsAdmissible :
    (input : BenchmarkInput) (s : HistoricalSnapshot)
    → admitted input s ≡ true
    → IsAdmissible input s
admitted-IsAdmissible input s h =
    let (source, cohort, quality) = (admitted-none input s).0 h in
    let (other, fixture, rights) = (source_reason-none input s).0 source in
    let (context, quantity, zone) = (cohort_reason-none input s).0 cohort in
    let (verified, coverage, priced, bucket, near) = (quality_reason-none input s).0 quality in
    record {
      other_event = other;
      fixture = fixture;
      licensed = λ e. (rights_reason_iff _ input.now).0 (rights e);
      comparable = (context_matches_iff _ _).0 context;
      quantity = quantity;
      zone = (zone_same _ _).0 zone;
      verified = verified;
      coverage = coverage;
      priced = known _ priced;
      same_bucket = bucket_index_inj _ _ bucket;
      near = (within_limit _ _).0 near;
    }

pub IsAdmissible-admitted :
    (input : BenchmarkInput) (s : HistoricalSnapshot)
    → IsAdmissible input s
    → admitted input s ≡ true
IsAdmissible-admitted input s a = (admitted-none input s).1 (
  (source_reason-none input s).1
      (a.other_event, a.fixture, λ e. (rights_reason_iff _ input.now).1 (a.licensed e)),
  (cohort_reason-none input s).1
      ((context_matches_iff _ _).1 a.comparable, a.quantity, (zone_same _ _).1 a.zone),
  (quality_reason-none input s).1 (
    a.verified,
    a.coverage,
    rw a.priced.1 refl,
    ap bucket_index a.same_bucket,
    (within_limit _ _).1 a.near,
  ),
)
