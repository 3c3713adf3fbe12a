-- ===== src/Benchmark/Cohort.antt =====
-- src/lib/advice/benchmark.ts: one representative per event, and the numbers of the result.
use mathlib.Core.List.{Memᴰ}
use ticketguy.Prelude.{
  ◌≤◌, ◌≡◌, refl, ap, ◌∙◌, inl, inr, Ordering, String, Bool, true, false, Option, none, some, arith,
  List, [], ◌∷◌, map, All, Bool-cases, not, ◌&&◌, is_some, if◌then◌else◌,
}
use ticketguy.Prelude.Sorting.{IsConsistent, sort_by-All}
use ticketguy.Prelude.Tables.{Distinct, sort_by-Distinct, sort_by-mem}
use ticketguy.Benchmark.{
  HistoricalSnapshot, BenchmarkInput, distance, source_reason, cohort_reason, quality_reason,
  dataset_of, ExclusionReason,
}
use ticketguy.Benchmark.Admission.{
  admitted, IsAdmissible, admitted-IsAdmissible, IsAdmissible-admitted,
}
use ticketguy.Benchmark.Groups.{
  keys, IsGroup, Holds, add_to_group-Distinct, add_to_group-IsGroup, add_to_group-Holds,
  Holds-add_to_group, representatives_of-All, representatives_of-keys, representatives_of_nearest,
}
use ticketguy.Benchmark.Compute.{
  Tally, empty_tally, exclude, note_rights, note_licence, note_zone, add_to_group, settle,
  admit_snapshot, tally_from, by_event_id, representatives_from, compute_benchmark,
}

exclude_keeps : (id : String) (r : _) (t : Tally) → (exclude id r t).by_event ≡ t.by_event
unfolding exclude
exclude_keeps id r t = ground arith

licence_keeps :
    (fixture : Bool) (o : _) (t : Tally) → (note_licence fixture o t).by_event ≡ t.by_event
unfolding note_rights
licence_keeps true o t = refl
licence_keeps false none t = refl
licence_keeps false (some ds) t = refl

admit_snapshot-by_event :
    (input : BenchmarkInput) (t : Tally) (s : HistoricalSnapshot)
    → (admit_snapshot input t s).by_event
      ≡ (if admitted input s then add_to_group s t.by_event else t.by_event)
unfolding admit_snapshot note_zone
admit_snapshot-by_event input t s =
    by_reasons (source_reason input s) (cohort_reason input s) (quality_reason input s)
  where
    licence :
        (note_licence s.is_fixture (dataset_of s.dataset_id input.datasets) t).by_event ≡ t.by_event
    licence = licence_keeps s.is_fixture _ t

    by_reasons :
        (source cohort quality : Option ExclusionReason)
        → (settle source cohort quality s t
            (note_licence s.is_fixture (dataset_of s.dataset_id input.datasets) t)
            (note_zone input s
              (note_licence s.is_fixture (dataset_of s.dataset_id input.datasets) t))).by_event
          ≡ (if not (is_some source) && not (is_some cohort) && not (is_some quality)
              then add_to_group s t.by_event
              else t.by_event)
    by_reasons (some r) cohort quality = exclude_keeps s.event_id r t
    by_reasons none (some r) quality = exclude_keeps s.event_id r _ ∙ licence
    by_reasons none none (some r) = exclude_keeps s.event_id r _ ∙ licence
    by_reasons none none none = ap (add_to_group s) licence

abbrev InCohort : BenchmarkInput → HistoricalSnapshot → Type 0
InCohort input s = Memᴰ s input.snapshots × IsAdmissible input s

module _ (input : BenchmarkInput) where
  round_Grouped :
      (P : HistoricalSnapshot → Type 0) (t : Tally) (s : HistoricalSnapshot)
      → (admitted input s ≡ true → P s)
      → Distinct (keys t.by_event)
      → All (IsGroup P) t.by_event
      → Distinct (keys (admit_snapshot input t s).by_event)
        × All (IsGroup P) (admit_snapshot input t s).by_event
  round_Grouped P t s has d h =
      rw (admit_snapshot-by_event input t s) (elim (Bool-cases (admitted input s)) [
        | inl e ↦
            rw e
              (add_to_group-Distinct s t.by_event d, add_to_group-IsGroup P s t.by_event (has e) h)
        | inr e ↦ rw e (d, h)
      ])

  tally_from_Grouped :
      (P : HistoricalSnapshot → Type 0) (t : Tally) (l : List HistoricalSnapshot)
      → ((s : HistoricalSnapshot) → Memᴰ s l → admitted input s ≡ true → P s)
      → Distinct (keys t.by_event)
      → All (IsGroup P) t.by_event
      → Distinct (keys (tally_from input t l).by_event)
        × All (IsGroup P) (tally_from input t l).by_event
  unfolding tally_from
  tally_from_Grouped P t [] has d h = (d, h)
  tally_from_Grouped P t (s ∷ l) has d h =
      let (d', h') = round_Grouped P t s (has s (Memᴰ.head refl)) d h in
      tally_from_Grouped P (admit_snapshot input t s) l (λ r m. has r (Memᴰ.tail m)) d' h'

  round_Holds :
      (r : HistoricalSnapshot) (t : Tally) (s : HistoricalSnapshot)
      → Holds r t.by_event
      → Holds r (admit_snapshot input t s).by_event
  round_Holds r t s h =
      rw (admit_snapshot-by_event input t s) (elim (Bool-cases (admitted input s)) [
        | inl e ↦ rw e (Holds-add_to_group s r t.by_event h)
        | inr e ↦ rw e h
      ])

  tally_from-Holds :
      (r : HistoricalSnapshot) (t : Tally) (l : List HistoricalSnapshot)
      → Holds r t.by_event
      → Holds r (tally_from input t l).by_event
  unfolding tally_from
  tally_from-Holds r t [] h = h
  tally_from-Holds r t (s ∷ l) h =
      tally_from-Holds r (admit_snapshot input t s) l (round_Holds r t s h)

  tally_from_every :
      (r : HistoricalSnapshot) (t : Tally) (l : List HistoricalSnapshot)
      → Memᴰ r l
      → admitted input r ≡ true
      → Holds r (tally_from input t l).by_event
  unfolding tally_from
  tally_from_every r t [] m a = elim m [ ]
  tally_from_every r t (s ∷ l) (Memᴰ.head e) a =
      tally_from-Holds r (admit_snapshot input t s) l
        (rw (admit_snapshot-by_event input t s, ← e, a) (add_to_group-Holds r t.by_event))
  tally_from_every r t (s ∷ l) (Memᴰ.tail m) a = tally_from_every r (admit_snapshot input t s) l m a

  abbrev grouped : List (String × List HistoricalSnapshot)
  grouped = (tally_from input empty_tally input.snapshots).by_event

  cohort_Grouped : Distinct (keys grouped) × All (IsGroup (InCohort input)) grouped
  cohort_Grouped =
      tally_from_Grouped (InCohort input) empty_tally input.snapshots
        (λ s m a. (m, admitted-IsAdmissible input s a)) tt tt

  module _ (collate : String → String → Ordering) where
    -- The representatives stand for events that are all different, and each is a snapshot of the
    -- input that is admissible for the cohort.
    pub compute_benchmark-representatives :
        Distinct (
          map
            (λ (s : HistoricalSnapshot). s.event_id)
            (compute_benchmark collate input).representatives)
        × All
            (λ s. Memᴰ s input.snapshots × IsAdmissible input s)
            (compute_benchmark collate input).representatives
    unfolding compute_benchmark representatives_from
    compute_benchmark-representatives =
        let lead = input.target_lead_minutes in
        let (d, groups) = cohort_Grouped in
        let ids = representatives_of-keys collate lead (InCohort input) grouped groups in
        (
          sort_by-Distinct (λ (s : HistoricalSnapshot). s.event_id) (by_event_id collate) _
              (rw ids d),
          sort_by-All (InCohort input) (by_event_id collate) _
              (representatives_of-All collate lead (InCohort input) grouped groups),
        )

    -- When the collation is a total preorder, every snapshot of the input that is admissible has a
    -- representative: one of its own event, whose lead time is at least as near to the target's.
    pub compute_benchmark_nearest :
        (r : HistoricalSnapshot)
        → IsConsistent collate
        → Memᴰ r input.snapshots
        → IsAdmissible input r
        → (q : HistoricalSnapshot) × Memᴰ q (compute_benchmark collate input).representatives
          × (q.event_id ≡ r.event_id)
          × (distance q.lead_time_minutes input.target_lead_minutes
              ≤ distance r.lead_time_minutes input.target_lead_minutes)
    unfolding compute_benchmark representatives_from
    compute_benchmark_nearest r consistent m a =
        let lead = input.target_lead_minutes in
        let (d, groups) = cohort_Grouped in
        let held =
          tally_from_every r empty_tally input.snapshots m (IsAdmissible-admitted input r a) in
        let (q, mq, e, near) =
          representatives_of_nearest collate lead consistent (InCohort input) r grouped groups
            held in
        (q, sort_by-mem (by_event_id collate) _ mq, e, near)
