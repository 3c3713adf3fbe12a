-- ===== src/Trend/Direction.antt =====
-- src/lib/advice/trend.ts: when a trend counts as a reading of today, and what its direction says.
use ticketguy.Prelude.{
  ℕ, ◌+◌, ◌-◌, ◌*◌, ◌<◌, ◌≡◌, ◌≢◌, refl, sym, ◌∙◌, ◌↔◌, ◌⊎◌, inl, inr, String, Bool, true, false,
  Option, none, some, List, [], ◌∷◌, ◌||◌, ◌==◌, length, map, arith, Bool-cases,
}
use ticketguy.Prelude.Int.{sub_ℕ}
use ticketguy.Policy.{down, no_direction}
use ticketguy.Trend.{
  TrendObservation, TrendReason, sorted_past, last_of, valid_of, window_of, intersection_of,
  usable_of, price_of, slopes_of,
}
use ticketguy.Trend.Finish.{
  TrendResult, Median, median, direction_of, base_result, conclude, conclude_ends, is_short,
  is_stale, finish_trend, compute_trend,
}

-- A result that counts as a reading of today, with the ends of its series.
record Reads (now : ℕ) (usable : List TrendObservation) (r : TrendResult) : Type 0 where
  first : TrendObservation
  rest : List TrendObservation
  latest : TrendObservation
  from_first : usable ≡ first ∷ rest
  to_latest : last_of usable ≡ some latest
  fresh : latest.observed_at + 24 * 3600000 < now → ⊥
  long_enough : is_short usable ≡ false
  direction :
      r.direction ≡ direction_of (price_of first) (price_of latest) (median (slopes_of usable))
  sufficient : r.is_sufficient ≡ true
  names : r.valid_observation_ids ≡ map (λ (o : TrendObservation). o.id) usable
  latest_at : r.latest_observed_at ≡ some latest.observed_at
  change : r.endpoint_change_cents ≡ some (sub_ℕ (price_of latest) (price_of first))

abbrev Outcome : ℕ → List TrendObservation → TrendResult → Type 0
Outcome now usable r =
    ((r.is_sufficient ≡ false) × (r.direction ≡ no_direction)) ⊎ Reads now usable r

module _ (now : ℕ) (common : List String) (reasons : List TrendReason) where
  base-Outcome :
      (usable : List TrendObservation) → Outcome now usable (base_result now common reasons usable)
  unfolding base_result
  base-Outcome usable = inl (refl, refl)

  conclude-Outcome :
      (first latest : TrendObservation) (os : List TrendObservation)
      → is_short (first ∷ os) ≡ false
      → last_of (first ∷ os) ≡ some latest
      → Outcome now
          (first ∷ os)
          (conclude now (base_result now common reasons (first ∷ os)) (first ∷ os) first latest)
  unfolding conclude base_result
  conclude-Outcome first latest os long last = elim (Bool-cases (is_stale now latest)) [
    | inl e ↦ rw e (inl (refl, refl))
    | inr e ↦ rw e (
        inr (record {
          first = first;
          rest = os;
          latest = latest;
          from_first = refl;
          to_latest = last;
          fresh = λ h. ground arith;
          long_enough = long;
          direction = refl;
          sufficient = refl;
          names = refl;
          latest_at = rw last refl;
          change = rw last refl;
        }))
  ]

  ends-Outcome :
      (usable : List TrendObservation) (latest : Option TrendObservation)
      → is_short usable ≡ false
      → last_of usable ≡ latest
      → Outcome now usable (conclude_ends now (base_result now common reasons usable) usable latest)
  ends-Outcome [] latest long last = base-Outcome []
  ends-Outcome (first ∷ os) none long last = base-Outcome (first ∷ os)
  ends-Outcome (first ∷ os) (some latest) long last = conclude-Outcome first latest os long last

or_false : (a b : Bool) → (a || b) ≡ false → a ≡ false
or_false a b h = ground arith

finish_trend-Outcome :
    (now : ℕ) (reasons : List TrendReason) (valid : List TrendObservation)
    → Outcome now (usable_of valid (intersection_of valid)) (finish_trend now reasons valid)
unfolding finish_trend
finish_trend-Outcome now reasons valid =
    let common = intersection_of valid in
    let usable = usable_of valid common in
    elim (Bool-cases (is_short usable || (length common == 0))) [
      | inl e ↦ rw e (base-Outcome now common _ usable)
      | inr e ↦ rw e (ends-Outcome now common _ usable (last_of usable) (or_false _ _ e) refl)
    ]

directed : (a b : ℕ) (m : Median) → direction_of a b m ≢ no_direction
unfolding direction_of
directed a b m h = ground arith

fell : (a b : ℕ) (m : Median) → direction_of a b m ≡ down → (b + 500 < a) × (3 * a < 100 * (a - b))
unfolding direction_of
fell a b m h = ground arith

module _ (observations : List TrendObservation) (now : ℕ) where
  trend-Outcome :
      Outcome now
        (usable_of
          (window_of (valid_of (sorted_past now observations)))
          (intersection_of (window_of (valid_of (sorted_past now observations)))))
        (compute_trend observations now)
  unfolding compute_trend
  trend-Outcome = finish_trend-Outcome now _ _

  -- A trend without a direction is exactly one that does not count as evidence for timing.
  pub compute_trend-insufficient_iff :
      ((compute_trend observations now).is_sufficient ≡ false)
      ↔ ((compute_trend observations now).direction ≡ no_direction)
  compute_trend-insufficient_iff = elim trend-Outcome [
    | inl (plain, undirected) ↦ ground arith
    | inr reads ↦ (
      (λ h. absurd (ground (arith, reads.sufficient))),
      λ h. absurd (directed _ _ _ (sym reads.direction ∙ h)),
    )
  ]

  -- A falling trend is one that counts, and whose price fell from its first observation to its
  -- last by more than five dollars and by more than three per cent.
  pub compute_trend_down :
      (compute_trend observations now).direction ≡ down
      → ((compute_trend observations now).is_sufficient ≡ true)
        × (before after : ℕ) × ((compute_trend observations now).endpoint_change_cents
            ≡ some (sub_ℕ after before))
        × (after + 500 < before)
        × (3 * before < 100 * (before - after))
  compute_trend_down falls = elim trend-Outcome [
    | inl (plain, undirected) ↦ absurd (ground arith)
    | inr reads ↦
        let (large, share) = fell _ _ _ (sym reads.direction ∙ falls) in
        (reads.sufficient, price_of reads.first, price_of reads.latest, reads.change, large, share)
  ]
