-- ===== src/Market/Undated.antt =====
-- src/lib/market/series.ts: points that the provider did not date.
use ticketguy.Prelude.{
  ◌≡◌, refl, sym, ap, ◌∙◌, Bool, true, Option, none, some, List, [], ◌∷◌, arith, inl, inr, keep,
  Option-cases,
}
use ticketguy.Prelude.Sorting.{IsConsistent, sort_by}
use ticketguy.Prelude.Filtering.{keep_comm, keep-sort_by}
use ticketguy.Market.{Point, Change}
use ticketguy.Market.Context.{
  ContextArgs, MarketContext, ContextReason, Direction, Supply, by_time, is_timed, is_past,
  sorted_past, timed_of, untimed_of, last_of, inadequacies, direction_of, conclude, base_context,
  with_windows, with_current, without_current, context_from, compute_market_context,
}

by_time-IsConsistent : IsConsistent by_time
by_time-IsConsistent = record { total = λ a b g. ground arith; trans = λ a b d p q. ground arith }

-- The same points, without those that the provider did not date.
abbrev pub dated : ContextArgs → ContextArgs
dated a = record a { series = keep is_timed a.series }

timed_of-dated : (a : ContextArgs) → timed_of (dated a) ≡ timed_of a
unfolding timed_of sorted_past
timed_of-dated a =
    let sorts = keep-sort_by by_time-IsConsistent is_timed in
    sorts (keep (is_past a.now) (keep is_timed a.series))
    ∙ ap (sort_by by_time) (keep_comm is_timed (is_past a.now) a.series)
    ∙ sym (sorts (keep (is_past a.now) a.series))

-- What the trend of a context says.
abbrev pub trend_of : MarketContext → Bool × Option Change × Option Change × Direction × Supply
trend_of c = (c.is_sufficient, c.h24, c.h72, c.direction, c.supply)

-- The conclusion reads nothing of a context but its trend.
conclude-trend_of :
    (b c : MarketContext) (reasons : List ContextReason)
    → trend_of b ≡ trend_of c
    → trend_of (conclude b reasons) ≡ trend_of (conclude c reasons)
conclude-trend_of b c (r ∷ rs) h = h
conclude-trend_of b c [] h =
    let same : direction_of c.h72 c.h24 ≡ direction_of b.h72 b.h24 =
      ap (λ (t : Bool × Option Change × Option Change × Direction × Supply). direction_of t.2 t.1)
        (sym h) in
    elim (Option-cases (direction_of b.h72 b.h24)) [
      | inl e ↦ rw (e, conclude) (rw (same ∙ e, conclude) h)
      | inr (d, e) ↦
          rw (e, conclude)
            (rw (same ∙ e, conclude)
              (ap
                (λ (t : Bool × Option Change × Option Change × Direction × Supply).
                  (true, t.1, t.2, d, t.4))
                h))
    ]

trend_of_without :
    (b : MarketContext) (p : Option Point) → trend_of (without_current b p) ≡ trend_of b
trend_of_without b none = refl
trend_of_without b (some p) = refl

context_from-trend_of :
    (a : ContextArgs) (b c : MarketContext) (newest : Option Point)
    → trend_of b ≡ trend_of c
    → trend_of (context_from (dated a) b newest) ≡ trend_of (context_from a c newest)
unfolding with_current
context_from-trend_of a b c none h =
    trend_of_without b (last_of (untimed_of (dated a)))
    ∙ h
    ∙ sym (trend_of_without c (last_of (untimed_of a)))
context_from-trend_of a b c (some current) h =
    let pts = timed_of a in
    ap (λ ps. trend_of (with_current b a.now ps current)) (timed_of-dated a)
    ∙ conclude-trend_of (with_windows b a.now pts current) (with_windows c a.now pts current)
        (inadequacies a.now pts current)
        (ap
          (λ (t : Bool × Option Change × Option Change × Direction × Supply).
            trend_of
              (with_windows (record b { is_sufficient = t.0; direction = t.3 }) a.now pts current))
          h)

-- Points that the provider did not date never enter a trend: with and without them the verdict
-- whether the series is sufficient, both windows, the direction and the supply are the same.
pub compute_market_context-dated :
    (a : ContextArgs)
    → trend_of (compute_market_context (dated a)) ≡ trend_of (compute_market_context a)
unfolding compute_market_context base_context
compute_market_context-dated a =
    ap (λ pts. trend_of (context_from (dated a) (base_context (dated a)) (last_of pts)))
      (timed_of-dated a)
    ∙ context_from-trend_of a (base_context (dated a)) (base_context a) (last_of (timed_of a)) refl
