-- ===== src/Market/Context.antt =====
-- src/lib/market/series.ts: computeMarketContext, what the series of one basket says now. The
-- observations that are only traced, and the label of the rule, are left out.
use ticketguy.Prelude.{
  ℕ, ◌+◌, ◌-◌, ◌*◌, ◌/◌, max, Ordering, compare, String, Bool, true, false, not, ◌&&◌, ◌||◌, Option,
  none, some, List, [], ◌∷◌, ◌++◌, ltb, leb, if◌then◌else◌, keep, find, length, is_some,
}
use ticketguy.Prelude.Pushes.{push_if}
use ticketguy.Prelude.Sorting.{sort_by}
use ticketguy.Market.{
  MarketBasis, Point, Change, hour, market_min_points, market_min_span_hours, market_stale_hours,
  supply_drop_min, has_moved, change, lead_minutes_of,
}
use ticketguy.Market.Past.{Comparable, LateMove, Typical, late_move_from, typical_at_lead}

pub data ContextReason : Type 0 where
  provider_time_unknown no_points span_too_short no_comparison_window : ContextReason
  stale fewer_points : ℕ → ContextReason

pub data Direction : Type 0 where
  down up flat mixed insufficient : Direction

pub data SupplyTrend : Type 0 where
  shrinking stable growing unknown : SupplyTrend

pub record Supply : Type 0 where
  pub trend : SupplyTrend
  pub counted : Option ℕ
  pub before : Option ℕ
  pub hours : Option ℕ

pub record MarketContext : Type 0 where
  pub basis : MarketBasis
  pub zone : Option String
  pub is_sufficient : Bool
  pub reasons : List ContextReason
  pub current : Option Point
  pub h24 : Option Change
  pub h72 : Option Change
  pub direction : Direction
  pub supply : Supply
  pub typical : Option Typical
  pub late : Option LateMove
  pub points : ℕ

pub record ContextArgs : Type 0 where
  pub basis : MarketBasis
  pub zone : Option String
  pub series : List Point
  pub now : ℕ
  pub event_start_at : ℕ
  pub comparables : List Comparable

abbrev pub by_time : Point → Point → Ordering
by_time a b = compare a.observed_at b.observed_at

abbrev pub is_past : ℕ → Point → Bool
is_past now p = leb p.observed_at now

-- the points up to now, in the order of time
unfoldable pub sorted_past : ContextArgs → List Point
sorted_past a = sort_by by_time (keep (is_past a.now) a.series)

abbrev pub is_timed : Point → Bool
is_timed p = p.time_known

abbrev pub is_untimed : Point → Bool
is_untimed p = not p.time_known

unfoldable pub timed_of : ContextArgs → List Point
unfolding sorted_past
timed_of a = keep is_timed (sorted_past a)

unfoldable pub untimed_of : ContextArgs → List Point
unfolding sorted_past
untimed_of a = keep is_untimed (sorted_past a)

abbrev pub last_of : List Point → Option Point
last_of [] = none
last_of (p ∷ []) = some p
last_of (p ∷ q ∷ ps) = last_of (q ∷ ps)

-- the points but the last one, which is the current one
abbrev pub but_last : List Point → List Point
but_last [] = []
but_last (p ∷ []) = []
but_last (p ∷ q ∷ ps) = p ∷ but_last (q ∷ ps)

abbrev unknown_supply : Supply
unknown_supply = record { trend = unknown; counted = none; before = none; hours = none }

abbrev has_count : Point → Bool
has_count p = is_some p.active_listings

abbrev count_of : Point → ℕ
count_of p = elim p.active_listings [ none ↦ 0 | some n ↦ n ]

-- between twelve and seventy-two hours before the newest count
abbrev is_before : Point → Point → Bool
is_before newest p =
    leb newest.observed_at (p.observed_at + 72 * hour)
    && leb (p.observed_at + 12 * hour) newest.observed_at

-- ten listings, and a quarter of the earlier count
abbrev is_large : ℕ → ℕ → Bool
is_large moved b = leb supply_drop_min moved && leb (max b 1) (4 * moved)

abbrev pub trend_of : ℕ → ℕ → SupplyTrend
trend_of n b =
    if is_large (b - n) b then shrinking else if is_large (n - b) b then growing else stable

abbrev supply_since : ℕ → Point → Option Point → Supply
supply_since now newest none = unknown_supply
supply_since now newest (some before) =
    if leb now (newest.observed_at + market_stale_hours * hour)
    then record {
      trend = trend_of (count_of newest) (count_of before);
      counted = some (count_of newest);
      before = some (count_of before);
      hours = some ((newest.observed_at - before.observed_at + hour / 2) / hour);
    }
    else unknown_supply

abbrev supply_from : ℕ → List Point → Option Point → Supply
supply_from now counted none = unknown_supply
supply_from now counted (some newest) = supply_since now newest (find (is_before newest) counted)

unfoldable pub supply_of : ℕ → List Point → Supply
supply_of now pts = let counted = keep has_count pts in supply_from now counted (last_of counted)

abbrev pub is_stale : ℕ → Point → Bool
is_stale now current = ltb (current.observed_at + market_stale_hours * hour) now

abbrev pub is_short : List Point → Point → Bool
is_short [] current = true
is_short (first ∷ rest) current =
    ltb current.observed_at (first.observed_at + market_min_span_hours * hour)

unfoldable pub inadequacies : ℕ → List Point → Point → List ContextReason
inadequacies now pts current =
    push_if (is_stale now current) (stale ((now - current.observed_at + hour / 2) / hour))
    ++ (push_if (ltb (length pts) market_min_points) (fewer_points (length pts))
        ++ push_if (is_short pts current) span_too_short)

abbrev pub way_of : Change → Direction
way_of c = if ltb c.to_cents c.from_cents then down else up

abbrev same_way : Change → Change → Bool
same_way long short =
    (ltb long.to_cents long.from_cents && ltb short.to_cents short.from_cents)
    || (not (ltb long.to_cents long.from_cents) && not (ltb short.to_cents short.from_cents))

abbrev both_windows : Change → Change → Direction
both_windows long short =
    if has_moved long && has_moved short
    then (if same_way long short then way_of long else mixed)
    else if has_moved short
    then mixed
    else if has_moved long
    then way_of long
    else flat

abbrev one_window : Change → Direction
one_window w = if has_moved w then way_of w else flat

-- none where there is no window to compare with
abbrev pub direction_of : Option Change → Option Change → Option Direction
direction_of (some long) (some short) = some (both_windows long short)
direction_of (some w) none = some (one_window w)
direction_of none (some w) = some (one_window w)
direction_of none none = none

unfoldable pub base_context : ContextArgs → MarketContext
unfolding timed_of late_move_from typical_at_lead lead_minutes_of
base_context a =
    let lead = lead_minutes_of a.event_start_at a.now in
    record {
      basis = a.basis;
      zone = a.zone;
      is_sufficient = false;
      reasons = [];
      current = last_of (timed_of a);
      h24 = none;
      h72 = none;
      direction = insufficient;
      supply = unknown_supply;
      typical = elim a.comparables [ [] ↦ none | c ∷ cs ↦ typical_at_lead (c ∷ cs) lead ];
      late = elim a.comparables [ [] ↦ none | c ∷ cs ↦ late_move_from (c ∷ cs) lead ];
      points = length (timed_of a);
    }

abbrev pub without_current : MarketContext → Option Point → MarketContext
without_current base none = record base { reasons = no_points ∷ [] }
without_current base (some p) = record base {
  reasons = provider_time_unknown ∷ [];
  current = some p;
}

-- the last steps: inadequate, or with no window, or with a direction
abbrev pub conclude : MarketContext → List ContextReason → MarketContext
conclude base (r ∷ rs) = record base { reasons = r ∷ rs }
conclude base [] = elim (direction_of base.h72 base.h24) [
  | none ↦ record base { reasons = no_comparison_window ∷ [] }
  | some d ↦ record base { is_sufficient = true; direction = d }
]

abbrev pub with_windows : MarketContext → ℕ → List Point → Point → MarketContext
with_windows base now pts current = record base {
  h24 = change (but_last pts) current 24;
  h72 = change (but_last pts) current 72;
  supply = supply_of now pts;
}

unfoldable pub with_current : MarketContext → ℕ → List Point → Point → MarketContext
unfolding change supply_of inadequacies
with_current base now pts current =
    conclude (with_windows base now pts current) (inadequacies now pts current)

abbrev pub context_from : ContextArgs → MarketContext → Option Point → MarketContext
context_from a base none = without_current base (last_of (untimed_of a))
context_from a base (some current) = with_current base a.now (timed_of a) current

unfoldable pub compute_market_context : ContextArgs → MarketContext
unfolding base_context with_current untimed_of timed_of
compute_market_context a = context_from a (base_context a) (last_of (timed_of a))
