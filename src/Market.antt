-- ===== src/Market.antt =====
-- src/lib/market/series.ts: the resale market series. Prices are whole cents. A share of a price is
-- compared by cross-multiplication, which decides as the source's quotient does; the percentages
-- themselves, which are only shown, are left out.
pub mod Context
pub mod Direction
pub mod History
pub mod Past
pub mod Undated
mod Tests
use ticketguy.Prelude.{
  ℕ, ◌+◌, ◌-◌, ◌*◌, ◌/◌, ◌%◌, ◌≡◌, min, max, Ordering, compare, String, Bool, true, false, not,
  ◌&&◌, ◌||◌, Option, none, some, List, [], ◌∷◌, ltb, leb, ◌==◌, if◌then◌else◌, keep,
}
use ticketguy.Prelude.Int.{ℤ, pos, sub_ℕ, ltb_ℤ, leb_ℤ, pos_part, neg_part}

pub data MarketBasis : Type 0 where
  single pair : MarketBasis
  group : ℕ → MarketBasis

abbrev pub max_group_size : ℕ
max_group_size = 12

unfoldable pub basis_for_quantity : ℕ → MarketBasis
basis_for_quantity quantity =
    if leb quantity 1
    then single
    else if quantity == 2
    then pair
    else group (min quantity max_group_size)

unfoldable pub basis_size : MarketBasis → ℕ
basis_size single = 1
basis_size pair = 2
basis_size (group n) = n

abbrev pub hour : ℕ
hour = 3600000

abbrev pub market_min_points : ℕ
market_min_points = 4

abbrev pub market_min_span_hours : ℕ
market_min_span_hours = 12

abbrev pub market_move_cents : ℕ
market_move_cents = 300

abbrev pub market_stale_hours : ℕ
market_stale_hours = 24

abbrev pub supply_drop_min : ℕ
supply_drop_min = 10

abbrev pub typical_min_events : ℕ
typical_min_events = 5

-- `time_known` is false only where the source's field is `false`
pub record Point : Type 0 where
  pub observed_at : ℕ
  pub price_cents : ℕ
  pub active_listings : Option ℕ
  pub time_known : Bool

abbrev pub apart : ℕ → ℕ → ℕ
apart a b = (a - b) + (b - a)

-- how far a point is from the instant `hours` before `now`, which may lie before the epoch
abbrev pub from_target : ℕ → ℕ → Point → ℕ
from_target now hours p = apart (p.observed_at + hours * hour) now

abbrev pub nearer : ℕ → ℕ → Point → Option Point → Bool
nearer now hours p none = true
nearer now hours p (some best) = ltb (from_target now hours p) (from_target now hours best)

unfoldable pub nearest_from : ℕ → ℕ → ℕ → Option Point → List Point → Option Point
nearest_from now hours tolerance best [] = best
nearest_from now hours tolerance best (p ∷ ps) =
    let closer = leb (from_target now hours p) tolerance && nearer now hours p best in
    nearest_from now hours tolerance (if closer then some p else best) ps

pub record Change : Type 0 where
  pub hours : ℕ
  pub from_cents : ℕ
  pub to_cents : ℕ

-- a quarter of the window, three hours at least, in milliseconds
abbrev pub tolerance_of : ℕ → ℕ
tolerance_of hours = max (3 * hour) (hours * hour / 4)

abbrev pub change_from : Point → ℕ → Option Point → Option Change
change_from current hours none = none
change_from current hours (some base) =
    some (record { hours = hours; from_cents = base.price_cents; to_cents = current.price_cents })

-- `earlier` are the points other than the current one
unfoldable pub change : List Point → Point → ℕ → Option Change
unfolding nearest_from
change earlier current hours =
    change_from current hours
      (nearest_from current.observed_at hours (tolerance_of hours) none earlier)

abbrev pub moved_by : Change → ℕ
moved_by c = apart c.to_cents c.from_cents

-- five per cent of the earlier price, and three dollars
abbrev pub has_moved : Change → Bool
has_moved c = leb c.from_cents (20 * moved_by c) && leb market_move_cents (moved_by c)

pub data LeadBucket : Type 0 where
  day three_days week fortnight month later : LeadBucket

abbrev pub bucket_number : LeadBucket → ℕ
bucket_number day = 0
bucket_number three_days = 1
bucket_number week = 2
bucket_number fortnight = 3
bucket_number month = 4
bucket_number later = 5

unfoldable pub lead_bucket_for : ℤ → LeadBucket
lead_bucket_for lead =
    if ltb_ℤ lead (pos (24 * 60))
    then day
    else if ltb_ℤ lead (pos (72 * 60))
    then three_days
    else if ltb_ℤ lead (pos (168 * 60))
    then week
    else if ltb_ℤ lead (pos (336 * 60))
    then fortnight
    else if ltb_ℤ lead (pos (720 * 60))
    then month
    else later

-- `Math.round` of the minutes from now to the start, whose ties go up
unfoldable pub lead_minutes_of : ℕ → ℕ → ℤ
lead_minutes_of start now =
    if leb now start
    then pos ((start - now + 30000) / 60000)
    else sub_ℕ 0 ((now - start + 29999) / 60000)
