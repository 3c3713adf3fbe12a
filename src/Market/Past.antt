-- ===== src/Market/Past.antt =====
-- src/lib/market/series.ts: what past comparable events did, one value for each event. The median
-- percentage, which is only shown, is left out. A Map is a list of entries in insertion order.
use ticketguy.Prelude.{
  ℕ, ◌+◌, ◌-◌, ◌*◌, ◌/◌, ◌%◌, min, compare, String, Bool, ◌&&◌, Option, none, some, List, [], ◌∷◌,
  map, str_eq, ltb, ◌==◌, if◌then◌else◌, keep, length,
}
use ticketguy.Prelude.Int.{ℤ, pos, pos_part, neg_part, ltb_ℤ, leb_ℤ}
use ticketguy.Prelude.Sorting.{sort_by}
use ticketguy.Benchmark.{at_index}
use ticketguy.Market.{
  LeadBucket, bucket_number, Change, has_moved, apart, typical_min_events, lead_bucket_for,
}

pub record Comparable : Type 0 where
  pub event_key : String
  pub lead_minutes : ℤ
  pub price_cents : ℕ

-- an entry: the event, its distance or lead time, and its price
pub record Entry : Type 0 where
  pub key : String
  pub rank : ℕ
  pub price : ℕ

abbrev pub entry_for : String → List Entry → Option Entry
entry_for key [] = none
entry_for key (e ∷ es) = if str_eq e.key key then some e else entry_for key es

-- `if (!prev || rank < prev.rank) map.set(key, …)`
unfoldable pub offer : Entry → List Entry → List Entry
offer e [] = e ∷ []
offer e (f ∷ es) =
    let rest = offer e es in
    if str_eq f.key e.key then (if ltb e.rank f.rank then e else f) ∷ es else f ∷ rest

abbrev pub apart_ℤ : ℤ → ℤ → ℕ
apart_ℤ a b = apart (pos_part a + neg_part b) (pos_part b + neg_part a)

abbrev pub in_bucket : ℤ → Comparable → Bool
in_bucket lead c =
    bucket_number (lead_bucket_for c.lead_minutes) == bucket_number (lead_bucket_for lead)

abbrev pub nearest_entry : ℤ → Comparable → Entry
nearest_entry lead c = record {
  key = c.event_key;
  rank = apart_ℤ c.lead_minutes lead;
  price = c.price_cents;
}

-- each event's price nearest this lead time, within the same bucket
unfoldable pub per_event_from : ℤ → List Entry → List Comparable → List Entry
unfolding offer lead_bucket_for
per_event_from lead entries [] = entries
per_event_from lead entries (c ∷ cs) =
    per_event_from lead (if in_bucket lead c then offer (nearest_entry lead c) entries else entries)
      cs

abbrev pub is_final_day : Comparable → Bool
is_final_day c = leb_ℤ (pos 0) c.lead_minutes && ltb_ℤ c.lead_minutes (pos (24 * 60))

abbrev pub last_entry : Comparable → Entry
last_entry c = record { key = c.event_key; rank = pos_part c.lead_minutes; price = c.price_cents }

-- each event's last price within its final day
unfoldable pub last_from : List Entry → List Comparable → List Entry
unfolding offer
last_from entries [] = entries
last_from entries (c ∷ cs) =
    last_from (if is_final_day c then offer (last_entry c) entries else entries) cs

abbrev pub moves_of : List Entry → List Entry → List Change
moves_of last [] = []
moves_of last (e ∷ es) =
    let rest = moves_of last es in
    elim (entry_for e.key last) [
      | none ↦ rest
      | some l ↦
          if ltb 0 e.price
          then (record { hours = 0; from_cents = e.price; to_cents = l.price }) ∷ rest
          else rest
    ]

abbrev pub has_fallen : Change → Bool
has_fallen c = has_moved c && ltb c.to_cents c.from_cents

abbrev pub has_risen : Change → Bool
has_risen c = has_moved c && ltb c.from_cents c.to_cents

pub record LateMove : Type 0 where
  pub events : ℕ
  pub fell : ℕ
  pub rose : ℕ
  pub held : ℕ
  pub lead_bucket : LeadBucket

unfoldable pub late_move_from : List Comparable → ℤ → Option LateMove
unfolding per_event_from last_from
late_move_from comparables lead =
    let moves = moves_of (last_from [] comparables) (per_event_from lead [] comparables) in
    let fell = length (keep has_fallen moves) in
    let rose = length (keep has_risen moves) in
    if leb_ℤ lead (pos (48 * 60))
    then none
    else if ltb (length moves) typical_min_events
    then none
    else some (record {
      events = length moves;
      fell = fell;
      rose = rose;
      held = length moves - fell - rose;
      lead_bucket = lead_bucket_for lead;
    })

-- four times `quantile(sorted, k / 4)`
unfoldable pub quantile_quarters : List ℕ → ℕ → ℕ
quantile_quarters sorted k =
    let h = (length sorted - 1) * k in
    let low = at_index sorted (h / 4) in
    4 * low + h % 4 * (at_index sorted (min (h / 4 + 1) (length sorted - 1)) - low)

-- `Math.round`
abbrev pub rounded : ℕ → ℕ
rounded quarters = (quarters + 2) / 4

pub record Typical : Type 0 where
  pub events : ℕ
  pub p25_cents : ℕ
  pub median_cents : ℕ
  pub p75_cents : ℕ
  pub lead_bucket : LeadBucket

unfoldable pub typical_at_lead : List Comparable → ℤ → Option Typical
unfolding per_event_from quantile_quarters
typical_at_lead comparables lead =
    let entries = per_event_from lead [] comparables in
    let v = sort_by compare (map (λ (e : Entry). e.price) entries) in
    if ltb (length entries) typical_min_events
    then none
    else some (record {
      events = length v;
      p25_cents = rounded (quantile_quarters v 1);
      median_cents = rounded (quantile_quarters v 2);
      p75_cents = rounded (quantile_quarters v 3);
      lead_bucket = lead_bucket_for lead;
    })
