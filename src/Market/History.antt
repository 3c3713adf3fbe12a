-- ===== src/Market/History.antt =====
-- src/lib/market/series.ts: what the counts and the quartiles of past events are.
use mathlib.Core.List.{Memᴰ}
use ticketguy.Prelude.{
  ℕ, ◌+◌, ◌-◌, ◌*◌, ◌/◌, ◌%◌, ◌≤◌, ◌≡◌, refl, ◌∙◌, min, compare, false, some, List, [], ◌∷◌, map,
  eq_iff, arith, String, true, ◌++◌, ap, sym, ◌⊎◌, contains, All-append, inl, inr, length, keep,
  All, ltb, str_eq, ◌==◌, Bool-cases, length-map,
}
use ticketguy.Prelude.Int.{ℤ, pos, leb_ℤ}
use ticketguy.Prelude.Sorting.{sort_by}
use ticketguy.Prelude.Tables.{length-sort_by, Distinct, Distinct-append_fresh}
use ticketguy.Benchmark.{interpolate, quantile_type7}
use ticketguy.Benchmark.Quantiles.{quantile_type7_bounds}
use ticketguy.Market.{Change}
use ticketguy.Market.Past.{
  Comparable, Entry, offer, in_bucket, nearest_entry, per_event_from, last_from, moves_of,
  has_fallen, has_risen, LateMove, late_move_from, quantile_quarters, Typical, typical_at_lead,
}

fallen_and_risen :
    (moves : List Change)
    → length (keep has_fallen moves) + length (keep has_risen moves) ≤ length moves
fallen_and_risen [] = omega arith
fallen_and_risen (c ∷ cs) = ground (arith, fallen_and_risen cs)

-- What past events did before their final day is only said of five events or more and more than
-- two days ahead, and every one of them fell, rose or held.
pub late_move_from_counts :
    (cs : List Comparable) (lead : ℤ) {m : LateMove}
    → late_move_from cs lead ≡ some m
    → (m.fell + m.rose + m.held ≡ m.events) × (5 ≤ m.events) × (leb_ℤ lead (pos (48 * 60)) ≡ false)
unfolding late_move_from
late_move_from_counts cs lead h =
    ground (arith, fallen_and_risen (moves_of (last_from [] cs) (per_event_from lead [] cs)))

-- A position that is no index lies before the last index.
in_gap : (n k h : ℕ) → k ≤ 4 → n * k ≡ h → (h % 4 == 0) ≡ false → min (h / 4 + 1) n ≡ h / 4 + 1
in_gap n k h top same gap = let most : n * k ≤ 4 * n = grind arith in ground arith

quantile_quarters-interpolate :
    (s : List ℕ) (k h : ℕ)
    → k ≤ 4
    → (length s - 1) * k ≡ h
    → quantile_quarters s k ≡ interpolate s h
unfolding quantile_quarters interpolate
quantile_quarters-interpolate s k h top same = elim (Bool-cases (h % 4 == 0)) [
  | inl e ↦ let none_over : h % 4 ≡ 0 = ground arith in rw (same, none_over) (omega arith)
  | inr e ↦ rw (same, in_gap (length s - 1) k h top same e, e) refl
]

-- The quantile of the market series is the quantile of the benchmark.
pub quantile_quarters-quantile_type7 :
    (values : List ℕ) (k : ℕ)
    → k ≤ 4
    → quantile_quarters (sort_by compare values) k ≡ quantile_type7 values k
unfolding quantile_type7
quantile_quarters-quantile_type7 values k top =
    quantile_quarters-interpolate (sort_by compare values) k _ top refl

-- The prices of the entries are prices of the comparables.
module _ (P : ℕ → Type 0) where
  abbrev HasPrice : Entry → Type 0
  HasPrice e = P e.price

  abbrev PastPrice : Comparable → Type 0
  PastPrice c = P c.price_cents

  offer-All :
      (e : Entry) (es : List Entry) → P e.price → All HasPrice es → All HasPrice (offer e es)
  unfolding offer
  offer-All e [] h hs = (h, tt)
  offer-All e (f ∷ es) h hs = elim (Bool-cases (str_eq f.key e.key)) [
    | inr q ↦ rw q (hs.0, offer-All e es h hs.1)
    | inl q ↦ elim (Bool-cases (ltb e.rank f.rank)) [
      | inl r ↦ rw (q, r) (h, hs.1)
      | inr r ↦ rw (q, r) hs
    ]
  ]

  per_event_from-All :
      (lead : ℤ) (es : List Entry) (cs : List Comparable)
      → All HasPrice es
      → All PastPrice cs
      → All HasPrice (per_event_from lead es cs)
  unfolding per_event_from
  per_event_from-All lead es [] h hs = h
  per_event_from-All lead es (c ∷ cs) h hs = elim (Bool-cases (in_bucket lead c)) [
    | inl q ↦ rw q (
        per_event_from-All lead (offer (nearest_entry lead c) es) cs
          (offer-All (nearest_entry lead c) es hs.0 h) hs.1)
    | inr q ↦ rw q (per_event_from-All lead es cs h hs.1)
  ]

  All-prices : (es : List Entry) → All HasPrice es → All P (map (λ (e : Entry). e.price) es)
  All-prices [] h = tt
  All-prices (e ∷ es) h = (h.0, All-prices es h.1)

-- The keys of the entries: an offer adds the key of an event that has no entry yet, and no other.
abbrev keys_of : List Entry → List String
keys_of = map (λ (e : Entry). e.key)

offer-keys :
    (e : Entry) (es : List Entry)
    → (keys_of (offer e es) ≡ keys_of es)
      ⊎ ((contains e.key (keys_of es) ≡ false) × (keys_of (offer e es) ≡ keys_of es ++ e.key ∷ []))
unfolding offer
offer-keys e [] = inr (refl, refl)
offer-keys e (f ∷ es) = elim (Bool-cases (str_eq f.key e.key)) [
  | inl q ↦
      let same : f.key ≡ e.key = (eq_iff f.key e.key).0 q in
      elim (Bool-cases (ltb e.rank f.rank)) [
        | inl r ↦ inl (rw (q, r) (ap (λ k. k ∷ keys_of es) (sym same)))
        | inr r ↦ inl (rw (q, r) refl)
      ]
  | inr q ↦ elim (offer-keys e es) [
    | inl kept ↦ inl (rw q (ap (λ ks. f.key ∷ ks) kept))
    | inr (fresh, added) ↦ inr (ground (arith, q, fresh), rw q (ap (λ ks. f.key ∷ ks) added))
  ]
]

-- A past event of the bucket of the lead time.
abbrev pub HasPast : ℤ → List Comparable → String → Type 0
HasPast lead cs key = (c : Comparable) × Memᴰ c cs × (c.event_key ≡ key) × (in_bucket lead c ≡ true)

module _ (lead : ℤ) (all : List Comparable) where
  abbrev IsPerEvent : List String → Type 0
  IsPerEvent keys = Distinct keys × All (HasPast lead all) keys

  offer-IsPerEvent :
      (e : Entry) (es : List Entry)
      → HasPast lead all e.key
      → IsPerEvent (keys_of es)
      → IsPerEvent (keys_of (offer e es))
  offer-IsPerEvent e es known h = elim (offer-keys e es) [
    | inl kept ↦ rw kept h
    | inr (fresh, added) ↦ rw added (
      Distinct-append_fresh (keys_of es) e.key h.0 fresh,
      All-append (HasPast lead all) (keys_of es) (e.key ∷ []) h.1 (known, tt),
    )
  ]

  per_event_from-IsPerEvent :
      (es : List Entry) (cs : List Comparable)
      → ((c : Comparable) → Memᴰ c cs → Memᴰ c all)
      → IsPerEvent (keys_of es)
      → IsPerEvent (keys_of (per_event_from lead es cs))
  unfolding per_event_from
  per_event_from-IsPerEvent es [] inside h = h
  per_event_from-IsPerEvent es (c ∷ cs) inside h = elim (Bool-cases (in_bucket lead c)) [
    | inl q ↦ rw q (
        per_event_from-IsPerEvent (offer (nearest_entry lead c) es) cs
          (λ d m. inside d (Memᴰ.tail m))
          (offer-IsPerEvent (nearest_entry lead c) es (c, inside c (Memᴰ.head refl), refl, q) h))
    | inr q ↦ rw q (per_event_from-IsPerEvent es cs (λ d m. inside d (Memᴰ.tail m)) h)
  ]

-- A price between two bounds, as past prices are.
abbrev pub Between : ℕ → ℕ → ℕ → Type 0
Between lo hi v = (lo ≤ v) × (v ≤ hi)

typical_at_lead-in_order :
    (cs : List Comparable) (lead : ℤ) (lo hi : ℕ) {t : Typical}
    → typical_at_lead cs lead ≡ some t
    → All (λ (c : Comparable). Between lo hi c.price_cents) cs
    → (length (keys_of (per_event_from lead [] cs)) ≡ t.events)
      × (5 ≤ t.events)
      × (lo ≤ t.p25_cents)
      × (t.p25_cents ≤ t.median_cents)
      × (t.median_cents ≤ t.p75_cents)
      × (t.p75_cents ≤ hi)
unfolding typical_at_lead
typical_at_lead-in_order cs lead lo hi h inside =
    let entries = per_event_from lead [] cs in
    let prices = map (λ (e : Entry). e.price) entries in
    let count : length (sort_by compare prices) ≡ length entries =
      length-sort_by compare prices ∙ length-map (λ (e : Entry). e.price) entries in
    elim (Bool-cases (ltb (length entries) 5)) [
      | inl few ↦ absurd (cc (rw few at h))
      | inr enough ↦
          let b =
            quantile_type7_bounds prices lo hi
              (ground (arith, length-map (λ (e : Entry). e.price) entries))
              (All-prices (Between lo hi) entries
                (per_event_from-All (Between lo hi) lead [] cs tt inside)) in
          ground (
            arith,
            rw enough at h,
            length-map (λ (e : Entry). e.key) entries,
            quantile_quarters-quantile_type7 prices 1 (omega arith),
            quantile_quarters-quantile_type7 prices 2 (omega arith),
            quantile_quarters-quantile_type7 prices 3 (omega arith),
          )
    ]

-- The typical prices are said of five past events or more, which are counted once each and have an
-- observation in the bucket of the lead time; they are in order and between any two bounds that
-- hold for the price of every past observation.
pub typical_at_lead_bounds :
    (cs : List Comparable) (lead : ℤ) (lo hi : ℕ) {t : Typical}
    → typical_at_lead cs lead ≡ some t
    → All (λ (c : Comparable). Between lo hi c.price_cents) cs
    → (keys : List String) × Distinct keys
      × All (HasPast lead cs) keys
      × (length keys ≡ t.events)
      × (5 ≤ t.events)
      × (lo ≤ t.p25_cents)
      × (t.p25_cents ≤ t.median_cents)
      × (t.median_cents ≤ t.p75_cents)
      × (t.p75_cents ≤ hi)
typical_at_lead_bounds cs lead lo hi h inside =
    let (once, past) = per_event_from-IsPerEvent lead cs [] cs (λ c m. m) (tt, tt) in
    let (counted, five, low, lower, upper, high) =
      typical_at_lead-in_order cs lead lo hi h inside in
    (keys_of (per_event_from lead [] cs), once, past, counted, five, low, lower, upper, high)
