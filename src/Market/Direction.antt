-- ===== src/Market/Direction.antt =====
-- src/lib/market/series.ts: when a series says that prices are falling.
use mathlib.Core.List.{Memᴰ}
use ticketguy.Prelude.{
  ℕ, ◌+◌, ◌-◌, ◌*◌, ◌<◌, ◌≤◌, ◌≡◌, ◌⊎◌, inl, inr, refl, ◌∙◌, ap, true, false, Option, none, some,
  List, [], ◌∷◌, arith, sym, length, All, leb, ◌&&◌, if◌then◌else◌, Bool-cases, Option-cases,
}
use ticketguy.Market.{
  Point, Change, hour, has_moved, from_target, nearest_from, nearer, tolerance_of, change,
}
use ticketguy.Market.Context.{
  ContextArgs, MarketContext, ContextReason, down, insufficient, timed_of, untimed_of, last_of,
  but_last, inadequacies, direction_of, conclude, base_context, with_windows, with_current,
  without_current, context_from, compute_market_context,
}

-- A fall that counts: by five per cent of the earlier price and by three dollars.
abbrev pub HasFallen : Change → Type 0
HasFallen c =
    (c.to_cents < c.from_cents)
    × (c.from_cents ≤ 20 * (c.from_cents - c.to_cents))
    × (300 ≤ c.from_cents - c.to_cents)

-- Points that span the shortest series.
abbrev pub Spans : List Point → Point → Type 0
Spans [] current = ⊥
Spans (first ∷ rest) current = first.observed_at + 12 * hour ≤ current.observed_at

-- The windows that a fall is read from.
abbrev pub Falls : Option Change → Option Change → Type 0
Falls (some long) (some short) = HasFallen long × ((has_moved short ≡ false) ⊎ HasFallen short)
Falls (some long) none = HasFallen long
Falls none (some short) = HasFallen short
Falls none none = ⊥

direction_of_down :
    (long short : Option Change) → direction_of long short ≡ some down → Falls long short
direction_of_down (some l) (some s) h = elim (Bool-cases (has_moved s)) [
  | inr e ↦ (ground arith, inl e)
  | inl e ↦ (ground arith, inr (ground arith))
]
direction_of_down (some l) none h = ground arith
direction_of_down none (some s) h = ground arith
direction_of_down none none h = absurd (cc h)

inadequacies-nil :
    (now : ℕ) (pts : List Point) (current : Point)
    → inadequacies now pts current ≡ []
    → (now ≤ current.observed_at + 24 * hour) × (4 ≤ length pts) × Spans pts current
unfolding inadequacies
inadequacies-nil now [] current h = absurd (ground arith)
inadequacies-nil now (p ∷ ps) current h = ground arith

-- The nearest point within the tolerance, or none where every point is farther away.
module _ (now hours tolerance : ℕ) where
  nearest_from-found :
      (all : List Point) (best : Option Point) (ps : List Point)
      → ((q : Point) → best ≡ some q → Memᴰ q all × (from_target now hours q ≤ tolerance))
      → ((q : Point) → Memᴰ q ps → Memᴰ q all)
      → (q : Point) → nearest_from now hours tolerance best ps ≡ some q
      → Memᴰ q all × (from_target now hours q ≤ tolerance)
  unfolding nearest_from
  nearest_from-found all best [] good inside q h = good q h
  nearest_from-found all best (p ∷ ps) good inside q h =
      elim (Bool-cases (leb (from_target now hours p) tolerance && nearer now hours p best)) [
        | inr e ↦ nearest_from-found all best ps good (λ r m. inside r (Memᴰ.tail m)) q (rw e at h)
        | inl e ↦
            nearest_from-found all (some p) ps
              (λ r same.
                let is_p : p ≡ r = cc same in
                rw (sym is_p) (inside p (Memᴰ.head refl), ground (arith, e)))
              (λ r m. inside r (Memᴰ.tail m)) q (rw e at h)
      ]

  nearest_from-missed :
      (best : Option Point) (ps : List Point)
      → nearest_from now hours tolerance best ps ≡ none
      → (best ≡ none) × All (λ p. tolerance < from_target now hours p) ps
  unfolding nearest_from
  nearest_from-missed best [] h = (h, tt)
  nearest_from-missed best (p ∷ ps) h =
      let (kept, farther) =
        nearest_from-missed
          (if leb (from_target now hours p) tolerance && nearer now hours p best
            then some p
            else best)
          ps h in
      elim (Bool-cases (leb (from_target now hours p) tolerance && nearer now hours p best)) [
        | inl e ↦ absurd (cc (rw e at kept))
        | inr e ↦
            let is_none : best ≡ none = rw e at kept in
            (is_none, (ground (arith, rw is_none at e), farther))
      ]

-- A change over a window: from the price of a point that is about so many hours older than the
-- current one to the current price; where there is none, no point is about so old.
abbrev pub IsWindow : List Point → Point → ℕ → ℕ → Option Change → Type 0
IsWindow earlier current hours slack none =
    All (λ p. slack * hour < from_target current.observed_at hours p) earlier
IsWindow earlier current hours slack (some c) =
    (p : Point) × Memᴰ p earlier
    × (p.observed_at + (hours - slack) * hour ≤ current.observed_at)
    × (current.observed_at ≤ p.observed_at + (hours + slack) * hour)
    × (c.from_cents ≡ p.price_cents)
    × (c.to_cents ≡ current.price_cents)

module _ (earlier : List Point) (current : Point) (hours slack : ℕ) where
  change-IsWindow :
      slack ≤ hours
      → tolerance_of hours ≡ slack * hour
      → IsWindow earlier current hours slack (change earlier current hours)
  unfolding change
  change-IsWindow less same =
      elim (Option-cases
        (nearest_from current.observed_at hours (tolerance_of hours) none earlier)) [
          | inl e ↦ rw e (
              rw same at
                (nearest_from-missed current.observed_at hours (tolerance_of hours) none earlier
                  e).1)
          | inr (p, e) ↦
              let (inside, near) =
                nearest_from-found current.observed_at hours (tolerance_of hours) earlier none
                  earlier (λ q none_yet. absurd (cc none_yet)) (λ q m. m) p e in
              rw e (p, inside, grind (arith, same, near), grind (arith, same, near), refl, refl)
        ]

-- What a context with falling prices has.
pub record IsFall (pts : List Point) (now : ℕ) (current : Point) (c : MarketContext) : Type 0 where
  pub sufficient : c.is_sufficient ≡ true
  pub newest : c.current ≡ some current
  pub last : last_of pts ≡ some current
  pub fresh : now ≤ current.observed_at + 24 * hour
  pub enough : 4 ≤ length pts
  pub spans : Spans pts current
  pub three_days : IsWindow (but_last pts) current 72 18 c.h72
  pub one_day : IsWindow (but_last pts) current 24 6 c.h24
  pub falls : Falls c.h72 c.h24

conclude_down :
    (base : MarketContext) (reasons : List ContextReason)
    → base.direction ≡ insufficient
    → (conclude base reasons).direction ≡ down
    → (reasons ≡ [])
      × (direction_of base.h72 base.h24 ≡ some down)
      × (conclude base reasons ≡ record base { is_sufficient = true; direction = down })
conclude_down base (r ∷ rs) none_yet h = absurd (cc h)
conclude_down base [] none_yet h = elim (Option-cases (direction_of base.h72 base.h24)) [
  | inl e ↦ absurd (cc (rw (e, conclude) at h))
  | inr (d, e) ↦
      let q : d ≡ down = rw (e, conclude) at h in
      let f : direction_of base.h72 base.h24 ≡ some down = e ∙ ap some q in
      (refl, f, rw (f, conclude))
]

with_current_down :
    (base : MarketContext) (now : ℕ) (pts : List Point) (current : Point)
    → base.direction ≡ insufficient
    → base.current ≡ some current
    → last_of pts ≡ some current
    → (with_current base now pts current).direction ≡ down
    → IsFall pts now current (with_current base now pts current)
unfolding with_current
with_current_down base now pts current none_yet newest last h =
    let (adequate, found, same) =
      conclude_down (with_windows base now pts current) (inadequacies now pts current) none_yet h in
    let (fresh, enough, spans) = inadequacies-nil now pts current adequate in
    rw same (record {
      sufficient = refl;
      newest = newest;
      last = last;
      fresh = fresh;
      enough = enough;
      spans = spans;
      three_days = change-IsWindow (but_last pts) current 72 18 (omega arith) refl;
      one_day = change-IsWindow (but_last pts) current 24 6 (omega arith) refl;
      falls = direction_of_down _ _ found;
    })

context_from_down :
    (a : ContextArgs) (base : MarketContext) (newest : Option Point)
    → base.direction ≡ insufficient
    → base.current ≡ newest
    → last_of (timed_of a) ≡ newest
    → (context_from a base newest).direction ≡ down
    → (current : Point) × IsFall (timed_of a) a.now current (context_from a base newest)
context_from_down a base (some current) none_yet newest last h =
    (current, with_current_down base a.now (timed_of a) current none_yet newest last h)
context_from_down a base none none_yet newest last h = absurd (without (last_of (untimed_of a)) h)
  where
    without : (p : Option Point) → (without_current base p).direction ≡ down → ⊥
    without none h = cc
    without (some p) h = cc

-- Prices are said to fall only on evidence: the newest dated point is at most a day old, and there
-- are four dated points or more, which span twelve hours or more. The price of the newest point is
-- below that of a point 54 to 90 hours older, or, where no dated point is so old, of a point 18 to
-- 30 hours older, by five per cent and by three dollars at least; where there is a point of either
-- age, the change since the younger one does not count as a move or is such a fall too.
pub compute_market_context_down :
    (a : ContextArgs)
    → (compute_market_context a).direction ≡ down
    → (current : Point) × IsFall (timed_of a) a.now current (compute_market_context a)
unfolding compute_market_context base_context
compute_market_context_down a h =
    context_from_down a (base_context a) (last_of (timed_of a)) refl refl refl h
