-- ===== src/Watches/Alerts.antt =====
-- src/lib/domain/watches.ts: when exactly a price is alerted, and the instants of a watch.
use mathlib.Core.Option.{some-injective}
use ticketguy.Prelude.{
  ℕ, ◌+◌, ◌*◌, ◌≤◌, ◌<◌, ◌≡◌, ◌↔◌, ◌⊎◌, refl, Bool, true, false, Option, none, some, arith,
}
use ticketguy.Watches.{
  RepeatArgs, needed_reduction, too_small, target_and_repeats, should_alert, should_alert_market,
  cadence_minutes, watch_expiry, hour_ms,
}

-- Against the lowest total alerted so far, a candidate is at least $10 lower, and lower by at
-- least a twentieth of it, rounded to the nearest cent.
abbrev pub Improves : Option ℕ → ℕ → Type 0
Improves none candidate = Unit {0}
Improves (some last) candidate = (candidate + 1000 ≤ last) × (20 * candidate < 19 * last + 10)

-- The target, the dedupe key, the daily cap and the re-alert rule.
pub record IsWorthAlerting (a : RepeatArgs) : Type 0 where
  pub within_target : a.candidate_total_cents ≤ a.target_total_cents
  pub new : a.dedupe_key_exists ≡ false
  pub below_cap : a.alerts_in_last_24h < 2
  pub improves : Improves a.last_alerted_total_cents a.candidate_total_cents

too_small_iff :
    (last : Option ℕ) (candidate : ℕ) → (too_small last candidate ≡ false) ↔ Improves last candidate
unfolding needed_reduction
too_small_iff none candidate = (λ _. tt, λ _. refl)
too_small_iff (some last) candidate = ground arith

pub target_and_repeats_iff :
    (a : RepeatArgs) → ((target_and_repeats a).alert ≡ true) ↔ IsWorthAlerting a
unfolding target_and_repeats
target_and_repeats_iff a =
    let (to, from) = too_small_iff a.last_alerted_total_cents a.candidate_total_cents in
    (
      λ e. record {
        within_target = ground arith;
        new = ground arith;
        below_cap = ground arith;
        improves = to (ground arith);
      },
      λ w. let small = from w.improves in ground (arith, w.within_target, w.new, w.below_cap),
    )

-- A seller's price is alerted exactly when it is a verified total, fresh, within the target, not
-- alerted before under its key, under the cap of two alerts a day, and low enough below the lowest
-- total alerted so far.
pub should_alert_iff :
    (verified fresh : Bool) (a : RepeatArgs)
    → ((should_alert verified fresh a).alert ≡ true)
      ↔ ((verified ≡ true) × (fresh ≡ true) × IsWorthAlerting a)
unfolding should_alert
should_alert_iff true true a =
    let (to, from) = target_and_repeats_iff a in ((λ e. (refl, refl, to e)), λ w. from w.2)
should_alert_iff true false a = ((λ e. absurd (cc)), λ w. absurd (cc))
should_alert_iff false fresh a = ((λ e. absurd (cc)), λ w. absurd (cc))

recent :
    (at now : ℕ) (a : RepeatArgs)
    → (should_alert_market (some at) now a).alert ≡ true
    → (at ≤ now + 10 * 60000) × (now ≤ at + 180 * 60000) × ((target_and_repeats a).alert ≡ true)
unfolding should_alert_market
recent at now a e = ground arith

same_read :
    (at now : ℕ) (a : RepeatArgs) (read : ℕ)
    → at ≡ read
    → read ≤ now + 10 * 60000
    → now ≤ read + 180 * 60000
    → (target_and_repeats a).alert ≡ true
    → (should_alert_market (some at) now a).alert ≡ true
unfolding should_alert_market
same_read at now a read e p q h = ground arith

-- A market estimate is alerted exactly when the provider dated its read, the read is at most ten
-- minutes ahead of us and at most three hours old, and the shared rules hold.
pub should_alert_market_iff :
    (observed : Option ℕ) (now : ℕ) (a : RepeatArgs)
    → ((should_alert_market observed now a).alert ≡ true) ↔ (
        (at : ℕ) × (observed ≡ some at)
        × (at ≤ now + 10 * 60000)
        × (now ≤ at + 180 * 60000)
        × IsWorthAlerting a)
unfolding should_alert_market
should_alert_market_iff none now a = ((λ e. absurd (cc)), λ w. absurd (cc (w.1)))
should_alert_market_iff (some at) now a =
    let (to, from) = target_and_repeats_iff a in
    (
      (λ e. let passed = recent at now a e in (at, refl, passed.0, passed.1, to passed.2)),
      λ w. same_read at now a w.0 (some-injective _ _ w.1) w.2 w.3 (from w.4),
    )

-- The next check of a watch: never after the event but for the last-minute cadence of the final
-- two hours, which needs its approval, and never further apart than at an earlier instant.
pub cadence_minutes_lem :
    (event_start now later : ℕ) (approved : Bool) (minutes minutes' : ℕ)
    → now ≤ later
    → cadence_minutes event_start now approved ≡ some minutes
    → cadence_minutes event_start later approved ≡ some minutes'
    → (minutes' ≤ minutes)
      × (now < event_start)
      × ((now + minutes * 60000 < event_start)
          ⊎ ((approved ≡ true) × (event_start ≤ now + 2 * hour_ms)))
unfolding cadence_minutes
cadence_minutes_lem event_start now later approved minutes minutes' le e e' = ground arith

-- A watch ends at the earliest of thirty days from now, the event, and the purchase deadline.
pub watch_expiry_lem :
    (now event_start deadline : ℕ)
    → (watch_expiry now event_start (some deadline) ≤ watch_expiry now event_start none)
      × (watch_expiry now event_start none ≤ event_start)
      × (watch_expiry now event_start (some deadline) ≤ deadline)
      × (watch_expiry now event_start none ≤ now + 30 * 24 * hour_ms)
      × ((watch_expiry now event_start (some deadline) ≡ watch_expiry now event_start none)
          ⊎ (watch_expiry now event_start (some deadline) ≡ deadline))
unfolding watch_expiry
watch_expiry_lem now event_start deadline = ground arith
