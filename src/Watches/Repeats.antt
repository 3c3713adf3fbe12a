-- ===== src/Watches/Repeats.antt =====
-- src/lib/domain/watches.ts: the alerts of one watch generation, one after the other.
use ticketguy.Prelude.{
  ℕ, ◌+◌, ◌*◌, ◌≤◌, ◌≡◌, ◌∙◌, refl, subst, true, Option, none, some, List, [], ◌∷◌, ◌++◌, length,
  min, All, Option-cases, inl, inr, arith,
}
use mathlib.Core.Option.{some-injective}
use ticketguy.Watches.{RepeatArgs, target_and_repeats}
use ticketguy.Watches.Alerts.{Improves, IsWorthAlerting, target_and_repeats_iff}

-- `lastAlertedTotalCents`, which `alertHistory` of src/lib/intake/pipeline.ts reads: the lowest total
-- of the generation's alerts that are not invalidated.
abbrev pub lower_of : ℕ → Option ℕ → ℕ
lower_of x none = x
lower_of x (some y) = min x y

abbrev pub lowest : List ℕ → Option ℕ
lowest [] = none
lowest (x ∷ xs) = some (lower_of x (lowest xs))

-- The totals of a generation's alerts that were not invalidated, the newest first. Each new alert
-- was let through by the rules against the lowest of those that stood then; any alert may be
-- invalidated later.
pub data Alerted (target : ℕ) : List ℕ → Type 0 where
  nothing : Alerted target []
  alerts :
      (a : RepeatArgs) (earlier : List ℕ)
      → Alerted target earlier
      → a.target_total_cents ≡ target
      → a.last_alerted_total_cents ≡ lowest earlier
      → (target_and_repeats a).alert ≡ true
      → Alerted target (a.candidate_total_cents ∷ earlier)
  invalidated :
      (newer : List ℕ) (x : ℕ) (older : List ℕ)
      → Alerted target (newer ++ x ∷ older)
      → Alerted target (newer ++ older)

-- Every total is within the target, and $10 below each that is older.
abbrev Falls : ℕ → List ℕ → Type 0
Falls target [] = Unit {0}
Falls target (x ∷ rest) = (x ≤ target) × All (λ y. x + 1000 ≤ y) rest × Falls target rest

All-drop :
    (P : ℕ → Type 0) (newer : List ℕ) (x : ℕ) (older : List ℕ)
    → All P (newer ++ x ∷ older)
    → All P (newer ++ older)
All-drop P [] x older h = h.1
All-drop P (y ∷ ys) x older h = (h.0, All-drop P ys x older h.1)

Falls-drop :
    (target : ℕ) (newer : List ℕ) (x : ℕ) (older : List ℕ)
    → Falls target (newer ++ x ∷ older)
    → Falls target (newer ++ older)
Falls-drop target [] x older h = h.2
Falls-drop target (y ∷ ys) x older h =
    (h.0, All-drop (λ z. y + 1000 ≤ z) ys x older h.1, Falls-drop target ys x older h.2)

-- A total that improves on the lowest improves on all.
below_lowest : (l : List ℕ) (x m : ℕ) → lowest l ≡ some m → x + 1000 ≤ m → All (λ y. x + 1000 ≤ y) l
below_lowest [] x m e h = tt
below_lowest (y ∷ ys) x m e h = elim (Option-cases (lowest ys)) [
  | inl none_older ↦ (ground (arith, rw none_older at e), no_others ys none_older)
  | inr (k, older) ↦
      let at_most : min y k ≡ m = some-injective _ _ (rw older at e) in
      (omega (arith, at_most), below_lowest ys x k older (omega (arith, at_most)))
]
  where
    no_others : (zs : List ℕ) → lowest zs ≡ none → All (λ z. x + 1000 ≤ z) zs
    no_others [] n = tt
    no_others (z ∷ zs) n = absurd (cc n)

Alerted-Falls : {target : ℕ} {totals : List ℕ} → Alerted target totals → Falls target totals
Alerted-Falls nothing = tt
Alerted-Falls {target} (invalidated newer x older before) =
    Falls-drop target newer x older (Alerted-Falls before)
Alerted-Falls {target} (alerts a earlier before at_target last passed) =
    (ground (arith, worth.within_target), lower (lowest earlier) refl, Alerted-Falls before)
  where
    worth : IsWorthAlerting a
    worth = (target_and_repeats_iff a).0 passed

    first : (l : List ℕ) → lowest l ≡ none → All (λ y. a.candidate_total_cents + 1000 ≤ y) l
    first [] n = tt
    first (z ∷ zs) n = absurd (cc n)

    lower :
        (found : Option ℕ)
        → lowest earlier ≡ found
        → All (λ y. a.candidate_total_cents + 1000 ≤ y) earlier
    lower none e = first earlier e
    lower (some m) e =
        let i : Improves (some m) a.candidate_total_cents =
          subst (λ o. Improves o a.candidate_total_cents) (last ∙ e) worth.improves in
        below_lowest earlier a.candidate_total_cents m e i.0

Falls-bound :
    (target : ℕ) (totals : List ℕ) → Falls target totals → 1000 * length totals ≤ target + 1000
Falls-bound target [] h = omega arith
Falls-bound target (x ∷ rest) h = omega (arith, room x rest h.0 h.1 h.2)
  where
    room :
        (x : ℕ) (rest : List ℕ)
        → x ≤ target
        → All (λ y. x + 1000 ≤ y) rest
        → Falls target rest
        → x + 1000 * length rest ≤ target
    room x [] t low f = omega (arith, t)
    room x (y ∷ ys) t low f = omega (arith, low.0, room y ys f.0 f.1 f.2)

-- Within one watch generation the alerts that are not invalidated are few, however alerts are raised
-- and invalidated: one for each $10 of the target, and one more.
pub Alerted-bound :
    {target : ℕ} {totals : List ℕ} → Alerted target totals → 1000 * length totals ≤ target + 1000
Alerted-bound {target} {totals} a = Falls-bound target totals (Alerted-Falls a)
