-- ===== src/Sourcing/Budget.antt =====
-- src/lib/sources/routing.ts: what the plan of one request promises.
use mathlib.Core.List.{perm_middle}
use mathlib.Core.List.Perm
use ticketguy.Prelude.{
  ℕ, suc, ◌+◌, ◌<◌, ◌≤◌, ◌≡◌, ◌⊎◌, inl, inr, refl, subst, String, true, false, Option, none, some,
  List, [], ◌∷◌, ◌++◌, map, Perm, arith, length, All, Option-cases,
}
use ticketguy.Sourcing.Plan.{
  Adapter, PlanArgs, Unavailable, source_not_integrated, source_access_unapproved,
  event_not_covered, budget_exhausted, depth_no_automated_sources, Missed, by_source, candidates_of,
  is_integrated, covers, refusal_of, Sorted, place, sort_from, plan_sources,
}

abbrev pub missed_ids : List Missed → List String
missed_ids = map (λ (m : Missed). m.source_id)

module _ (a : PlanArgs) where
  -- A source that the research may call.
  abbrev pub IsReady : String → Type 0
  IsReady id =
      (c : Adapter) × (by_source id a.adapters ≡ some c)
      × (is_integrated c ≡ true)
      × (c.access_approved ≡ true)
      × (covers a id c ≡ true)

  -- What each reason says of a source that is not called, when `taken` are called.
  abbrev pub Explains : ℕ → String → Unavailable → Type 0
  Explains taken id source_not_integrated =
      (by_source id a.adapters ≡ none)
      ⊎ ((c : Adapter) × (by_source id a.adapters ≡ some c) × (is_integrated c ≡ false))
  Explains taken id source_access_unapproved =
      (c : Adapter) × (by_source id a.adapters ≡ some c) × (c.access_approved ≡ false)
  Explains taken id event_not_covered =
      (c : Adapter) × (by_source id a.adapters ≡ some c) × (covers a id c ≡ false)
  Explains taken id budget_exhausted = a.max_automated_sources ≤ taken
  Explains taken id depth_no_automated_sources = a.max_automated_sources ≡ 0

  -- What the loop keeps to when `taken` sources are called before it.
  record IsSorting (taken : ℕ) (ids : List String) (r : Sorted) : Type 0 where
    few : taken + length r.called ≤ a.max_automated_sources
    ready : All IsReady r.called
    kept : Perm (r.called ++ missed_ids r.missed) ids
    explained :
        All (λ (m : Missed). Explains (taken + length r.called) m.source_id m.reason) r.missed

  -- The verdict on one candidate.
  refused :
      (taken more : ℕ) (id : String) (found : Option Adapter) (reason : Unavailable)
      → by_source id a.adapters ≡ found
      → refusal_of a taken id found ≡ some reason
      → Explains (taken + more) id reason
  refused taken more id none source_not_integrated same h = inl same
  refused taken more id (some c) source_not_integrated same h = inr (c, same, ground arith)
  refused taken more id none source_access_unapproved same h = absurd (ground arith)
  refused taken more id (some c) source_access_unapproved same h = (c, same, ground arith)
  refused taken more id none event_not_covered same h = absurd (ground arith)
  refused taken more id (some c) event_not_covered same h = (c, same, ground arith)
  refused taken more id none budget_exhausted same h = absurd (ground arith)
  refused taken more id (some c) budget_exhausted same h = ground arith
  refused taken more id none depth_no_automated_sources same h = ground arith
  refused taken more id (some c) depth_no_automated_sources same h = ground arith

  called :
      (taken : ℕ) (id : String) (found : Option Adapter)
      → by_source id a.adapters ≡ found
      → refusal_of a taken id found ≡ none
      → IsReady id × (taken < a.max_automated_sources)
  called taken id none same h = absurd (cc h)
  called taken id (some c) same h =
      ((c, same, ground arith, ground arith, ground arith), ground arith)

  sort_from-IsSorting :
      (taken : ℕ) (ids : List String)
      → taken ≤ a.max_automated_sources
      → IsSorting taken ids (sort_from a taken ids)
  unfolding sort_from
  sort_from-IsSorting taken [] h = record {
    few = omega arith;
    ready = tt;
    kept = Perm.refl _;
    explained = tt;
  }
  sort_from-IsSorting taken (id ∷ ids) h =
      elim (Option-cases (refusal_of a taken id (by_source id a.adapters))) [
        | inr (reason, e) ↦ rw e (passed reason e (sort_from-IsSorting taken ids h))
        | inl e ↦
            let (ready, room) = called taken id _ refl e in
            rw e (took ready (sort_from-IsSorting (taken + 1) ids (omega arith)))
      ]
    where
      passed :
          (reason : Unavailable)
          → refusal_of a taken id (by_source id a.adapters) ≡ some reason
          → IsSorting taken ids (sort_from a taken ids)
          → IsSorting taken (id ∷ ids) (place id (some reason) (sort_from a taken ids))
      passed reason e r = record {
        few = r.few;
        ready = r.ready;
        kept = Perm.trans (perm_middle _ _) (Perm.cons id r.kept);
        explained = (refused taken _ id _ reason refl e, r.explained);
      }

      took :
          IsReady id
          → IsSorting (taken + 1) ids (sort_from a (taken + 1) ids)
          → IsSorting taken (id ∷ ids) (place id none (sort_from a (taken + 1) ids))
      took ready r =
          let more : taken + suc (length (sort_from a (taken + 1) ids).called)
              ≡ taken + 1 + length (sort_from a (taken + 1) ids).called =
            omega arith in
          record {
            few = omega (arith, r.few);
            ready = (ready, r.ready);
            kept = Perm.cons id r.kept;
            explained = rw more r.explained;
          }

-- The plan calls no more sources than the depth's budget, each of them with an adapter that is
-- enabled, approved and able to quote and that covers the event or needs no mapping; called and
-- missed sources together are the candidates; and each missed source has a reason that holds: it
-- is not integrated, not approved or not covering, or as many sources are called as the budget
-- has, or the budget is zero.
pub plan_sources_lem :
    (a : PlanArgs)
    → let p = plan_sources a in
      (length p.executable ≤ a.max_automated_sources)
      × All (IsReady a) p.executable
      × Perm (p.executable ++ missed_ids p.unavailable) (candidates_of a)
      × All (λ (m : Missed). Explains a (length p.executable) m.source_id m.reason) p.unavailable
unfolding plan_sources
plan_sources_lem a =
    let r = sort_from-IsSorting a 0 (candidates_of a) (omega arith) in
    let called = (sort_from a 0 (candidates_of a)).called in
    let missed = (sort_from a 0 (candidates_of a)).missed in
    let same : 0 + length called ≡ length called = omega arith in
    (
      omega (arith, r.few),
      r.ready,
      r.kept,
      subst (λ n. All (λ (m : Missed). Explains a n m.source_id m.reason) missed) same r.explained,
    )
