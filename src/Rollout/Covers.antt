-- ===== src/Rollout/Covers.antt =====
-- src/lib/intake/reconcile-service-depth.ts: the plan has an action for every piece of work that may
-- not go on.
use mathlib.Core.List.{Memᴰ}
use ticketguy.Prelude.{
  ℕ, String, Bool, true, false, not, ◌&&◌, Option, none, some, List, [], ◌∷◌, ◌++◌, ◌≡◌, ◌≢◌, inl,
  inr, refl, sym, ◌∙◌, ap, subst, arith, map, str_eq, ◌==◌, any, All, All-imp, Bool-cases,
}
use ticketguy.Prelude.Tables.{keep-mem}
use text.Mathlib.TextPositions.{eq_refl}
use ticketguy.ServiceDepth.{Operation, price_watch}
use ticketguy.ServiceDepth.Policy.{allows}
use ticketguy.ServiceDepth.Capability.{CapabilityState, available, unavailable, not_known}
use ticketguy.ServiceDepth.Snapshot.{PolicySnapshot}
use ticketguy.Tracker.Rows.{is_open, Tracked}
use ticketguy.Rollout.{
  ActionKind, tracked_event, watch, watch_alert, recommendation, Reason, Action, Watch, WatchAlert,
  Draft, Work, Reads, snapshot_for, valid_reasons, tracked_action, plan_tracked, watch_refusal,
  is_watching, is_pending, is_pending_of, watch_actions, invalidate_alert, plan_watches,
  is_available, lost_operations, draft_action, draft_actions, plan_drafts, plan,
}
use ticketguy.Rollout.Apply.{is_keep}

abbrev kind_number : ActionKind → ℕ
kind_number tracked_event = 0
kind_number watch = 1
kind_number watch_alert = 2
kind_number recommendation = 3

abbrev pub same_kind : ActionKind → ActionKind → Bool
same_kind k j = kind_number k == kind_number j

-- An action that changes the row of this id.
abbrev pub concerns : ActionKind → String → Action → Bool
concerns kind id a = same_kind a.kind kind && (not (is_keep a.verdict) && str_eq id a.id)

abbrev pub Untouched : ActionKind → String → List Action → Type 0
Untouched kind id actions = any (concerns kind id) actions ≡ false

Untouched-parts :
    (kind : ActionKind) (id : String) (xs ys : List Action)
    → Untouched kind id (xs ++ ys)
    → Untouched kind id xs × Untouched kind id ys
Untouched-parts kind id [] ys h = (refl, h)
Untouched-parts kind id (x ∷ xs) ys h = elim (Bool-cases (concerns kind id x)) [
  | inl e ↦ absurd (cc (rw e at h))
  | inr e ↦ let (first, rest) = Untouched-parts kind id xs ys (rw e at h) in (rw e first, rest)
]

-- Single actions.
watch_actions-covers :
    (alerts : List WatchAlert) (id : String) (found : Option Reason)
    → Untouched watch id (watch_actions alerts id found)
    → found ≡ none
watch_actions-covers alerts id none u = refl
watch_actions-covers alerts id (some reason) u = absurd (ground (arith, u, eq_refl id))

tracked_action-covers :
    (id : String) (reasons : List String)
    → Untouched tracked_event id (tracked_action id reasons ∷ [])
    → reasons ≢ []
tracked_action-covers id [] u e = ground (arith, u, eq_refl id)
tracked_action-covers id (x ∷ xs) u e = absurd (cc e)

draft_action-covers :
    (id : String) (ops : List Operation)
    → Untouched recommendation id (draft_action id ops ∷ [])
    → ops ≡ []
draft_action-covers id [] u = refl
draft_action-covers id (op ∷ ops) u = absurd (ground (arith, u, eq_refl id))

invalidates_member :
    (reason : Reason) (a : WatchAlert) (alerts : List WatchAlert)
    → Memᴰ a alerts
    → any (concerns watch_alert a.id) (map (invalidate_alert reason) alerts) ≡ true
invalidates_member reason a [] m = elim m [ ]
invalidates_member reason a (x ∷ xs) (Memᴰ.head e) =
    let same : str_eq a.id x.id ≡ true =
      ap (λ (y : WatchAlert). str_eq a.id y.id) (sym e) ∙ eq_refl a.id in
    ground (arith, same)
invalidates_member reason a (x ∷ xs) (Memᴰ.tail m) =
    ground (arith, invalidates_member reason a xs m)

watch_actions-alert :
    (alerts : List WatchAlert) (id : String) (found : Option Reason) (a : WatchAlert)
    → Memᴰ a alerts
    → is_pending_of id a ≡ true
    → Untouched watch_alert a.id (watch_actions alerts id found)
    → found ≡ none
watch_actions-alert alerts id none a m p u = refl
watch_actions-alert alerts id (some reason) a m p u =
    let listed = invalidates_member reason a _ (keep-mem (is_pending_of id) alerts m p) in
    absurd (ground (arith, u, listed))

-- An event that may be watched: there is one, its depth allows a watch, and a source watches it.
abbrev pub IsWatchable : Option PolicySnapshot → Type 0
IsWatchable found =
    (s : PolicySnapshot) × (found ≡ some s)
    × (allows s.decision price_watch ≡ true)
    × ((s.capabilities price_watch).state ≡ available)

is_available-available : (state : CapabilityState) → is_available state ≡ true → state ≡ available
is_available-available available h = refl
is_available-available unavailable h = absurd (cc h)
is_available-available not_known h = absurd (cc h)

watch_refusal-none :
    (found : Option PolicySnapshot) → watch_refusal found ≡ none → IsWatchable found
watch_refusal-none none h = absurd (cc h)
watch_refusal-none (some s) h =
    let (permitted, state) : (allows s.decision price_watch ≡ true)
        × (is_available (s.capabilities price_watch).state ≡ true) =
      ground (arith, h) in
    (s, refl, permitted, is_available-available (s.capabilities price_watch).state state)

module _ (r : Reads) (w : Work) where
  -- What each piece of work needs to go on, judged before the sweep.
  abbrev pub HasReason : Tracked → Type 0
  HasReason row = valid_reasons r w row ≢ []

  abbrev pub MayWatch : Watch → Type 0
  MayWatch x = IsWatchable (snapshot_for r w x.event_id)

  abbrev pub MayAlert : WatchAlert → Type 0
  MayAlert a =
      All (λ (x : Watch). is_watching x.state ≡ true → str_eq a.watch_id x.id ≡ true → MayWatch x)
        w.watches

  abbrev pub IsSupported : Draft → Type 0
  IsSupported d =
      (event : String)
      → d.event_id ≡ some event
      → lost_operations (snapshot_for r w event) d.claim_kinds ≡ []

  tracked_step :
      (row : Tracked) (rows : List Tracked) (kind : ActionKind) (id : String)
      → Untouched kind id (plan_tracked r w (row ∷ rows))
      → Untouched kind id (plan_tracked r w rows)
  unfolding plan_tracked
  tracked_step row rows kind id u = elim (Bool-cases (is_open row.state)) [
    | inr shut ↦ rw shut at u
    | inl o ↦
        (Untouched-parts kind id (tracked_action row.id (valid_reasons r w row) ∷ [])
          (plan_tracked r w rows) (rw o at u)).1
  ]

  tracked_first :
      (row : Tracked) (rows : List Tracked)
      → is_open row.state ≡ true
      → Untouched tracked_event row.id (plan_tracked r w (row ∷ rows))
      → HasReason row
  unfolding plan_tracked
  tracked_first row rows o u none_valid =
      tracked_action-covers row.id (valid_reasons r w row)
        (Untouched-parts tracked_event row.id (tracked_action row.id (valid_reasons r w row) ∷ [])
          (plan_tracked r w rows) (rw o at u)).0
        none_valid

  plan_tracked-covers :
      (rows : List Tracked)
      → All
          (λ (row : Tracked).
            is_open row.state ≡ true
            → Untouched tracked_event row.id (plan_tracked r w rows)
            → HasReason row)
          rows
  plan_tracked-covers [] = tt
  plan_tracked-covers (row ∷ rows) = (
    tracked_first row rows,
    All-imp (λ x h p u. h p (tracked_step row rows tracked_event x.id u)) rows
        (plan_tracked-covers rows),
  )

  abbrev actions_for : Watch → List Action
  actions_for x = watch_actions w.alerts x.id (watch_refusal (snapshot_for r w x.event_id))

  watches_parts :
      (x : Watch) (xs : List Watch) (kind : ActionKind) (id : String)
      → Untouched kind id (plan_watches r w (x ∷ xs))
      → (is_watching x.state ≡ true → Untouched kind id (actions_for x))
        × Untouched kind id (plan_watches r w xs)
  unfolding plan_watches
  watches_parts x xs kind id u = elim (Bool-cases (is_watching x.state)) [
    | inr shut ↦ ((λ o. absurd (cc (o, shut))), rw shut at u)
    | inl o ↦
        let (first, rest) =
          Untouched-parts kind id (actions_for x) (plan_watches r w xs) (rw o at u) in
        ((λ p. first), rest)
  ]

  plan_watches-covers :
      (xs : List Watch)
      → All
          (λ (x : Watch).
            is_watching x.state ≡ true → Untouched watch x.id (plan_watches r w xs) → MayWatch x)
          xs
  plan_watches-covers [] = tt
  plan_watches-covers (x ∷ xs) = (
    (λ o u.
        watch_refusal-none (snapshot_for r w x.event_id)
          (watch_actions-covers w.alerts x.id _ ((watches_parts x xs watch x.id u).0 o))),
    All-imp (λ y h p u. h p (watches_parts x xs watch y.id u).1) xs (plan_watches-covers xs),
  )

  drafts_parts :
      (d : Draft) (ds : List Draft) (kind : ActionKind) (id : String)
      → Untouched kind id (plan_drafts r w (d ∷ ds))
      → (is_pending d.review_status ≡ true → Untouched kind id (draft_actions r w d d.event_id))
        × Untouched kind id (plan_drafts r w ds)
  unfolding plan_drafts
  drafts_parts d ds kind id u = elim (Bool-cases (is_pending d.review_status)) [
    | inr shut ↦ ((λ o. absurd (cc (o, shut))), rw shut at u)
    | inl o ↦
        let (first, rest) =
          Untouched-parts kind id (draft_actions r w d d.event_id) (plan_drafts r w ds)
            (rw o at u) in
        ((λ p. first), rest)
  ]

  plan_drafts-covers :
      (ds : List Draft)
      → All
          (λ (d : Draft).
            is_pending d.review_status ≡ true
            → Untouched recommendation d.id (plan_drafts r w ds)
            → IsSupported d)
          ds
  plan_drafts-covers [] = tt
  plan_drafts-covers (d ∷ ds) = (
    (λ o u event e.
        let first = (drafts_parts d ds recommendation d.id u).0 o in
        draft_action-covers d.id _
          (subst (λ v. Untouched recommendation d.id (draft_actions r w d v)) e first)),
    All-imp (λ y h p u. h p (drafts_parts d ds recommendation y.id u).1) ds (plan_drafts-covers ds),
  )

  plan_alerts-covers :
      (a : WatchAlert)
      → Memᴰ a w.alerts
      → is_pending a.approval_state ≡ true
      → (xs : List Watch) → Untouched watch_alert a.id (plan_watches r w xs)
      → All
          (λ (x : Watch). is_watching x.state ≡ true → str_eq a.watch_id x.id ≡ true → MayWatch x)
          xs
  plan_alerts-covers a m p [] u = tt
  plan_alerts-covers a m p (x ∷ xs) u =
      let (first, rest) = watches_parts x xs watch_alert a.id u in
      (
        (λ o same.
            watch_refusal-none (snapshot_for r w x.event_id)
              (watch_actions-alert w.alerts x.id _ a m (ground (arith, same, p)) (first o))),
        plan_alerts-covers a m p xs rest,
      )

  -- The whole plan.
  plan_parts :
      (kind : ActionKind) (id : String)
      → Untouched kind id (plan r w)
      → Untouched kind id (plan_tracked r w w.tracked)
        × Untouched kind id (plan_watches r w w.watches)
        × Untouched kind id (plan_drafts r w w.drafts)
  unfolding plan
  plan_parts kind id u =
      let (first, rest) = Untouched-parts kind id (plan_tracked r w w.tracked) _ u in
      let (second, third) =
        Untouched-parts kind id (plan_watches r w w.watches) (plan_drafts r w w.drafts) rest in
      (first, second, third)

  pub plan-tracked :
      All
        (λ (row : Tracked).
          is_open row.state ≡ true → Untouched tracked_event row.id (plan r w) → HasReason row)
        w.tracked
  plan-tracked =
      All-imp (λ x h p u. h p (plan_parts tracked_event x.id u).0) w.tracked
        (plan_tracked-covers w.tracked)

  pub plan-watches :
      All
        (λ (x : Watch). is_watching x.state ≡ true → Untouched watch x.id (plan r w) → MayWatch x)
        w.watches
  plan-watches =
      All-imp (λ x h p u. h p (plan_parts watch x.id u).1) w.watches (plan_watches-covers w.watches)

  pub plan-drafts :
      All
        (λ (d : Draft).
          is_pending d.review_status ≡ true
          → Untouched recommendation d.id (plan r w)
          → IsSupported d)
        w.drafts
  plan-drafts =
      All-imp (λ x h p u. h p (plan_parts recommendation x.id u).2) w.drafts
        (plan_drafts-covers w.drafts)

  pub plan-alerts :
      (alerts : List WatchAlert)
      → ((a : WatchAlert) → Memᴰ a alerts → Memᴰ a w.alerts)
      → All
          (λ (a : WatchAlert).
            is_pending a.approval_state ≡ true → Untouched watch_alert a.id (plan r w) → MayAlert a)
          alerts
  plan-alerts [] inside = tt
  plan-alerts (a ∷ more) inside = (
    (λ p u.
        plan_alerts-covers a (inside a (Memᴰ.head refl)) p w.watches
          (plan_parts watch_alert a.id u).1),
    plan-alerts more (λ b m. inside b (Memᴰ.tail m)),
  )
