-- ===== src/Rollout/Eligible.antt =====
-- src/lib/intake/reconcile-service-depth.ts: what is left of the work when the actions are carried out.
use ticketguy.Prelude.{
  ◌+◌, String, Bool, true, false, ◌||◌, Option, none, some, List, [], ◌∷◌, ◌≡◌, inl, inr, refl,
  arith, str_eq, any, All, All-imp, Bool-cases, find,
}
use ticketguy.Prelude.Tables.{update_where}
use ticketguy.Tracker.Rows.{is_open, Tracked, pause}
use ticketguy.Rollout.{
  ActionKind, tracked_event, watch, watch_alert, recommendation, Action, Watch, is_watching,
  WatchAlert, Draft, is_pending, Work, Reads, plan,
}
use ticketguy.Rollout.Apply.{
  hold, pause_found, pause_watch, invalidate, drop_draft, change_work, is_keep, act, act_all,
  reconcile_service_depth,
}
use ticketguy.Rollout.Covers.{
  concerns, Untouched, HasReason, MayWatch, MayAlert, IsSupported, plan-tracked, plan-watches,
  plan-alerts, plan-drafts,
}

module _ {A : Type 0} (active : A → Bool) (later : A → Bool) (J : A → Type 0) where
  -- The rows that are still active and that no later action changes have what they need.
  abbrev Settled : List A → Type 0
  Settled = All (λ x. active x ≡ true → later x ≡ false → J x)

  -- An update that ends the rows it hits.
  update-Settled :
      (p : A → Bool) (f : A → A)
      → ((x : A) → active (f x) ≡ false)
      → (rows : List A) → All (λ x. active x ≡ true → p x || later x ≡ false → J x) rows
      → Settled (update_where p f rows)
  unfolding update_where
  update-Settled p f ends [] h = tt
  update-Settled p f ends (x ∷ xs) h = elim (Bool-cases (p x)) [
    | inl e ↦ rw e ((λ o u. absurd (cc (ends x, o))), update-Settled p f ends xs h.1)
    | inr e ↦ rw e ((λ o u. h.0 o (rw e u)), update-Settled p f ends xs h.1)
  ]

  missed-Settled :
      (p : A → Bool) (rows : List A)
      → find p rows ≡ none
      → All (λ x. active x ≡ true → p x || later x ≡ false → J x) rows
      → Settled rows
  missed-Settled p [] e h = tt
  missed-Settled p (x ∷ xs) e h = elim (Bool-cases (p x)) [
    | inl q ↦ absurd (cc (rw q at e))
    | inr q ↦ ((λ o u. h.0 o (rw q u)), missed-Settled p xs (rw q at e) h.1)
  ]

module _ {A : Type 0} (kind : ActionKind) (id_of : A → String) (active : A → Bool)
    (J : A → Type 0) where
  -- The rows that no action to come ends have what they need.
  abbrev AreFine : List Action → List A → Type 0
  AreFine actions = All (λ x. active x ≡ true → Untouched kind (id_of x) actions → J x)

  -- An action on other rows.
  other-AreFine :
      (a : Action) (more : List Action) (rows : List A)
      → ((id : String) → concerns kind id a ≡ false)
      → AreFine (a ∷ more) rows
      → AreFine more rows
  other-AreFine a more rows c = All-imp (λ x h p u. h p (rw (c (id_of x)) u)) rows

  -- An action on the rows of its id.
  own :
      (a : Action) (more : List Action) (rows : List A)
      → AreFine (a ∷ more) rows
      → All
          (λ x.
            active x ≡ true
            → str_eq (id_of x) a.id || any (concerns kind (id_of x)) more ≡ false
            → J x)
          rows
  own a more rows = All-imp (λ x h p u. h p (ground (arith, u))) rows

  ended-AreFine :
      (a : Action) (more : List Action) (rows : List A) (f : A → A)
      → ((x : A) → active (f x) ≡ false)
      → AreFine (a ∷ more) rows
      → AreFine more (update_where (λ x. str_eq (id_of x) a.id) f rows)
  ended-AreFine a more rows f ends s =
      update-Settled active (λ x. any (concerns kind (id_of x)) more) J (λ x. str_eq (id_of x) a.id)
        f ends rows (own a more rows s)

module _ (J : Watch → Type 0) (more : List Action) where
  abbrev later_watch : Watch → Bool
  later_watch x = any (concerns watch x.id) more

  pause_watch-Settled :
      (id reason : String) (rows : List Watch)
      → All
          (λ (x : Watch).
            is_watching x.state ≡ true → str_eq x.id id || later_watch x ≡ false → J x)
          rows
      → Settled (λ x. is_watching x.state) later_watch J (pause_watch id reason rows)
  unfolding pause_watch
  pause_watch-Settled id reason rows h = go (find (λ x. str_eq x.id id) rows) refl
    where
      go :
          (found : Option Watch)
          → find (λ x. str_eq x.id id) rows ≡ found
          → Settled (λ x. is_watching x.state) later_watch J (pause_found id reason rows found)
      go none e = missed-Settled _ later_watch J (λ x. str_eq x.id id) rows e h
      go (some x) e =
          update-Settled _ later_watch J (λ y. str_eq y.id id) (hold reason (x.generation + 1))
            (λ y. refl) rows h

module _ (HasR : Tracked → Type 0) (MayW : Watch → Type 0) (MayA : WatchAlert → Type 0)
    (IsS : Draft → Type 0) where
  -- The four tables.
  abbrev Tracks : List Action → List Tracked → Type 0
  Tracks = AreFine tracked_event (λ r. r.id) (λ r. is_open r.state) HasR

  abbrev Watchings : List Action → List Watch → Type 0
  Watchings = AreFine watch (λ x. x.id) (λ x. is_watching x.state) MayW

  abbrev Alerts : List Action → List WatchAlert → Type 0
  Alerts = AreFine watch_alert (λ a. a.id) (λ a. is_pending a.approval_state) MayA

  abbrev Drafts : List Action → List Draft → Type 0
  Drafts = AreFine recommendation (λ d. d.id) (λ d. is_pending d.review_status) IsS

  -- The work, when these actions are still to be carried out.
  record IsSettled (actions : List Action) (w : Work) : Type 0 where
    tracked : Tracks actions w.tracked
    watches : Watchings actions w.watches
    alerts : Alerts actions w.alerts
    drafts : Drafts actions w.drafts

  change_work-IsSettled :
      (reason : String) (a : Action) (more : List Action) (w : Work)
      → IsSettled (a ∷ more) w
      → (kind : ActionKind) → a.kind ≡ kind
      → IsSettled more (change_work reason kind a.id w)
  change_work-IsSettled reason a more w s tracked_event e = record {
    tracked =
        ended-AreFine tracked_event (λ (x : Tracked). x.id) (λ x. is_open x.state) HasR a more
          w.tracked (pause reason) (λ x. refl) s.tracked;
    watches =
        other-AreFine watch (λ (x : Watch). x.id) (λ x. is_watching x.state) MayW a more w.watches
          (λ id. rw e refl) s.watches;
    alerts =
        other-AreFine watch_alert (λ (x : WatchAlert). x.id) (λ x. is_pending x.approval_state) MayA
          a more w.alerts (λ id. rw e refl) s.alerts;
    drafts =
        other-AreFine recommendation (λ (x : Draft). x.id) (λ x. is_pending x.review_status) IsS a
          more w.drafts (λ id. rw e refl) s.drafts;
  }
  change_work-IsSettled reason a more w s watch e = record {
    tracked =
        other-AreFine tracked_event (λ (x : Tracked). x.id) (λ x. is_open x.state) HasR a more
          w.tracked (λ id. rw e refl) s.tracked;
    watches = pause_watch-Settled MayW more a.id reason w.watches (
        own watch (λ (x : Watch). x.id) (λ x. is_watching x.state) MayW a more w.watches s.watches);
    alerts =
        other-AreFine watch_alert (λ (x : WatchAlert). x.id) (λ x. is_pending x.approval_state) MayA
          a more w.alerts (λ id. rw e refl) s.alerts;
    drafts =
        other-AreFine recommendation (λ (x : Draft). x.id) (λ x. is_pending x.review_status) IsS a
          more w.drafts (λ id. rw e refl) s.drafts;
  }
  change_work-IsSettled reason a more w s watch_alert e = record {
    tracked =
        other-AreFine tracked_event (λ (x : Tracked). x.id) (λ x. is_open x.state) HasR a more
          w.tracked (λ id. rw e refl) s.tracked;
    watches =
        other-AreFine watch (λ (x : Watch). x.id) (λ x. is_watching x.state) MayW a more w.watches
          (λ id. rw e refl) s.watches;
    alerts =
        ended-AreFine watch_alert (λ (x : WatchAlert). x.id) (λ x. is_pending x.approval_state) MayA
          a more w.alerts invalidate (λ x. refl) s.alerts;
    drafts =
        other-AreFine recommendation (λ (x : Draft). x.id) (λ x. is_pending x.review_status) IsS a
          more w.drafts (λ id. rw e refl) s.drafts;
  }
  change_work-IsSettled reason a more w s recommendation e = record {
    tracked =
        other-AreFine tracked_event (λ (x : Tracked). x.id) (λ x. is_open x.state) HasR a more
          w.tracked (λ id. rw e refl) s.tracked;
    watches =
        other-AreFine watch (λ (x : Watch). x.id) (λ x. is_watching x.state) MayW a more w.watches
          (λ id. rw e refl) s.watches;
    alerts =
        other-AreFine watch_alert (λ (x : WatchAlert). x.id) (λ x. is_pending x.approval_state) MayA
          a more w.alerts (λ id. rw e refl) s.alerts;
    drafts =
        ended-AreFine recommendation (λ (x : Draft). x.id) (λ x. is_pending x.review_status) IsS a
          more w.drafts (drop_draft reason) (λ x. refl) s.drafts;
  }

  act-IsSettled :
      (r : Reads) (a : Action) (more : List Action) (w : Work)
      → IsSettled (a ∷ more) w
      → IsSettled more (act r a w)
  unfolding act
  act-IsSettled r a more w s = elim (Bool-cases (is_keep a.verdict)) [
    | inl k ↦ rw k (record {
      tracked =
          other-AreFine tracked_event (λ (x : Tracked). x.id) (λ x. is_open x.state) HasR a more
            w.tracked (λ id. ground (arith, k)) s.tracked;
      watches =
          other-AreFine watch (λ (x : Watch). x.id) (λ x. is_watching x.state) MayW a more w.watches
            (λ id. ground (arith, k)) s.watches;
      alerts =
          other-AreFine watch_alert (λ (x : WatchAlert). x.id) (λ x. is_pending x.approval_state)
            MayA a more w.alerts (λ id. ground (arith, k)) s.alerts;
      drafts =
          other-AreFine recommendation (λ (x : Draft). x.id) (λ x. is_pending x.review_status) IsS a
            more w.drafts (λ id. ground (arith, k)) s.drafts;
    })
    | inr k ↦
        let t = change_work-IsSettled (r.text_of a.reason) a more w s a.kind refl in
        rw k (record {
          tracked = t.tracked;
          watches = t.watches;
          alerts = t.alerts;
          drafts = t.drafts;
        })
  ]

  act_all-IsSettled :
      (r : Reads) (actions : List Action) (w : Work)
      → IsSettled actions w
      → IsSettled [] (act_all r actions w)
  unfolding act_all
  act_all-IsSettled r [] w s = s
  act_all-IsSettled r (a ∷ more) w s =
      act_all-IsSettled r more (act r a w) (act-IsSettled r a more w s)

-- What the sweep leaves of the work.
pub record IsEligible (r : Reads) (before after : Work) : Type 0 where
  pub tracked :
      All (λ (row : Tracked). is_open row.state ≡ true → HasReason r before row) after.tracked
  pub watches : All (λ (x : Watch). is_watching x.state ≡ true → MayWatch r before x) after.watches
  pub alerts :
      All
        (λ (a : WatchAlert). is_pending a.approval_state ≡ true → MayAlert r before a)
        after.alerts
  pub drafts :
      All (λ (d : Draft). is_pending d.review_status ≡ true → IsSupported r before d) after.drafts

-- When the sweep has been applied, judged as the policy stood before it: every tracked event that is
-- still polled has a reason that holds; every watch that is still active is on an event that is
-- there and whose depth and monitoring sources allow a watch; every alert that still waits for
-- approval is of no watch that was active and may not go on; and every draft that still waits for
-- review, when its request has an event and the event is there, makes no claim whose operation the
-- event's depth does not allow.
pub reconcile_service_depth-IsEligible :
    (r : Reads) (w : Work) → IsEligible r w (reconcile_service_depth r true w).0
unfolding reconcile_service_depth
reconcile_service_depth-IsEligible r w =
    let s =
      act_all-IsSettled (HasReason r w) (MayWatch r w) (MayAlert r w) (IsSupported r w) r (plan r w)
        w
        (record {
          tracked = plan-tracked r w;
          watches = plan-watches r w;
          alerts = plan-alerts r w w.alerts (λ a m. m);
          drafts = plan-drafts r w;
        }) in
    record {
      tracked = All-imp (λ x h o. h o refl) _ s.tracked;
      watches = All-imp (λ x h o. h o refl) _ s.watches;
      alerts = All-imp (λ x h o. h o refl) _ s.alerts;
      drafts = All-imp (λ x h o. h o refl) _ s.drafts;
    }
