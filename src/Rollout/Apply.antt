-- ===== src/Rollout/Apply.antt =====
-- src/lib/intake/reconcile-service-depth.ts: carrying the actions out.
use ticketguy.Prelude.{
  ℕ, ◌+◌, String, Bool, true, false, ◌&&◌, Option, none, some, List, [], ◌∷◌, ◌++◌, str_eq,
  if◌then◌else◌, find,
}
use ticketguy.Prelude.Tables.{update_where}
use ticketguy.SendIntents.{SendIntent, IntentState, queued, blocked}
use ticketguy.Tracker.Rows.{pause}
use ticketguy.Rollout.{
  ActionKind, tracked_event, watch, watch_alert, recommendation, Verdict, keeps, Action, WatchState,
  Watch, invalidated, WatchAlert, Draft, Work, Reads, plan,
}

abbrev pub hold : String → ℕ → Watch → Watch
hold reason generation x = record x {
  state = WatchState.paused;
  pause_reason = some reason;
  generation = generation;
}

abbrev pub pause_found : String → String → List Watch → Option Watch → List Watch
pause_found id reason rows none = rows
pause_found id reason rows (some x) =
    update_where (λ y. str_eq y.id id) (hold reason (x.generation + 1)) rows

-- the watch is read and updated with its next generation
unfoldable pub pause_watch : String → String → List Watch → List Watch
unfolding update_where
pause_watch id reason rows = pause_found id reason rows (find (λ x. str_eq x.id id) rows)

abbrev pub invalidate : WatchAlert → WatchAlert
invalidate a = record a { approval_state = invalidated }

abbrev is_queued : IntentState → Bool
is_queued queued = true
is_queued _ = false

abbrev block : SendIntent → SendIntent
block i = record i { state = blocked; last_error = some "policy_changed" }

abbrev block_intent : Option String → List SendIntent → List SendIntent
block_intent none intents = intents
block_intent (some id) intents =
    update_where (λ i. str_eq i.id id && is_queued i.state) block intents

-- the intent of the alert that is found, when it has one
abbrev block_of : Option WatchAlert → List SendIntent → List SendIntent
block_of none intents = intents
block_of (some a) intents = block_intent a.send_intent_id intents

abbrev pub drop_draft : String → Draft → Draft
drop_draft note d = record d { review_status = invalidated; review_note = some note }

abbrev audited : Action → Work → Work
audited a w = record w {
  audit_log =
      w.audit_log
      ++ (record {
        actor = "system";
        verdict = a.verdict;
        kind = a.kind;
        entity_id = a.id;
        reason = a.reason;
      })
        ∷ [];
}

abbrev pub change_work : String → ActionKind → String → Work → Work
change_work reason tracked_event id w = record w {
  tracked = update_where (λ r. str_eq r.id id) (pause reason) w.tracked;
}
change_work reason watch id w = record w { watches = pause_watch id reason w.watches }
change_work reason watch_alert id w =
    let alerts = update_where (λ (a : WatchAlert). str_eq a.id id) invalidate w.alerts in
    record w {
      alerts = alerts;
      intents = block_of (find (λ (a : WatchAlert). str_eq a.id id) alerts) w.intents;
    }
change_work reason recommendation id w = record w {
  drafts = update_where (λ d. str_eq d.id id) (drop_draft reason) w.drafts;
}

abbrev pub is_keep : Verdict → Bool
is_keep keeps = true
is_keep _ = false

unfoldable pub act : Reads → Action → Work → Work
unfolding update_where pause_watch
act r a w =
    if is_keep a.verdict then w else audited a (change_work (r.text_of a.reason) a.kind a.id w)

unfoldable pub act_all : Reads → List Action → Work → Work
unfolding act
act_all r [] w = w
act_all r (a ∷ more) w = act_all r more (act r a w)

-- `reconcileServiceDepth`
unfoldable pub reconcile_service_depth : Reads → Bool → Work → Work × List Action
unfolding act_all plan
reconcile_service_depth r apply w =
    let actions = plan r w in (if apply then act_all r actions w else w, actions)
