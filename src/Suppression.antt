-- ===== src/Suppression.antt =====
-- src/lib/domain/suppression.ts: the table of suppressions (unique on recipient and scope) and what
-- the opt-outs, bounces and complaints write to it, to marketing permissions, watches and alerts.
pub mod Effects
mod Tests
use ticketguy.Prelude.{
  Bool, true, false, ◌&&◌, String, Option, none, some, List, [], ◌∷◌, ◌++◌, map, keep, any, str_eq,
  if◌then◌else◌,
}
use ticketguy.Prelude.Tables.{update_where}
use ticketguy.SendGate.{SuppressionScope, global_scope, marketing_scope, watch_scope, same_scope}

pub record SuppressionRow : Type 0 where
  pub email_lookup : String
  pub scope : SuppressionScope
  pub reason : String
  pub provider : Option String

pub data WatchState : Type 0 where
  active cancelled other_state : WatchState

-- a row of watches or of event_alerts, as far as `stopAll` concerns it
pub record Monitor : Type 0 where
  pub contact_id : String
  pub state : WatchState

pub record PermissionRow : Type 0 where
  pub contact_id : String
  pub granted : Bool
  pub notice_version : String

pub record OptOutTables : Type 0 where
  pub suppressions : List SuppressionRow
  pub permissions : List PermissionRow
  pub watches : List Monitor
  pub event_alerts : List Monitor

abbrev pub is_for : String → SuppressionScope → SuppressionRow → Bool
is_for lookup scope r = str_eq r.email_lookup lookup && same_scope r.scope scope

-- `on conflict do nothing`
unfoldable pub add_suppression :
    String → SuppressionScope → String → Option String → OptOutTables → OptOutTables
add_suppression lookup scope reason provider t =
    if any (is_for lookup scope) t.suppressions then t else record t {
      suppressions =
          t.suppressions
          ++ (record { email_lookup = lookup; scope = scope; reason = reason; provider = provider })
            ∷ [];
    }

abbrev pub revoke_permission : Option String → String → OptOutTables → OptOutTables
revoke_permission none notice t = t
revoke_permission (some contact) notice t = record t {
  permissions =
      t.permissions
      ++ (record { contact_id = contact; granted = false; notice_version = notice }) ∷ [];
}

unfoldable pub revoke_marketing : Option String → String → String → OptOutTables → OptOutTables
revoke_marketing contact lookup notice t =
    revoke_permission contact notice (add_suppression lookup marketing_scope "unsubscribe" none t)

abbrev pub is_active : WatchState → Bool
is_active active = true
is_active _ = false

abbrev pub runs_for : String → Monitor → Bool
runs_for contact w = str_eq w.contact_id contact && is_active w.state

abbrev pub cancel : Monitor → Monitor
cancel w = record w { state = cancelled }

abbrev pub cancel_monitors : Option String → OptOutTables → OptOutTables
cancel_monitors none t = t
cancel_monitors (some contact) t = record t {
  watches = update_where (runs_for contact) cancel t.watches;
  event_alerts = update_where (runs_for contact) cancel t.event_alerts;
}

unfoldable pub stop_all : Option String → String → OptOutTables → OptOutTables
stop_all contact lookup t =
    cancel_monitors contact
      (add_suppression lookup watch_scope "stop_all" none (revoke_marketing contact lookup "n/a" t))

pub data ProviderVerdict : Type 0 where
  hard_bounce complaint : ProviderVerdict

abbrev pub verdict_text : ProviderVerdict → String
verdict_text hard_bounce = "hard_bounce"
verdict_text complaint = "complaint"

unfoldable pub apply_provider_complaint_or_bounce :
    String → ProviderVerdict → String → OptOutTables → OptOutTables
apply_provider_complaint_or_bounce lookup kind provider t =
    add_suppression lookup global_scope (verdict_text kind) (some provider) t

-- `loadSuppressionScopes` of src/lib/email/send-gate.ts
unfoldable pub load_suppression_scopes : String → List SuppressionRow → List SuppressionScope
load_suppression_scopes lookup rows =
    map (λ (r : SuppressionRow). r.scope) (keep (λ r. str_eq r.email_lookup lookup) rows)
