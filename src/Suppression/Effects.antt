-- ===== src/Suppression/Effects.antt =====
-- src/lib/domain/suppression.ts with src/lib/email/send-gate.ts: what an opt-out, a bounce or a
-- complaint does to later sends.
use ticketguy.Prelude.{
  ◌≡◌, ◌≢◌, refl, inl, inr, Bool, true, false, String, Option, none, some, arith, List, [], ◌∷◌,
  ◌++◌, any, eq_iff, if◌then◌else◌, Bool-cases, All,
}
use ticketguy.Prelude.Tables.{All-update_where}
use ticketguy.SendGate.{
  Env, Switches, GateInput, MessageClass, marketing, watch_alert, watch_confirmation, event_alert,
  follow_up, SuppressionScope, global_scope, marketing_scope, watch_scope, same_scope, has_scope,
  allowed, evaluate_gate,
}
use ticketguy.SendGate.Exactness.{ClassPermits, evaluate_gate-allowed_iff}
use ticketguy.Suppression.{
  SuppressionRow, OptOutTables, Monitor, ProviderVerdict, is_for, add_suppression, revoke_marketing,
  runs_for, cancel, stop_all, apply_provider_complaint_or_bounce, load_suppression_scopes,
}

-- the operations that write the tables
pub data OptOut : Type 0 where
  unsubscribed : Option String → String → String → OptOut
  stopped : Option String → String → OptOut
  reported : String → ProviderVerdict → String → OptOut

abbrev pub apply : OptOut → OptOutTables → OptOutTables
apply (unsubscribed contact lookup notice) t = revoke_marketing contact lookup notice t
apply (stopped contact lookup) t = stop_all contact lookup t
apply (reported lookup kind provider) t = apply_provider_complaint_or_bounce lookup kind provider t

abbrev pub apply_all : List OptOut → OptOutTables → OptOutTables
apply_all [] t = t
apply_all (op ∷ ops) t = apply_all ops (apply op t)

any-append :
    (p : SuppressionRow → Bool) (xs ys : List SuppressionRow)
    → any p xs ≡ true
    → any p (xs ++ ys) ≡ true
any-append p [] ys h = absurd (cc)
any-append p (x ∷ xs) ys h = ground (arith, any-append p xs ys)

any_last :
    (p : SuppressionRow → Bool) (xs : List SuppressionRow) (r : SuppressionRow)
    → p r ≡ true
    → any p (xs ++ r ∷ []) ≡ true
any_last p [] r h = rw h refl
any_last p (x ∷ xs) r h = ground (arith, any_last p xs r h)

abbrev Suppressed : String → SuppressionScope → OptOutTables → Type 0
Suppressed lookup scope t = any (is_for lookup scope) t.suppressions ≡ true

module _ (lookup : String) (scope : SuppressionScope) where
  add_suppression-Suppressed :
      (reason : String) (provider : Option String) (t : OptOutTables)
      → Suppressed lookup scope (add_suppression lookup scope reason provider t)
  unfolding add_suppression
  add_suppression-Suppressed reason provider t =
      elim (Bool-cases (any (is_for lookup scope) t.suppressions)) [
        | inl e ↦ rw e e
        | inr e ↦
            rw e (
              any_last (is_for lookup scope) t.suppressions _
                (ground (arith, eq_iff lookup lookup)))
      ]

  Suppressed-add_suppression :
      (other : String) (s : SuppressionScope) (reason : String) (provider : Option String)
      (t : OptOutTables)
      → Suppressed lookup scope t
      → Suppressed lookup scope (add_suppression other s reason provider t)
  unfolding add_suppression
  Suppressed-add_suppression other s reason provider t h =
      elim (Bool-cases (any (is_for other s) t.suppressions)) [
        | inl e ↦ rw e h
        | inr e ↦ rw e (any-append (is_for lookup scope) t.suppressions _ h)
      ]

  Suppressed-apply :
      (op : OptOut) (t : OptOutTables)
      → Suppressed lookup scope t
      → Suppressed lookup scope (apply op t)
  unfolding revoke_marketing stop_all apply_provider_complaint_or_bounce
  Suppressed-apply (unsubscribed none other notice) t h = Suppressed-add_suppression other _ _ _ t h
  Suppressed-apply (unsubscribed (some c) other notice) t h =
      Suppressed-add_suppression other _ _ _ t h
  Suppressed-apply (stopped none other) t h =
      Suppressed-add_suppression other _ _ _ _ (Suppressed-add_suppression other _ _ _ t h)
  Suppressed-apply (stopped (some c) other) t h =
      Suppressed-add_suppression other _ _ _ _ (Suppressed-add_suppression other _ _ _ t h)
  Suppressed-apply (reported other kind provider) t h = Suppressed-add_suppression other _ _ _ t h

  Suppressed-apply_all :
      (ops : List OptOut) (t : OptOutTables)
      → Suppressed lookup scope t
      → Suppressed lookup scope (apply_all ops t)
  Suppressed-apply_all [] t h = h
  Suppressed-apply_all (op ∷ ops) t h =
      Suppressed-apply_all ops (apply op t) (Suppressed-apply op t h)

  Suppressed-has_scope :
      (rows : List SuppressionRow)
      → any (is_for lookup scope) rows ≡ true
      → has_scope scope (load_suppression_scopes lookup rows) ≡ true
  unfolding load_suppression_scopes
  Suppressed-has_scope [] h = absurd (cc)
  Suppressed-has_scope (r ∷ rows) h = ground (arith, Suppressed-has_scope rows, swap_scope)
    where
      swap_scope : same_scope r.scope scope ≡ same_scope scope r.scope
      swap_scope = ground arith

-- the classes that an opt-out of everything concerns: nobody has asked for these just now
abbrev pub is_proactive : MessageClass → Bool
is_proactive marketing = true
is_proactive watch_alert = true
is_proactive watch_confirmation = true
is_proactive event_alert = true
is_proactive follow_up = true
is_proactive _ = false

class_blocked :
    (env : Env) (switches : Switches) (scopes : List SuppressionScope) (c : MessageClass)
    (input : GateInput)
    → is_proactive c ≡ true
    → has_scope marketing_scope scopes ≡ true
    → has_scope watch_scope scopes ≡ true
    → ¬ ClassPermits env switches scopes c input
class_blocked env switches scopes marketing input p m w h = ground arith
class_blocked env switches scopes watch_alert input p m w h = ground arith
class_blocked env switches scopes watch_confirmation input p m w h = ground arith
class_blocked env switches scopes event_alert input p m w h = ground arith
class_blocked env switches scopes follow_up input p m w h = ground arith
class_blocked env switches scopes _ input p m w h = absurd (cc)

module _ (env : Env) (switches : Switches) (input : GateInput) (lookup : String)
    (t : OptOutTables) where
  -- After a hard bounce or a complaint the gate lets no message of any class through to that
  -- recipient, whatever opt-outs and reports of anybody follow.
  pub complaint_blocks :
      (kind : ProviderVerdict) (provider : String) (later : List OptOut)
      → evaluate_gate env switches
          (load_suppression_scopes lookup
            (apply_all later
              (apply_provider_complaint_or_bounce lookup kind provider t)).suppressions)
          input
        ≢ allowed
  unfolding apply_provider_complaint_or_bounce
  complaint_blocks kind provider later passed =
      let told = apply_provider_complaint_or_bounce lookup kind provider t in
      let noted = add_suppression-Suppressed lookup global_scope _ (some provider) t in
      let kept = Suppressed-apply_all lookup global_scope later told noted in
      let scoped =
        Suppressed-has_scope lookup global_scope (apply_all later told).suppressions kept in
      let permitted = (evaluate_gate-allowed_iff env switches _ input).0 passed in
      absurd (ground (arith, scoped, permitted.wanted))

  stopped_scopes :
      (contact : Option String)
      → Suppressed lookup marketing_scope (stop_all contact lookup t)
        × Suppressed lookup watch_scope (stop_all contact lookup t)
  unfolding stop_all revoke_marketing
  stopped_scopes none =
      let first = add_suppression-Suppressed lookup marketing_scope "unsubscribe" none t in
      (
        Suppressed-add_suppression lookup marketing_scope lookup _ _ _ _ first,
        add_suppression-Suppressed lookup watch_scope _ _ _,
      )
  stopped_scopes (some c) =
      let first = add_suppression-Suppressed lookup marketing_scope "unsubscribe" none t in
      (
        Suppressed-add_suppression lookup marketing_scope lookup _ _ _ _ first,
        add_suppression-Suppressed lookup watch_scope _ _ _,
      )

  -- After "stop all emails" the gate lets no marketing, watch, event alert or follow-up message
  -- through to that recipient, whatever opt-outs and reports of anybody follow.
  pub stop_all_blocks :
      (contact : Option String) (later : List OptOut)
      → is_proactive input.message_class ≡ true
      → evaluate_gate env switches
          (load_suppression_scopes lookup
            (apply_all later (stop_all contact lookup t)).suppressions)
          input
        ≢ allowed
  stop_all_blocks contact later proactive passed =
      let (m, w) = stopped_scopes contact in
      let stopped_now = stop_all contact lookup t in
      let marketing_kept = Suppressed-apply_all lookup marketing_scope later stopped_now m in
      let watch_kept = Suppressed-apply_all lookup watch_scope later stopped_now w in
      let rows = (apply_all later stopped_now).suppressions in
      let permitted = (evaluate_gate-allowed_iff env switches _ input).0 passed in
      class_blocked env switches (load_suppression_scopes lookup rows) input.message_class input
        proactive (Suppressed-has_scope lookup marketing_scope rows marketing_kept)
        (Suppressed-has_scope lookup watch_scope rows watch_kept) permitted.class

cancelled_row :
    (contact : String) (w : Monitor)
    → runs_for contact (if runs_for contact w then cancel w else w) ≡ false
cancelled_row contact w = ground arith

-- "Stop all emails" leaves no watch and no event alert of the contact active.
pub stop_all_cancels :
    (contact lookup : String) (t : OptOutTables)
    → All (λ w. runs_for contact w ≡ false) (stop_all (some contact) lookup t).watches
      × All (λ w. runs_for contact w ≡ false) (stop_all (some contact) lookup t).event_alerts
unfolding stop_all
stop_all_cancels contact lookup t = (
  All-update_where _ (runs_for contact) cancel _ (λ w m. cancelled_row contact w),
  All-update_where _ (runs_for contact) cancel _ (λ w m. cancelled_row contact w),
)
