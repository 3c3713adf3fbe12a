-- ===== src/ServiceDepth/Gate.antt =====
-- src/lib/intake/service-policy.ts: gate, whether an operation may run, with the audit rows that a
-- shadow refusal leaves.
use ticketguy.Prelude.{
  ℕ, String, Bool, true, false, ◌&&◌, Option, none, some, List, [], ◌∷◌, ◌++◌, ◌≡◌, ◌≤◌, ◌-◌, ◌+◌,
  ◌↔◌, arith, ap, ◌∙◌, str_eq, leb, any, if◌then◌else◌,
}
use text.Mathlib.TextPositions.{eq_refl}
use ticketguy.ServiceDepth.{ServiceDepth, Operation, ReasonCode}
use ticketguy.ServiceDepth.Policy.{same_operation, allows}
use ticketguy.ServiceDepth.Snapshot.{PolicyMode, off, shadow, enforce, PolicySnapshot, is_enforce}

-- a row of audit_log, with the part of `diff` that is read again
pub record AuditRow : Type 0 where
  pub actor : String
  pub action : String
  pub entity_kind : String
  pub entity_id : String
  pub operation : Operation
  pub depth : ServiceDepth
  pub category : String
  pub reasons : List ReasonCode
  pub created_at : ℕ

abbrev pub would_block : String
would_block = "service_policy.would_block"

abbrev pub is_same_refusal : String → Operation → ℕ → AuditRow → Bool
is_same_refusal id op since r =
    str_eq r.action would_block
    && (str_eq r.entity_id id && (leb since r.created_at && same_operation r.operation op))

abbrev pub refusal_row : PolicySnapshot → Operation → String → String → ℕ → AuditRow
refusal_row snap op kind id now = record {
  actor = "system";
  action = would_block;
  entity_kind = kind;
  entity_id = id;
  operation = op;
  depth = snap.decision.depth;
  category = snap.decision.category;
  reasons = snap.decision.reasons;
  created_at = now;
}

abbrev log_refusal :
    PolicySnapshot → Operation → String → String → ℕ → List AuditRow → List AuditRow
log_refusal snap op kind id now log =
    if any (is_same_refusal id op (now - 86400000)) log
    then log
    else log ++ refusal_row snap op kind id now ∷ []

abbrev pub gate_in :
    PolicyMode
    → PolicySnapshot
    → Operation
    → String
    → String
    → ℕ
    → List AuditRow
    → List AuditRow × Bool
gate_in off snap op kind id now log = (log, true)
gate_in enforce snap op kind id now log = (log, allows snap.decision op)
gate_in shadow snap op kind id now log =
    (if allows snap.decision op then log else log_refusal snap op kind id now log, true)

unfoldable pub gate :
    Option PolicySnapshot → Operation → String → String → ℕ → List AuditRow → List AuditRow × Bool
gate none op kind id now log = (log, true)
gate (some snap) op kind id now log = gate_in snap.mode snap op kind id now log

-- The gate holds an operation back exactly when there is a snapshot, its mode enforces the policy,
-- and the decision does not allow the operation: under shadow and off nothing changes.
pub gate_refuses_iff :
    (snap : PolicySnapshot) (op : Operation) (kind id : String) (now : ℕ) (log : List AuditRow)
    → ((gate (some snap) op kind id now log).1 ≡ false)
      ↔ ((is_enforce snap.mode ≡ true) × (allows snap.decision op ≡ false))
unfolding gate
gate_refuses_iff snap op kind id now log = go snap.mode
  where
    go :
        (mode : PolicyMode)
        → ((gate_in mode snap op kind id now log).1 ≡ false)
          ↔ ((is_enforce mode ≡ true) × (allows snap.decision op ≡ false))
    go off = ground arith
    go shadow = ground arith
    go enforce = ground arith

any-append_last {ℓ} :
    {A : Type ℓ} (p : A → Bool) (xs : List A) (x : A) → p x ≡ true → any p (xs ++ x ∷ []) ≡ true
any-append_last p [] x h = ground arith
any-append_last p (y ∷ ys) x h = ground (arith, any-append_last p ys x h)

is_same_refusal_self :
    (snap : PolicySnapshot) (op : Operation) (kind id : String) (now since : ℕ)
    → since ≤ now
    → is_same_refusal id op since (refusal_row snap op kind id now) ≡ true
is_same_refusal_self snap op kind id now since h = ground (arith, eq_refl would_block, eq_refl id)

-- A refusal that is new goes on record once: under shadow an operation that the decision does not
-- allow runs all the same and adds one row, after which the gate, asked again for the same
-- operation and entity within a day, adds nothing.
pub gate_logs_once :
    (snap : PolicySnapshot) (op : Operation) (kind id : String) (now later : ℕ)
    (log : List AuditRow)
    → snap.mode ≡ shadow
    → allows snap.decision op ≡ false
    → any (is_same_refusal id op (now - 86400000)) log ≡ false
    → later ≤ now + 86400000
    → (gate (some snap) op kind id now log ≡ (log ++ refusal_row snap op kind id now ∷ [], true))
      × (gate (some snap) op kind id later (log ++ refusal_row snap op kind id now ∷ [])
          ≡ (log ++ refusal_row snap op kind id now ∷ [], true))
unfolding gate
gate_logs_once snap op kind id now later log mode denied new near =
    let row = refusal_row snap op kind id now in
    let seen =
      any-append_last (is_same_refusal id op (later - 86400000)) log row
        (is_same_refusal_self snap op kind id now (later - 86400000) (omega arith)) in
    (
      ap (λ m. gate_in m snap op kind id now log) mode ∙ simp (denied, new),
      ap (λ m. gate_in m snap op kind id later (log ++ row ∷ [])) mode ∙ simp (denied, seen),
    )
