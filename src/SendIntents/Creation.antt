-- ===== src/SendIntents/Creation.antt =====
-- src/lib/email/send-intents.ts: one intent for each dedupe key.
use ticketguy.Prelude.{
  ℕ, ◌≡◌, refl, String, true, false, some, [], ◌∷◌, ◌++◌, arith, subst, any, find, Bool-cases, inl,
  inr, eq_iff,
}
use ticketguy.SendIntents.{
  SendIntentInput, SendIntent, SendIntents, new_intent, has_key, create_send_intent,
}

find-append_last :
    (key : String) (rows : SendIntents) (r : SendIntent)
    → any (has_key key) rows ≡ false
    → has_key key r ≡ true
    → (any (has_key key) (rows ++ r ∷ []) ≡ true) × (find (has_key key) (rows ++ r ∷ []) ≡ some r)
find-append_last key [] r h e = (rw e refl, rw e refl)
find-append_last key (x ∷ xs) r h e = ground (arith, find-append_last key xs r)

-- A second creation under the same dedupe key writes nothing, whatever else it carries, and
-- returns the id of the intent that the first one made or found.
pub create_send_intent_idempotent :
    (digest : SendIntentInput → String) (first second : SendIntentInput) (id id' : String)
    (wall wall' : ℕ) (rows : SendIntents)
    → first.dedupe_key ≡ second.dedupe_key
    → create_send_intent digest second id' wall' (create_send_intent digest first id wall rows).0
      ≡ (
        (create_send_intent digest first id wall rows).0,
        record { id = (create_send_intent digest first id wall rows).1.id; created = false },
      )
unfolding create_send_intent
create_send_intent_idempotent digest first second id id' wall wall' rows same =
    elim (Bool-cases (any (has_key first.dedupe_key) rows)) [
      | inl old ↦
          let again = subst (λ k. any (has_key k) rows ≡ true) same old in
          rw old (rw again (rw same))
      | inr new ↦
          let fresh = new_intent digest first id wall in
          let (there, found) =
            find-append_last second.dedupe_key rows fresh
              (subst (λ k. any (has_key k) rows ≡ false) same new) ((eq_iff _ _).1 same) in
          rw new (rw there (rw found))
    ]
