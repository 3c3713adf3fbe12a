-- ===== src/SendGate/Switches.antt =====
-- src/lib/email/send-gate.ts: the kill switches as rows, `setKillSwitch` and
-- `ensureDefaultSwitches`. The columns that record who changed a switch are left out.
use ticketguy.Prelude.{
  ◌≡◌, refl, inl, inr, Bool, true, false, not, String, arith, List, [], ◌∷◌, ◌++◌, map, keep, any,
  contains, str_eq, eq_iff, if◌then◌else◌, Bool-cases,
}
use ticketguy.Prelude.Tables.{update_where}
use ticketguy.SendGate.{Switches, is_off}

abbrev pub has_key : String → String × Bool → Bool
has_key key row = str_eq row.0 key

-- `on conflict (key) do update`
unfoldable pub set_kill_switch : String → Bool → Switches → Switches
set_kill_switch key enabled rows =
    if any (has_key key) rows
    then update_where (has_key key) (λ row. (row.0, enabled)) rows
    else rows ++ (key, enabled) ∷ []

abbrev pub default_switches : List String
default_switches =
    "all_outbound" ∷ "recommendations" ∷ "marketing" ∷ "watches" ∷ "escalation_model" ∷ []

unfoldable pub ensure_default_switches : Switches → Switches
ensure_default_switches rows =
    rows
    ++ map (λ key. (key, true))
        (keep (λ key. not (contains key (map (λ (row : String × Bool). row.0) rows)))
          default_switches)

is_off-append_on :
    (key : String) (rows : Switches) (keys : List String)
    → is_off key (rows ++ map (λ k. (k, true)) keys) ≡ is_off key rows
unfolding is_off
is_off-append_on key [] [] = refl
is_off-append_on key [] (k ∷ keys) = ground (arith, is_off-append_on key [] keys)
is_off-append_on key ((k, b) ∷ rows) keys = ground (arith, is_off-append_on key rows keys)

-- Adding the missing default switches turns no switch off and none on.
pub ensure_default_switches-is_off :
    (key : String) (rows : Switches) → is_off key (ensure_default_switches rows) ≡ is_off key rows
unfolding ensure_default_switches
ensure_default_switches-is_off key rows = is_off-append_on key rows _

untouched :
    (key other : String) (enabled : Bool) (rows : Switches)
    → str_eq key other ≡ false
    → is_off other (update_where (has_key key) (λ row. (row.0, enabled)) rows) ≡ is_off other rows
unfolding is_off update_where
untouched key other enabled [] h = refl
untouched key other enabled ((k, b) ∷ rows) h =
    ground
      (arith, untouched key other enabled rows h, eq_iff k key, eq_iff key other, eq_iff k other)

updated :
    (key : String) (enabled : Bool) (rows : Switches)
    → any (has_key key) rows ≡ true
    → is_off key (update_where (has_key key) (λ row. (row.0, enabled)) rows) ≡ not enabled
unfolding is_off update_where
updated key enabled [] h = absurd (cc)
updated key enabled ((k, b) ∷ rows) h = ground (arith, updated key enabled rows, eq_iff k key)

added :
    (key other : String) (enabled : Bool) (rows : Switches)
    → any (has_key key) rows ≡ false
    → is_off other (rows ++ (key, enabled) ∷ [])
      ≡ (if str_eq key other then not enabled else is_off other rows)
unfolding is_off
added key other enabled [] h = refl
added key other enabled ((k, b) ∷ rows) h =
    ground (arith, added key other enabled rows, eq_iff k key, eq_iff key other, eq_iff k other)

-- After a kill switch is set it reads as it was set, and every other switch reads as before.
pub set_kill_switch-is_off :
    (key other : String) (enabled : Bool) (rows : Switches)
    → is_off other (set_kill_switch key enabled rows)
      ≡ (if str_eq key other then not enabled else is_off other rows)
unfolding set_kill_switch
set_kill_switch-is_off key other enabled rows = elim (Bool-cases (any (has_key key) rows)) [
  | inr e ↦ rw e (added key other enabled rows e)
  | inl e ↦ rw e (elim (Bool-cases (str_eq key other)) [
    | inr f ↦ rw f (untouched key other enabled rows f)
    | inl f ↦ rw (f, ← (eq_iff key other).0 f) (updated key enabled rows e)
  ])
]
