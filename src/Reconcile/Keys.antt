-- ===== src/Reconcile/Keys.antt =====
-- src/lib/email/reconcile.ts: two messages have different keys.
use Prim.Native.Char.{Char}
use Prim.Native.String.append
use Prim.Native.String.{[], ◌∷◌, ◌++◌ as str_append}
use ticketguy.Prelude.{◌≡◌, sym, ◌∙◌, String, arith}
use ticketguy.Reconcile.{reconcile_key}

same_tail : (c : Char) (a b : String) → (c ∷ a) ≡ (c ∷ b) → a ≡ b
same_tail c a b e = ground arith

append_cancel : (s a b : String) → str_append s a ≡ str_append s b → a ≡ b
append_cancel [] a b e = sym (append.nil a) ∙ e ∙ append.nil b
append_cancel (c ∷ s) a b e =
    append_cancel s a b (same_tail c _ _ (sym (append.cons c s a) ∙ e ∙ append.cons c s b))

pub reconcile_key_inj : (a b : String) → reconcile_key a ≡ reconcile_key b → a ≡ b
reconcile_key_inj a b e = append_cancel "reconcile:" a b e
