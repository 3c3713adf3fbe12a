-- ===== src/Prelude/Pushes.antt =====
-- A list that code fills by `if (test) list.push(item)`, one test after the other.
use mathlib.Core.Path.{◌≡◌}
use mathlib.Core.Bool.{Bool, true, false}
use mathlib.Core.Logic.{◌↔◌}
use mathlib.Core.List.{List, [], ◌∷◌, ◌++◌}
use native.Mathlib.Omega.{arith}

module _ {ℓ} {A : Type ℓ} where
  -- `if (b) list.push(a)`
  abbrev pub push_if : Bool → A → List A
  push_if true a = a ∷ []
  push_if false a = []

  -- Nothing was pushed exactly when this test failed and nothing was pushed by the others.
  pub push_if-nil_iff :
      (b : Bool) (a : A) (rest : List A)
      → ((push_if b a ++ rest) ≡ []) ↔ ((b ≡ false) × (rest ≡ []))
  push_if-nil_iff true a rest = ground arith
  push_if-nil_iff false a rest = ground arith

  pub append-nil_iff : (xs ys : List A) → ((xs ++ ys) ≡ []) ↔ ((xs ≡ []) × (ys ≡ []))
  append-nil_iff [] ys = ground arith
  append-nil_iff (x ∷ xs) ys = ground arith
