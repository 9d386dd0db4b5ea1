-- ===== src/Common/Entries.antt =====
-- What a set contains and a map looks up after a change.
use mathlib.Core.Path.{◌≡◌, refl}
use mathlib.Core.Bool.{Bool, true, ◌||◌}
use mathlib.Core.List.{List, [], ◌∷◌}
use mathlib.Core.Option.{none, some}
use native.Mathlib.Omega.{arith}
use ai_garage.Common.Tests.{if◌then◌else◌, Bool-cases}
use ai_garage.Common.Lists.{any}
use mathlib.Core.Logic.{inl, inr}
use ai_garage.Common.Strings.{Text, text_eq}
use ai_garage.Common.Maps.{set_contains, set_insert, Dict, lookup, insert, remove}
use ai_garage.Common.Substring.{text_eq_iff, text_eq_refl}

pub set_contains-insert :
    (x y : Text) (s : List Text)
    → set_contains (set_insert x s) y ≡ (text_eq x y || set_contains s y)
unfolding set_insert set_contains
set_contains-insert x y s = ground (arith, text_eq_iff x y, text_eq_iff x x)

module _ {ℓ} {V : Type ℓ} where
  pub lookup-insert :
      (k j : Text) (v : V) (m : Dict V)
      → lookup j (insert k v m) ≡ (if text_eq k j then some v else lookup j m)
  unfolding lookup insert
  lookup-insert k j v [] = refl
  lookup-insert k j v ((i, w) ∷ m) =
      ground (arith, text_eq_iff k j, text_eq_iff i k, text_eq_iff i j, lookup-insert k j v m)

  pub lookup-remove :
      (k j : Text) (m : Dict V) → lookup j (remove k m) ≡ (if text_eq k j then none else lookup j m)
  unfolding lookup remove
  lookup-remove k j [] = ground arith
  lookup-remove k j ((i, w) ∷ m) =
      ground (arith, text_eq_iff k j, text_eq_iff i k, text_eq_iff i j, lookup-remove k j m)

pub any-of_contains :
    (p : Text → Bool) (xs : List Text) (x : Text)
    → set_contains xs x ≡ true
    → p x ≡ true
    → any p xs ≡ true
unfolding set_contains
any-of_contains p [] x h k = cc
any-of_contains p (y ∷ ys) x h k = ground (arith, text_eq_iff y x, any-of_contains p ys x)

-- What `any` finds is contained.
pub any-contained :
    (p : Text → Bool) (xs : List Text)
    → any p xs ≡ true
    → (x : Text) × (set_contains xs x ≡ true) × (p x ≡ true)
unfolding set_contains
any-contained p [] h = cc
any-contained p (y ∷ ys) h = elim (Bool-cases (p y)) [
  | inl e ↦ (y, ground (arith, text_eq_refl y), e)
  | inr e ↦ let (x, c, f) = any-contained p ys (ground arith) in (x, ground arith, f)
]
