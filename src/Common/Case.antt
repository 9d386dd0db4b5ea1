-- ===== src/Common/Case.antt =====
-- Laws of `to_lowercase`.
use Prim.Native.Nat.{ℕ}
use mathlib.Core.Path.{◌≡◌, refl}
use mathlib.Core.Bool.{Bool, false, ◌&&◌, ◌||◌}
use mathlib.Core.List.{[], ◌∷◌, ◌++◌, map-append}
use native.Mathlib.Omega.{arith}
use ai_garage.Common.Tests.{leb}
use ai_garage.Common.Lists.{any, any-append}
use ai_garage.Common.Strings.{Text, lower, to_lowercase}

pub lower_idem : (c : ℕ) → lower (lower c) ≡ lower c
unfolding lower
lower_idem c = ground arith

pub to_lowercase_idem : (s : Text) → to_lowercase (to_lowercase s) ≡ to_lowercase s
unfolding to_lowercase
to_lowercase_idem [] = refl
to_lowercase_idem (c ∷ s) = cc (lower_idem c, to_lowercase_idem s)

-- An ASCII capital.
abbrev pub is_upper : ℕ → Bool
is_upper c = leb 65 c && leb c 90

abbrev pub has_upper : Text → Bool
has_upper s = any is_upper s

is_upper-lower : (c : ℕ) → is_upper (lower c) ≡ false
unfolding lower
is_upper-lower c = ground arith

-- No capital is left.
pub has_upper-to_lowercase : (s : Text) → has_upper (to_lowercase s) ≡ false
unfolding to_lowercase
has_upper-to_lowercase [] = refl
has_upper-to_lowercase (c ∷ s) = ground (arith, is_upper-lower c, has_upper-to_lowercase s)

pub to_lowercase-append : (s t : Text) → to_lowercase (s ++ t) ≡ to_lowercase s ++ to_lowercase t
unfolding to_lowercase
to_lowercase-append s t = map-append lower s t

unfoldable pub has_upper-append : (s t : Text) → has_upper (s ++ t) ≡ (has_upper s || has_upper t)
has_upper-append s t = any-append is_upper s t

lower-of_lower : (c : ℕ) → is_upper c ≡ false → lower c ≡ c
unfolding lower
lower-of_lower c h = ground arith

-- A text without capitals stays as it is.
pub to_lowercase-of_lower : (s : Text) → has_upper s ≡ false → to_lowercase s ≡ s
unfolding to_lowercase
to_lowercase-of_lower [] h = refl
to_lowercase-of_lower (c ∷ s) h = ground (arith, lower-of_lower c, to_lowercase-of_lower s)
