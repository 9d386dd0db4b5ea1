-- ===== src/Common/Pieces.antt =====
-- The pieces of a text that is split.
use Prim.Native.Nat.{ℕ}
use mathlib.Core.Path.{◌≡◌, refl}
use mathlib.Core.Logic.{◌≢◌}
use mathlib.Core.Bool.{false}
use mathlib.Core.List.{[], ◌∷◌, ◌++◌}
use native.Mathlib.Omega.{arith}
use ai_garage.Common.Tests.{◌==◌}
use ai_garage.Common.Lists.{any}
use ai_garage.Common.Strings.{Text, split_on}

-- `split_on` gives at least one piece.
pub split_on-ne-nil : (c : ℕ) (s : Text) → split_on c s ≢ []
unfolding split_on
split_on-ne-nil c [] h = cc
split_on-ne-nil c (x ∷ s) h = ground arith

-- The pieces of a text with a separator inside.
pub split_on-append : (c : ℕ) (s t : Text) → split_on c (s ++ c ∷ t) ≡ split_on c s ++ split_on c t
unfolding split_on
split_on-append c [] t = ground (arith, split_on-ne-nil c t)
split_on-append c (x ∷ s) t = ground (arith, split_on-append c s t, split_on-ne-nil c s)

-- A text without the separator is one piece.
pub split_on-plain : (c : ℕ) (s : Text) → any (λ x. x == c) s ≡ false → split_on c s ≡ s ∷ []
unfolding split_on
split_on-plain c [] h = refl
split_on-plain c (x ∷ s) h = ground (arith, split_on-plain c s)
