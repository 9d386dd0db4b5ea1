-- ===== src/Common/Maps.antt =====
-- `HashSet<String>` as a list of texts without a repetition and `HashMap<String, V>` as an
-- association list. The program nowhere relies on the order of the entries.
use mathlib.Core.Bool.{Bool, false, ◌||◌}
use mathlib.Core.List.{List, [], ◌∷◌}
use mathlib.Core.Option.{Option, none, some}
use ai_garage.Common.Tests.{if◌then◌else◌}
use ai_garage.Common.Strings.{Text, text_eq}

unfoldable pub set_contains : List Text → Text → Bool
set_contains [] x = false
set_contains (y ∷ ys) x = text_eq y x || set_contains ys x

unfoldable pub set_insert : Text → List Text → List Text
set_insert x ys = if set_contains ys x then ys else x ∷ ys

abbrev pub Dict {ℓ} : Type ℓ → Type ℓ
Dict V = List (Text × V)

module _ {ℓ} {V : Type ℓ} where
  unfoldable pub lookup : Text → Dict V → Option V
  lookup k [] = none
  lookup k ((j, v) ∷ m) = if text_eq j k then some v else lookup k m

  unfoldable pub insert : Text → V → Dict V → Dict V
  insert k v [] = (k, v) ∷ []
  insert k v ((j, w) ∷ m) = if text_eq j k then (k, v) ∷ m else (j, w) ∷ insert k v m

  unfoldable pub remove : Text → Dict V → Dict V
  remove k [] = []
  remove k ((j, w) ∷ m) = let rest = remove k m in if text_eq j k then rest else (j, w) ∷ rest
