-- ===== src/Paths.antt =====
-- `std::path` on Unix, over the text of a path, and the file system as the kernel asks it.
pub mod Joining
pub mod Names
use ai_garage.Common.{
  ℕ, Bool, true, false, ◌&&◌, List, [], ◌∷◌, ◌++◌, map, Option, none, some, Text, text_eq, split_on,
  last, Result, if◌then◌else◌, ◌==◌, unwrap_or,
}
use mathlib.Core.List.{foldl}

-- `std::path::Component`; a `Prefix` occurs on Windows only.
pub data Component : Type 0 where
  root_dir cur_dir parent_dir : Component
  normal : Text → Component

abbrev pub slash : Text
slash = b'/' ∷ []

abbrev pub dot : Text
dot = b'.' ∷ []

abbrev pub dot_dot : Text
dot_dot = b'.' ∷ b'.' ∷ []

abbrev pub is_empty : Text → Bool
is_empty [] = true
is_empty (c ∷ s) = false

-- The pieces between slashes: empty ones and `.` are passed over.
unfoldable pub inner : List Text → List Component
inner [] = []
inner (s ∷ ss) =
    if is_empty s
    then inner ss
    else if text_eq s dot
    then inner ss
    else if text_eq s dot_dot
    then parent_dir ∷ inner ss
    else normal s ∷ inner ss

-- At the head of a relative path `.` counts.
unfoldable pub leading : List Text → List Component
leading [] = []
leading (s ∷ ss) = if text_eq s dot then cur_dir ∷ inner ss else inner (s ∷ ss)

unfoldable pub components : Text → List Component
components [] = []
components (c ∷ s) =
    if c == b'/' then root_dir ∷ inner (split_on b'/' s) else leading (split_on b'/' (c ∷ s))

unfoldable pub is_absolute : Text → Bool
is_absolute [] = false
is_absolute (c ∷ s) = c == b'/'

-- A separator is put between, unless the first path is empty or ends with one.
unfoldable pub separated : Text → Option ℕ → Text
separated base none = base
separated base (some c) = if c == b'/' then base else base ++ slash

-- `base.join(p)`, `base.push(p)`
unfoldable pub join : Text → Text → Text
join base p = if is_absolute p then p else separated base (last base) ++ p

unfoldable pub component_text : Component → Text
component_text root_dir = slash
component_text cur_dir = dot
component_text parent_dir = dot_dot
component_text (normal s) = s

-- The path of some components, as `collect` builds it.
unfoldable pub from_components : List Component → Text
from_components = foldl (λ out c. join out (component_text c)) []

-- All components but the last, unless that is the root.
unfoldable pub parent_components : List Component → Option (List Component)
parent_components [] = none
parent_components (root_dir ∷ []) = none
parent_components (c ∷ []) = some []
parent_components (c ∷ d ∷ ds) = elim (parent_components (d ∷ ds)) [
  | none ↦ none
  | some cs ↦ some (c ∷ cs)
]

-- `p.parent()`. Paths are equal in std when their components are.
unfoldable pub parent : Text → Option Text
parent p = elim (parent_components (components p)) [
  | none ↦ none
  | some cs ↦ some (from_components cs)
]

-- `p.pop()`
unfoldable pub pop : Text → Text
pop p = unwrap_or (parent p) p

abbrev pub normal_text : Component → Option Text
normal_text (normal s) = some s
normal_text _ = none

-- `p.file_name()`
unfoldable pub file_name : Text → Option Text
file_name p = elim (last (components p)) [ none ↦ none | some c ↦ normal_text c ]

unfoldable pub component_eq : Component → Component → Bool
component_eq root_dir root_dir = true
component_eq cur_dir cur_dir = true
component_eq parent_dir parent_dir = true
component_eq (normal s) (normal t) = text_eq s t
component_eq _ _ = false

unfoldable pub prefix_of : List Component → List Component → Bool
prefix_of [] cs = true
prefix_of (b ∷ bs) [] = false
prefix_of (b ∷ bs) (c ∷ cs) = component_eq b c && prefix_of bs cs

-- `p.starts_with(base)`, which compares whole components
unfoldable pub path_starts_with : Text → Text → Bool
path_starts_with p base = prefix_of (components base) (components p)

-- The file system at one moment. An error of `canonicalize` is given by its text.
pub record FileSystem : Type 0 where
  pub canonicalize : Text → Result Text Text
  pub exists : Text → Bool
