-- ===== src/Paths/Names.antt =====
-- Every normal component is a name, and whole components decide whether a path starts with another.
use ai_garage.Common.{
  ◌≡◌, refl, Bool, true, not, List, [], ◌∷◌, ◌++◌, some, Text, split_on, last, ◌==◌, any, all,
  arith,
}
use ai_garage.Paths.{
  Component, root_dir, cur_dir, parent_dir, normal, inner, leading, components, file_name,
  prefix_of, path_starts_with, join,
}
use ai_garage.Paths.Joining.{is_name, components-join}

abbrev pub is_named : Component → Bool
is_named (normal s) = is_name s
is_named _ = true

abbrev whole : Text → Bool
whole s = not (any (λ c. c == b'/') s)

whole-split_on : (s : Text) → all whole (split_on b'/' s) ≡ true
unfolding split_on
whole-split_on [] = refl
whole-split_on (x ∷ s) = ground (arith, whole-split_on s)

named-inner : (ss : List Text) → all whole ss ≡ true → all is_named (inner ss) ≡ true
unfolding inner
named-inner [] h = refl
named-inner (s ∷ ss) h = ground (arith, named-inner ss)

named-leading : (ss : List Text) → all whole ss ≡ true → all is_named (leading ss) ≡ true
unfolding leading
named-leading [] h = refl
named-leading (s ∷ ss) h = ground (arith, named-inner (s ∷ ss), named-inner ss)

pub named-components : (p : Text) → all is_named (components p) ≡ true
unfolding components
named-components [] = refl
named-components (c ∷ s) = ground (
  arith,
  named-inner (split_on b'/' s) (whole-split_on s),
  named-leading (split_on b'/' (c ∷ s)) (whole-split_on (c ∷ s)),
)

named-last :
    (cs : List Component) (s : Text)
    → all is_named cs ≡ true
    → last cs ≡ some (normal s)
    → is_name s ≡ true
named-last [] s h e = cc
named-last (normal t ∷ []) s h e = ground arith
named-last (root_dir ∷ []) s h e = cc
named-last (cur_dir ∷ []) s h e = cc
named-last (parent_dir ∷ []) s h e = cc
named-last (c ∷ d ∷ ds) s h e = named-last (d ∷ ds) s (ground arith) e

-- The name of a file is a name.
pub file_name-name : (p s : Text) → file_name p ≡ some s → is_name s ≡ true
unfolding file_name
file_name-name p s h = named-last (components p) s (named-components p) (ground arith)

prefix_of-append :
    (bs cs ds : List Component) → prefix_of bs cs ≡ true → prefix_of bs (cs ++ ds) ≡ true
unfolding prefix_of
prefix_of-append [] cs ds h = refl
prefix_of-append (b ∷ bs) [] ds h = cc
prefix_of-append (b ∷ bs) (c ∷ cs) ds h = ground (arith, prefix_of-append bs cs ds)

-- A name joined to a path below `base` stays below it.
pub path_starts_with-join :
    (p base s : Text)
    → is_name s ≡ true
    → path_starts_with p base ≡ true
    → path_starts_with (join p s) base ≡ true
unfolding path_starts_with
path_starts_with-join p base s h k =
    rw (components-join p s h) (prefix_of-append (components base) (components p) _ k)
