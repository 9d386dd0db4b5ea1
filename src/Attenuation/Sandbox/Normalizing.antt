-- ===== src/Attenuation/Sandbox/Normalizing.antt =====
-- `normalize_path` resolves `.` and `..` as a stack of components does.
use mathlib.Core.List.{foldl, append-nil, append_assoc}
use ai_garage.Common.{
  split_on, Option-cases, ◌≡◌, refl, sym, ◌∙◌, inl, inr, Bool, true, false, ◌&&◌, List, [], ◌∷◌,
  ◌++◌, some, Text, all, unwrap_or, arith, and_true,
}
use ai_garage.Paths.{
  inner, is_absolute, Component, root_dir, cur_dir, parent_dir, normal, components, slash, join,
  from_components, component_text, parent_components, parent, pop,
}
use ai_garage.Paths.Joining.{is_name, components-join}
use ai_garage.Paths.Names.{is_named, named-components}
use ai_garage.Attenuation.Sandbox.{push_component, normalize_path}

-- The stack of components that stand for the path so far.
unfoldable pub resolve_step : List Component → Component → List Component
resolve_step cs root_dir = root_dir ∷ []
resolve_step cs cur_dir = cs
resolve_step cs parent_dir = unwrap_or (parent_components cs) cs
resolve_step cs (normal s) = cs ++ normal s ∷ []

unfoldable pub resolved : List Component → List Component
resolved = foldl resolve_step []

-- A root at most in front, and names.
abbrev names_only : List Component → Bool
names_only [] = true
names_only (normal s ∷ cs) = is_name s && names_only cs
names_only (_ ∷ cs) = false

abbrev pub is_clean : List Component → Bool
is_clean (root_dir ∷ cs) = names_only cs
is_clean cs = names_only cs

names-append :
    (cs : List Component) (s : Text)
    → names_only cs ≡ true
    → is_name s ≡ true
    → names_only (cs ++ normal s ∷ []) ≡ true
names-append [] s h k = ground arith
names-append (normal t ∷ cs) s h k = ground (arith, names-append cs s)
names-append (root_dir ∷ cs) s h k = cc
names-append (cur_dir ∷ cs) s h k = cc
names-append (parent_dir ∷ cs) s h k = cc

clean-append :
    (cs : List Component) (s : Text)
    → is_clean cs ≡ true
    → is_name s ≡ true
    → is_clean (cs ++ normal s ∷ []) ≡ true
clean-append [] s h k = ground arith
clean-append (root_dir ∷ cs) s h k = names-append cs s h k
clean-append (normal t ∷ cs) s h k = names-append (normal t ∷ cs) s h k
clean-append (cur_dir ∷ cs) s h k = cc
clean-append (parent_dir ∷ cs) s h k = cc

-- Of names, the parent is the front.
names-parent :
    (cs ds : List Component)
    → names_only cs ≡ true
    → parent_components cs ≡ some ds
    → names_only ds ≡ true
unfolding parent_components
names-parent [] ds h e = cc
names-parent (normal t ∷ []) ds h e = ground arith
names-parent (normal t ∷ d ∷ cs) ds h e = elim (Option-cases (parent_components (d ∷ cs))) [
  | inl f ↦ ground arith
  | inr (es, f) ↦ ground (arith, names-parent (d ∷ cs) es (ground arith) f)
]
names-parent (root_dir ∷ cs) ds h e = cc
names-parent (cur_dir ∷ cs) ds h e = cc
names-parent (parent_dir ∷ cs) ds h e = cc

clean-parent :
    (cs ds : List Component)
    → is_clean cs ≡ true
    → parent_components cs ≡ some ds
    → is_clean ds ≡ true
unfolding parent_components
clean-parent [] ds h e = cc
clean-parent (root_dir ∷ []) ds h e = cc
clean-parent (root_dir ∷ d ∷ cs) ds h e = elim (Option-cases (parent_components (d ∷ cs))) [
  | inl f ↦ ground arith
  | inr (es, f) ↦ ground (arith, names-parent (d ∷ cs) es h f)
]
clean-parent (normal t ∷ cs) ds h e = names_clean ds (names-parent (normal t ∷ cs) ds h e)
  where
    names_clean : (es : List Component) → names_only es ≡ true → is_clean es ≡ true
    names_clean [] k = refl
    names_clean (normal s ∷ es) k = k
    names_clean (root_dir ∷ es) k = cc
    names_clean (cur_dir ∷ es) k = cc
    names_clean (parent_dir ∷ es) k = cc
clean-parent (cur_dir ∷ cs) ds h e = cc
clean-parent (parent_dir ∷ cs) ds h e = cc

-- Names joined one after the other are the components of the result.
components-foldl :
    (out : Text) (cs : List Component)
    → names_only cs ≡ true
    → components (foldl (λ acc c. join acc (component_text c)) out cs) ≡ components out ++ cs
unfolding component_text
components-foldl out [] h = sym (append-nil (components out))
components-foldl out (normal s ∷ cs) h =
    let (named, rest) = and_true (is_name s) (names_only cs) h in
    components-foldl (join out s) cs rest
    ∙ rw (components-join out s named) (append_assoc (components out) (normal s ∷ []) cs)
components-foldl out (root_dir ∷ cs) h = cc
components-foldl out (cur_dir ∷ cs) h = cc
components-foldl out (parent_dir ∷ cs) h = cc

components-from : (cs : List Component) → is_clean cs ≡ true → components (from_components cs) ≡ cs
unfolding from_components components component_text join inner is_absolute split_on
components-from [] h = refl
components-from (root_dir ∷ cs) h = components-foldl slash cs h
components-from (normal s ∷ cs) h = components-foldl [] (normal s ∷ cs) h
components-from (cur_dir ∷ cs) h = cc
components-from (parent_dir ∷ cs) h = cc

components-pop :
    (out : Text)
    → is_clean (components out) ≡ true
    → (components (pop out) ≡ resolve_step (components out) parent_dir)
      × (is_clean (components (pop out)) ≡ true)
unfolding pop parent resolve_step
components-pop out h = elim (Option-cases (parent_components (components out))) [
  | inl e ↦ rw (e, parent) (refl, h)
  | inr (ds, e) ↦
      let clean = clean-parent (components out) ds h e in
      let same = components-from ds clean in rw (e, parent) (same, rw same clean)
]

push_resolves :
    (out : Text) (c : Component)
    → is_clean (components out) ≡ true
    → is_named c ≡ true
    → (components (push_component out c) ≡ resolve_step (components out) c)
      × (is_clean (components (push_component out c)) ≡ true)
unfolding push_component resolve_step join is_absolute components inner split_on
push_resolves out root_dir h k = (refl, refl)
push_resolves out cur_dir h k = (refl, h)
push_resolves out parent_dir h k = unfold resolve_step in components-pop out h
push_resolves out (normal s) h k =
    let e = components-join out s k in (e, rw e (clean-append (components out) s h k))

fold_resolves :
    (out : Text) (cs : List Component)
    → is_clean (components out) ≡ true
    → all is_named cs ≡ true
    → (components (foldl push_component out cs) ≡ foldl resolve_step (components out) cs)
      × (is_clean (components (foldl push_component out cs)) ≡ true)
fold_resolves out [] h k = (refl, h)
fold_resolves out (c ∷ cs) h k =
    let (named, rest) = and_true (is_named c) (all is_named cs) k in
    let (e, clean) = push_resolves out c h named in
    rw (← e) (fold_resolves (push_component out c) cs clean rest)

-- The components of a normalized path are those of the path, resolved on a stack: a root in front
-- at most, then names, and neither `.` nor `..`.
pub components-normalize :
    (path : Text)
    → (components (normalize_path path) ≡ resolved (components path))
      × (is_clean (components (normalize_path path)) ≡ true)
unfolding normalize_path resolved components
components-normalize path = fold_resolves [] (components path) refl (named-components path)
