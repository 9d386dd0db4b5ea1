-- ===== src/Attenuation/Sandbox/Confinement.antt =====
-- What `validate_path` guarantees when it returns a path.
use ai_garage.Attenuation.Glob.Keyword.{below_directory, forbidden_component}
use ai_garage.Common.{
  any, set_contains, ◌≢◌, ◌↔◌, Result-cases, ◌≡◌, refl, inl, inr, Bool, true, false, List, [], ◌∷◌,
  Text, ok, if◌then◌else◌, unwrap_or, Option-cases, arith,
}
use ai_garage.Policy.{SecurityPolicy}
use ai_garage.Paths.{
  components, component_eq, normal, is_absolute, FileSystem, parent, file_name, path_starts_with,
}
use ai_garage.Paths.Names.{file_name-name, path_starts_with-join}
use ai_garage.Attenuation.{EffectiveLease}
use ai_garage.Attenuation.Glob.{matches_glob_pattern, check_forbidden}
use ai_garage.Attenuation.Sandbox.{
  target_of, check_existing, check_new_file, check_lexical, check_target, validate_path,
}

module _ (fs : FileSystem) (root target : Text) (p : Text) where
  existing-below : check_existing fs root target ≡ ok p → path_starts_with p root ≡ true
  unfolding check_existing
  existing-below h = ground arith

  existing-canonical : check_existing fs root target ≡ ok p → fs.canonicalize target ≡ ok p
  unfolding check_existing
  existing-canonical h = ground arith

  new_file-below :
      (dir : Text) → check_new_file fs root target dir ≡ ok p → path_starts_with p root ≡ true
  unfolding check_new_file
  new_file-below dir h = elim (Result-cases (fs.canonicalize dir)) [
    | inr (e, f) ↦ ground arith
    | inl (q, f) ↦ elim (Option-cases (file_name target)) [
      | inl g ↦ ground arith
      | inr (name, g) ↦
          ground (arith, path_starts_with-join q root name (file_name-name target name g))
    ]
  ]

  lexical-below : check_lexical fs root target ≡ ok p → path_starts_with p root ≡ true
  unfolding check_lexical
  lexical-below h = ground arith

  target-below : check_target fs root target ≡ ok p → path_starts_with p root ≡ true
  unfolding check_target
  target-below h =
      ground (arith, existing-below, new_file-below (unwrap_or (parent target) root), lexical-below)

-- No pattern of the list matches, and none panics.
abbrev pub Unmatched : List Text → Text → Type 0
Unmatched [] target = Unit
Unmatched (s ∷ ss) target = (matches_glob_pattern s target ≡ ok false) × Unmatched ss target

check_forbidden_sound :
    (ss : List Text) (target : Text) → check_forbidden ss target ≡ ok tt → Unmatched ss target
unfolding check_forbidden
check_forbidden_sound [] target h = tt
check_forbidden_sound (s ∷ ss) target h =
    (ground arith, check_forbidden_sound ss target (ground arith))

-- A path comes back only to an enabled plugin that may make the access, lies below the canonical
-- workspace root component by component, and was asked for by a path that no forbidden pattern
-- matches.
pub validate_path_sound :
    (fs : FileSystem) (lease : EffectiveLease) (workspace_root requested_path : Text) (write : Bool)
    (policy : SecurityPolicy) (p : Text)
    → validate_path fs lease workspace_root requested_path write policy ≡ ok p
    → (lease.enabled ≡ true)
      × ((if write then lease.allow_filesystem_write else lease.allow_filesystem_read) ≡ true)
      × (root : Text) × (fs.canonicalize workspace_root ≡ ok root)
      × (path_starts_with p root ≡ true)
      × Unmatched policy.workspace.forbidden_patterns (target_of root requested_path)
unfolding validate_path
validate_path_sound fs lease workspace_root requested_path write policy p h =
    elim (Result-cases (fs.canonicalize workspace_root)) [
      | inr (e, f) ↦ ground arith
      | inl (root, f) ↦
          let target = target_of root requested_path in
          let patterns = policy.workspace.forbidden_patterns in
          (
            ground arith,
            ground arith,
            root,
            f,
            ground (arith, target-below fs root target p),
            check_forbidden_sound patterns target (ground arith),
          )
    ]

check_forbidden_complete :
    (ss : List Text) (target : Text) → Unmatched ss target → check_forbidden ss target ≡ ok tt
unfolding check_forbidden
check_forbidden_complete [] target h = refl
check_forbidden_complete (s ∷ ss) target h =
    ground (arith, h.0, check_forbidden_complete ss target h.1)

-- Where the path that was asked for exists, exactly one path can come back, its canonical one; and it
-- does exactly if the plugin is enabled and has the access, no forbidden pattern matches the path that
-- was asked for, and the canonical path lies below the canonical root. So no pattern keeps a
-- canonical path from being handed out.
pub validate_path_existing :
    (fs : FileSystem) (lease : EffectiveLease) (workspace_root requested_path : Text) (write : Bool)
    (policy : SecurityPolicy) (root p : Text)
    → fs.canonicalize workspace_root ≡ ok root
    → fs.exists (target_of root requested_path) ≡ true
    → (validate_path fs lease workspace_root requested_path write policy ≡ ok p) ↔ (
        (lease.enabled ≡ true)
        × ((if write then lease.allow_filesystem_write else lease.allow_filesystem_read) ≡ true)
        × Unmatched policy.workspace.forbidden_patterns (target_of root requested_path)
        × (fs.canonicalize (target_of root requested_path) ≡ ok p)
        × (path_starts_with p root ≡ true))
unfolding validate_path check_target check_existing
validate_path_existing fs lease workspace_root requested_path write policy root p at there =
    let target = target_of root requested_path in
    let patterns = policy.workspace.forbidden_patterns in
    (
      λ h. (
        ground arith,
        ground arith,
        check_forbidden_sound patterns target (ground arith),
        existing-canonical fs root target p (ground arith),
        existing-below fs root target p (ground arith),
      ),
      λ (on, may, unmatched, canonical, below).
          ground (arith, check_forbidden_complete patterns target unmatched),
    )

-- A call for an absolute path with a component NAME never gets a path, where the policy lists
-- `**/NAME/**`.
pub validate_path_forbids :
    (fs : FileSystem) (lease : EffectiveLease) (workspace_root requested_path : Text) (write : Bool)
    (policy : SecurityPolicy) (name root p : Text)
    → set_contains policy.workspace.forbidden_patterns (below_directory name) ≡ true
    → fs.canonicalize workspace_root ≡ ok root
    → is_absolute (target_of root requested_path) ≡ true
    → any (component_eq (normal name)) (components (target_of root requested_path)) ≡ true
    → validate_path fs lease workspace_root requested_path write policy ≢ ok p
unfolding validate_path
validate_path_forbids fs lease workspace_root requested_path write policy name root p listed at abs
      inside h =
    forbidden_component policy.workspace.forbidden_patterns name (target_of root requested_path)
      listed abs inside (ground arith)
