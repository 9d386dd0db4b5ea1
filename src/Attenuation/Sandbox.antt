-- ===== src/Attenuation/Sandbox.antt =====
-- crates/chassis-core/src/attenuation.rs: `normalize_path` and `EffectiveLease::validate_path`.
-- The file system is a parameter: its answers for one call.
pub mod Normalizing
pub mod Confinement
use ai_garage.Common.{
  Bool, true, false, not, ◌&&◌, List, [], ◌∷◌, ◌++◌, Option, none, some, Text, text, Result, ok,
  err, ◌>>=◌, ◌>>◌, require, if◌then◌else◌, unwrap_or, ok_or,
}
use mathlib.Core.List.{foldl}
use ai_garage.Error.{CoreError, policy_violation, path_escape_detected, io, Fault, failed, panic}
use ai_garage.Policy.{SecurityPolicy}
use ai_garage.Paths.{
  Component, root_dir, cur_dir, parent_dir, normal, components, slash, is_absolute, join, parent,
  pop, file_name, path_starts_with, FileSystem,
}
use ai_garage.Attenuation.{EffectiveLease, disabled_message}
use ai_garage.Attenuation.Glob.{check_forbidden}

-- One round of the loop of `normalize_path`.
unfoldable pub push_component : Text → Component → Text
push_component out root_dir = join out slash
push_component out cur_dir = out
push_component out parent_dir = pop out
push_component out (normal c) = join out c

unfoldable pub normalize_path : Text → Text
normalize_path path = foldl push_component [] (components path)

unfoldable pub write_message : Text → Text
write_message plugin_id =
    text "Filesystem write access is not permitted for plugin '" ++ plugin_id ++ text "'"

unfoldable pub read_message : Text → Text
read_message plugin_id =
    text "Filesystem read access is not permitted for plugin '" ++ plugin_id ++ text "'"

unfoldable pub root_message : Text → Text → Text
root_message root e = text "Failed to canonicalize workspace root '" ++ root ++ text "': " ++ e

-- `map_err` on the text of an error
abbrev pub map_err {ℓ} : {A : Type ℓ} → (Text → CoreError) → Result Text A → Result Fault A
map_err f (ok a) = ok a
map_err f (err e) = err (failed (f e))

-- `if !b { return Err(e) }`
abbrev pub refuse_unless : Bool → CoreError → Result Fault (Unit {0})
refuse_unless b e = require b (failed e)

-- Resolve the target relative to the root, if it is not absolute.
unfoldable pub target_of : Text → Text → Text
target_of canonical_root requested_path =
    if is_absolute requested_path then requested_path else join canonical_root requested_path

module _ (fs : FileSystem) where
  -- The target exists: its canonical path has to lie below the root.
  unfoldable pub check_existing : Text → Text → Result Fault Text
  check_existing root target = do
    canonical_target ← map_err io (fs.canonicalize target)
    refuse_unless (path_starts_with canonical_target root)
        (path_escape_detected canonical_target root)
    ok canonical_target

  -- A new file in a directory that exists.
  unfoldable pub check_new_file : Text → Text → Text → Result Fault Text
  check_new_file root target dir = do
    canonical_parent ← map_err io (fs.canonicalize dir)
    refuse_unless (path_starts_with canonical_parent root) (path_escape_detected target root)
    name ← ok_or (file_name target) (failed (policy_violation (text "Invalid target file path")))
    ok (join canonical_parent name)

  -- Neither the target nor its directory exists.
  unfoldable pub check_lexical : Text → Text → Result Fault Text
  check_lexical root target = do
    refuse_unless (path_starts_with (normalize_path target) root)
        (path_escape_detected (normalize_path target) root)
    ok (normalize_path target)

  unfoldable pub check_target : Text → Text → Result Fault Text
  check_target root target =
      if fs.exists target
      then check_existing root target
      else let dir = unwrap_or (parent target) root in
        if fs.exists dir then check_new_file root target dir else check_lexical root target

  unfoldable pub validate_path :
      EffectiveLease → Text → Text → Bool → SecurityPolicy → Result Fault Text
  validate_path lease workspace_root requested_path write policy = do
    refuse_unless lease.enabled (policy_violation (disabled_message lease.plugin_id))
    refuse_unless (not (write && not lease.allow_filesystem_write))
        (policy_violation (write_message lease.plugin_id))
    refuse_unless (not (not write && not lease.allow_filesystem_read))
        (policy_violation (read_message lease.plugin_id))
    root ←
        map_err (λ e. policy_violation (root_message workspace_root e))
          (fs.canonicalize workspace_root)
    check_forbidden policy.workspace.forbidden_patterns (target_of root requested_path)
    check_target root (target_of root requested_path)
