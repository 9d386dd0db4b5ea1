-- ===== src/Examples/Sandboxes.antt =====
-- Paths, forbidden patterns and cleanup stacks at concrete inputs.
use ai_garage.Common.{
  starts_with, trim_end, trim_start, is_whitespace, ends_with, contains, strip_suffix, split_on, ℕ,
  ◌+◌, ◌*◌, ◌≡◌, ◌≢◌, ◌↔◌, refl, true, false, List, [], ◌∷◌, Text, text, text_eq, trim,
  set_contains, any, if◌then◌else◌, ok, err,
}
use ai_garage.Error.{panic}
use ai_garage.Paths.{
  join, separated, inner, leading, prefix_of, FileSystem, components, is_absolute, normal,
  component_eq, path_starts_with,
}
use ai_garage.Attenuation.Glob.{
  matches_glob_pattern, matches_trimmed, keyword, has_directory, check_forbidden,
}
use ai_garage.Attenuation.Glob.Keyword.{forbidden_component, below_directory}
use ai_garage.Attenuation.Glob.Panic.{glob_panic_iff, overlapping}
use ai_garage.Attenuation.Sandbox.{
  validate_path, check_target, check_existing, normalize_path, target_of,
}
use ai_garage.Attenuation.Sandbox.Normalizing.{components-normalize, resolved, is_clean}
use ai_garage.Attenuation.Sandbox.Confinement.{
  validate_path_sound, validate_path_existing, Unmatched,
}
use ai_garage.Lifo.{new_stack, unwind}
use ai_garage.Lifo.Unwinding.{unwind_order, push_all, run_reversed}
use ai_garage.Examples.Samples.{sample_policy, sample_lease}

-- Every path is canonical and exists.
abbrev pub flat_disk : FileSystem
flat_disk = record { canonicalize = λ p. ok p; exists = λ p. true }

abbrev workspace : Text
workspace = text "/w"

abbrev source_file : Text
source_file = text "/w/src/a.rs"

file_granted :
    validate_path flat_disk sample_lease workspace (text "src/a.rs") false sample_policy
    ≡ ok source_file
unfolding validate_path check_forbidden check_target check_existing matches_glob_pattern
    matches_trimmed starts_with trim trim_end trim_start text is_whitespace ends_with keyword
    has_directory contains target_of is_absolute join separated text_eq strip_suffix components
    inner leading split_on component_eq path_starts_with prefix_of
file_granted = refl

validate_path_example :
    (sample_lease.enabled ≡ true)
    × (sample_lease.allow_filesystem_read ≡ true)
    × (root : Text) × (flat_disk.canonicalize workspace ≡ ok root)
    × (path_starts_with source_file root ≡ true)
    × Unmatched sample_policy.workspace.forbidden_patterns (target_of root (text "src/a.rs"))
validate_path_example =
    validate_path_sound flat_disk sample_lease workspace (text "src/a.rs") false sample_policy
      source_file file_granted

-- A link of the workspace to its repository data.
abbrev linked_disk : FileSystem
linked_disk = record {
  canonicalize = λ p. if text_eq p (text "/w/link") then ok (text "/w/.git/config") else ok p;
  exists = λ p. true;
}

link-Unmatched :
    Unmatched sample_policy.workspace.forbidden_patterns (target_of workspace (text "link"))
unfolding matches_glob_pattern matches_trimmed starts_with trim trim_end trim_start text
    is_whitespace ends_with keyword has_directory contains target_of is_absolute join separated
    text_eq strip_suffix
link-Unmatched = (refl, tt)

link_resolved :
    linked_disk.canonicalize (target_of workspace (text "link")) ≡ ok (text "/w/.git/config")
unfolding target_of is_absolute join separated text_eq text
link_resolved = refl

link_inside : path_starts_with (text "/w/.git/config") workspace ≡ true
unfolding text text_eq components inner leading split_on component_eq path_starts_with prefix_of
link_inside = refl

validate_path_existing_example :
    (validate_path linked_disk sample_lease workspace (text "link") false sample_policy
      ≡ ok (text "/w/.git/config"))
    ↔ ((sample_lease.enabled ≡ true)
        × (sample_lease.allow_filesystem_read ≡ true)
        × Unmatched sample_policy.workspace.forbidden_patterns (target_of workspace (text "link"))
        × (linked_disk.canonicalize (target_of workspace (text "link"))
            ≡ ok (text "/w/.git/config"))
        × (path_starts_with (text "/w/.git/config") workspace ≡ true))
unfolding text_eq text
validate_path_existing_example =
    validate_path_existing linked_disk sample_lease workspace (text "link") false sample_policy
      workspace (text "/w/.git/config") refl refl

-- A link to a forbidden file is followed.
link_granted :
    validate_path linked_disk sample_lease workspace (text "link") false sample_policy
    ≡ ok (text "/w/.git/config")
link_granted =
    validate_path_existing_example.1 (refl, refl, link-Unmatched, link_resolved, link_inside)

git_listed :
    set_contains sample_policy.workspace.forbidden_patterns (below_directory (text ".git")) ≡ true
unfolding set_contains text text_eq
git_listed = refl

git_absolute : is_absolute (target_of workspace (text ".git/config")) ≡ true
unfolding is_absolute target_of join separated text
git_absolute = refl

git_named :
    any
      (component_eq (normal (text ".git")))
      (components (target_of workspace (text ".git/config")))
    ≡ true
unfolding target_of is_absolute join separated text_eq text components inner leading split_on
    component_eq path_starts_with prefix_of
git_named = refl

forbidden_component_example :
    check_forbidden sample_policy.workspace.forbidden_patterns
      (target_of workspace (text ".git/config"))
    ≢ ok tt
forbidden_component_example =
    forbidden_component sample_policy.workspace.forbidden_patterns (text ".git")
      (target_of workspace (text ".git/config")) git_listed git_absolute git_named

glob_panic_example :
    (matches_glob_pattern (text " **/** ") (text "/w/a") ≡ err panic)
    ↔ (trim (text " **/** ") ≡ overlapping)
glob_panic_example = glob_panic_iff (text " **/** ") (text "/w/a")

components-normalize_example :
    (components (normalize_path (text "/w/../etc/./passwd"))
      ≡ resolved (components (text "/w/../etc/./passwd")))
    × (is_clean (components (normalize_path (text "/w/../etc/./passwd"))) ≡ true)
components-normalize_example = components-normalize (text "/w/../etc/./passwd")

-- Two cleanup actions whose order shows in the number.
abbrev actions : List (Text × (ℕ → ℕ))
actions = (text "first", λ n. n + 1) ∷ (text "second", λ n. n * 2) ∷ []

unwind_order_example : unwind (push_all new_stack actions) 5 ≡ (new_stack, run_reversed actions 5)
unwind_order_example = unwind_order actions 5
