-- ===== src/Process/Spawning.antt =====
-- crates/chassis-core/src/process.rs: which program a plugin starts as, and with which environment.
-- The host's environment, its own program and its file system are parameters.
use ai_garage.Common.{
  not, List, [], ◌∷◌, ◌++◌, Option, none, some, Text, text, Dict, insert, Result, ok, err,
  if◌then◌else◌,
}
use ai_garage.Error.{CoreError, policy_violation}
use ai_garage.Manifest.{PluginManifest}
use ai_garage.Paths.{FileSystem, is_absolute, join, file_name, parent}
use ai_garage.Attenuation.{EffectiveLease}

pub record Host : Type 0 where
  pub files : FileSystem
  -- `std::env::var(name).ok()` and `std::env::current_exe().ok()`
  pub var : Text → Option Text
  pub current_exe : Option Text

-- What `Command` is told.
pub record Command : Type 0 where
  pub program : Text
  pub args : List Text
  pub current_dir : Text
  pub env : Dict Text

-- The program's name in the directory above that of the running program.
unfoldable pub beside_current : Host → Text → Option Text
unfolding parent join
beside_current host name = elim host.current_exe [
  | none ↦ none
  | some current_exe ↦ elim (parent current_exe) [
    | none ↦ none
    | some dir ↦ elim (parent dir) [
      | none ↦ none
      | some target_dir ↦
          let path = join target_dir name in if host.files.exists path then some path else none
    ]
  ]
]

-- The places where a build of the workspace leaves the program.
unfoldable pub built : Host → Text → Text → Text → Text
unfolding beside_current
built host workspace_root direct name =
    let target_debug = join (join workspace_root (text "target/debug")) name in
    let target_release = join (join workspace_root (text "target/release")) name in
    if host.files.exists target_debug
    then target_debug
    else if host.files.exists target_release
    then target_release
    else elim (beside_current host name) [ none ↦ direct | some path ↦ path ]

unfoldable pub exec_path : Host → Text → Text → Text → Text
unfolding built is_absolute join file_name
exec_path host workspace_root plugin_dir executable =
    let direct = join plugin_dir executable in
    if is_absolute executable
    then executable
    else if host.files.exists direct
    then direct
    else elim (file_name executable) [
      | none ↦ direct
      | some name ↦ built host workspace_root direct name
    ]

-- The variable of the host under its name, if it is set.
unfoldable pub pass : Host → Text → Dict Text → Dict Text
unfolding insert
pass host name env = elim (host.var name) [ none ↦ env | some value ↦ insert name value env ]

unfoldable pub pass_all : Host → List Text → Dict Text → Dict Text
unfolding pass
pass_all host [] env = env
pass_all host (name ∷ names) env = pass_all host names (pass host name env)

-- The secrets, one after the other; the order in which a `HashMap` gives them does not matter.
unfoldable pub inject : Dict Text → Dict Text → Dict Text
unfolding insert
inject [] env = env
inject ((name, value) ∷ secrets) env = insert name value (inject secrets env)

-- The environment of the plugin, from an empty one.
unfoldable pub child_env : Host → List Text → Dict Text → Dict Text
unfolding pass pass_all inject
child_env host env_passthrough secrets =
    inject secrets (pass_all host env_passthrough (pass host (text "PATH") []))

unfoldable pub not_found_message : Text → Text → Text
not_found_message plugin_id path =
    text "Plugin executable for '"
    ++ plugin_id
    ++ text "' not found. Checked: bundle path '"
    ++ path
    ++ text "' and dev fallback target/debug."

-- `spawn_with_reverse_channel` up to the start of the process.
unfoldable pub prepare :
    Host → PluginManifest → EffectiveLease → Text → Text → Result CoreError Command
unfolding exec_path child_env not_found_message
prepare host manifest lease workspace_root plugin_dir =
    let program = exec_path host workspace_root plugin_dir manifest.entrypoint.executable in
    if not (host.files.exists program)
    then err (
        policy_violation
          (not_found_message manifest.plugin.id (join plugin_dir manifest.entrypoint.executable)))
    else ok (record {
      program = program;
      args = manifest.entrypoint.args;
      current_dir = workspace_root;
      env = child_env host manifest.entrypoint.env_passthrough lease.secrets;
    })
