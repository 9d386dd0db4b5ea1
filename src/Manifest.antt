-- ===== src/Manifest.antt =====
-- crates/chassis-core/src/manifest.rs: `plugin.toml`. The parser of the crate toml is a parameter,
-- which gives the fields that are left out the defaults that the source names.
pub mod Validation
use ai_garage.Common.{
  ℕ, Bool, true, false, List, [], ◌∷◌, Option, Text, text, trim, not, Result, ok, err, ◌>>=◌, ◌>>◌,
  require,
}
use ai_garage.Int.{ℤ, pos}
use ai_garage.Error.{CoreError, manifest_parse, toml}

pub data RuntimeType : Type 0 where
  native script wasm : RuntimeType

pub record PluginMeta : Type 0 where
  pub id : Text
  pub name : Text
  pub version : Text
  pub description : Text
  pub author : Text
  pub license : Text
  pub homepage : Text

pub record EntrypointConfig : Type 0 where
  pub runtime : RuntimeType
  pub executable : Text
  pub args : List Text
  pub env_passthrough : List Text

pub record OfferedCapability : Type 0 where
  pub id : Text
  pub version : Text
  pub methods : List Text
  pub schema_file : Option Text

pub record RequiredCapability : Type 0 where
  pub id : Text
  pub optional : Bool

pub record NetworkPermissions : Type 0 where
  pub allow_outbound : Bool
  pub allowed_domains : List Text
  pub listen_ports : List ℕ

pub record FilesystemPermissions : Type 0 where
  pub read_scopes : List Text
  pub write_scopes : List Text

pub record ProcessPermissions : Type 0 where
  pub can_spawn_children : Bool
  pub allowed_binaries : List Text

pub record PermissionsConfig : Type 0 where
  pub network : NetworkPermissions
  pub filesystem : FilesystemPermissions
  pub process : ProcessPermissions

pub record HookDeclaration : Type 0 where
  pub event : Text
  pub priority : ℤ

abbrev pub default_hook_priority : ℤ
default_hook_priority = pos 50

pub record PluginManifest : Type 0 where
  pub plugin : PluginMeta
  pub entrypoint : EntrypointConfig
  pub capabilities_offered : List OfferedCapability
  pub capabilities_required : List RequiredCapability
  pub permissions : PermissionsConfig
  pub hooks : List HookDeclaration

-- `is_empty()`
abbrev pub is_empty : Text → Bool
is_empty [] = true
is_empty (c ∷ s) = false

unfoldable pub validate : PluginManifest → Result CoreError (Unit {0})
validate m = do
  require (not (is_empty (trim m.plugin.id))) (manifest_parse (text "Plugin ID cannot be empty"))
  require (not (is_empty (trim m.plugin.name)))
      (manifest_parse (text "Plugin name cannot be empty"))
  require (not (is_empty (trim m.plugin.version)))
      (manifest_parse (text "Plugin version cannot be empty"))
  require (not (is_empty m.entrypoint.executable))
      (manifest_parse (text "Entrypoint executable path cannot be empty"))

-- `parse` is `toml::from_str`; its error is given by its text.
unfoldable pub from_toml :
    (Text → Result Text PluginManifest) → Text → Result CoreError PluginManifest
from_toml parse content = elim (parse content) [
  | err e ↦ err (toml e)
  | ok m ↦ (validate m >>= λ _. ok m)
]
