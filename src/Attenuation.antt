-- ===== src/Attenuation.antt =====
-- crates/chassis-core/src/attenuation.rs: the lease of a plugin, computed from its manifest and the
-- policy of the host, and the checks of a call against it. `Glob` and `Sandbox` hold the checks of
-- paths, the other modules below hold proofs.
pub mod Glob
pub mod Sandbox
pub mod Domains
pub mod Grants
pub mod Approval
use ai_garage.Common.{
  Bool, true, false, not, ◌&&◌, ◌||◌, List, [], ◌∷◌, ◌++◌, reverse, Option, none, some, Text, text,
  text_eq, strip_prefix, contains, trim, trim_start, to_lowercase, any, keep, Dict, set_contains,
  set_insert, lookup, unwrap_or, Result, ok, err, if◌then◌else◌, require, ◌>>=◌, ◌>>◌, ◌==◌,
}
use ai_garage.Error.{CoreError, policy_violation}
use ai_garage.Manifest.{PluginManifest}
use ai_garage.Policy.{
  SecurityPolicy, PluginPolicyOverride, NetworkMode, airgapped, whitelist_only, unrestricted,
  is_domain_blacklisted,
}

pub record EffectiveLease : Type 0 where
  pub plugin_id : Text
  pub enabled : Bool
  pub allowed_domains : List Text
  pub allow_filesystem_read : Bool
  pub allow_filesystem_write : Bool
  pub can_spawn_processes : Bool
  pub allowed_binaries : List Text
  pub secrets : Dict Text

-- `EffectiveLease::default()`
abbrev pub default_lease : EffectiveLease
default_lease = record {
  plugin_id = [];
  enabled = false;
  allowed_domains = [];
  allow_filesystem_read = false;
  allow_filesystem_write = false;
  can_spawn_processes = false;
  allowed_binaries = [];
  secrets = [];
}

-- Network attenuation: the loop of the mode `Unrestricted`.
unfoldable pub unrestricted_domains : SecurityPolicy → List Text → List Text → List Text
unrestricted_domains p [] acc = acc
unrestricted_domains p (domain ∷ rest) acc =
    unrestricted_domains p rest
      (if is_domain_blacklisted p domain then acc else set_insert (to_lowercase domain) acc)

unfoldable pub in_global_whitelist : SecurityPolicy → Text → Bool
in_global_whitelist p d_lower =
    any (λ g. text_eq (to_lowercase g) d_lower) p.network.global_allowed_domains

-- The loop of the mode `WhitelistOnly`.
unfoldable pub whitelisted_domains : SecurityPolicy → List Text → List Text → List Text
whitelisted_domains p [] acc = acc
whitelisted_domains p (domain ∷ rest) acc =
    let d_lower = to_lowercase domain in
    whitelisted_domains p rest (
      if in_global_whitelist p d_lower && not (is_domain_blacklisted p d_lower)
      then set_insert d_lower acc
      else acc)

-- The domains that are looked at in the mode `WhitelistOnly`.
unfoldable pub candidates : PluginManifest → Option PluginPolicyOverride → List Text
candidates m none = m.permissions.network.allowed_domains
candidates m (some o) = unwrap_or o.network_override m.permissions.network.allowed_domains

unfoldable pub domains_of :
    PluginManifest → SecurityPolicy → Option PluginPolicyOverride → NetworkMode → List Text
domains_of m p o airgapped = []
domains_of m p o unrestricted =
    if m.permissions.network.allow_outbound
    then unrestricted_domains p m.permissions.network.allowed_domains []
    else []
domains_of m p o whitelist_only =
    if m.permissions.network.allow_outbound then whitelisted_domains p (candidates m o) [] else []

-- An optional field of an override that may be missing.
unfoldable pub override_field {ℓ} :
    {A : Type ℓ} → (PluginPolicyOverride → Option A) → Option PluginPolicyOverride → Option A
override_field f none = none
override_field f (some o) = f o

unfoldable pub has_scope : List Text → Bool
has_scope scopes = any (λ s. text_eq s (text "workspace") || text_eq s (text "temp")) scopes

unfoldable pub filesystem_allowed : Option PluginPolicyOverride → Bool
unfolding override_field
filesystem_allowed o = unwrap_or (override_field (λ v. v.allow_filesystem) o) true

unfoldable pub spawn_allowed : PluginManifest → Option PluginPolicyOverride → Bool
unfolding override_field
spawn_allowed m o =
    unwrap_or (override_field (λ v. v.allow_process_spawn) o)
      m.permissions.process.can_spawn_children
    && m.permissions.process.can_spawn_children

-- `iter().cloned().collect::<HashSet<String>>()`
unfoldable pub collect_set : List Text → List Text
collect_set [] = []
collect_set (x ∷ xs) = set_insert x (collect_set xs)

unfoldable pub binaries_of : PluginManifest → Option PluginPolicyOverride → List Text
binaries_of m o =
    let manifest_binaries = collect_set m.permissions.process.allowed_binaries in
    elim (override_field (λ v. v.allowed_binaries) o) [
      | none ↦ manifest_binaries
      | some policy_binaries ↦
          collect_set (keep (set_contains (collect_set policy_binaries)) manifest_binaries)
    ]

unfoldable pub enabled_of : Option PluginPolicyOverride → Bool
enabled_of none = true
enabled_of (some o) = o.enabled

unfoldable pub secrets_of : Option PluginPolicyOverride → Dict Text
secrets_of none = []
secrets_of (some o) = o.secrets

-- The lease of a plugin that is not disabled.
unfoldable pub enabled_lease :
    PluginManifest → SecurityPolicy → Text → Option PluginPolicyOverride → EffectiveLease
enabled_lease m p plugin_id o = record {
  plugin_id = plugin_id;
  enabled = true;
  allowed_domains = domains_of m p o p.network.mode;
  allow_filesystem_read = filesystem_allowed o && has_scope m.permissions.filesystem.read_scopes;
  allow_filesystem_write = filesystem_allowed o && has_scope m.permissions.filesystem.write_scopes;
  can_spawn_processes = spawn_allowed m o;
  allowed_binaries = if spawn_allowed m o then binaries_of m o else [];
  secrets = secrets_of o;
}

unfoldable pub compute : PluginManifest → SecurityPolicy → Text → EffectiveLease
unfolding enabled_lease
compute m p plugin_id =
    let plugin_override = lookup plugin_id p.plugins in
    if not (enabled_of plugin_override)
    then record default_lease { plugin_id = plugin_id; enabled = false }
    else enabled_lease m p plugin_id plugin_override

-- "vault:"
abbrev pub vault_prefix : Text
vault_prefix = b'v' ∷ b'a' ∷ b'u' ∷ b'l' ∷ b't' ∷ b':' ∷ []

-- A secret that refers to a key of the vault becomes the value there, if there is one.
unfoldable pub resolve : Dict Text → Text → Text
resolve vault val = elim (strip_prefix val vault_prefix) [
  | none ↦ val
  | some vault_key ↦ unwrap_or (lookup vault_key vault) val
]

unfoldable pub resolve_values : Dict Text → Dict Text → Dict Text
resolve_values vault [] = []
resolve_values vault ((k, val) ∷ rest) = (k, resolve vault val) ∷ resolve_values vault rest

unfoldable pub resolve_secrets : Dict Text → EffectiveLease → EffectiveLease
resolve_secrets vault lease = record lease { secrets = resolve_values vault lease.secrets }

unfoldable pub disabled_message : Text → Text
disabled_message plugin_id = text "Plugin '" ++ plugin_id ++ text "' is disabled by policy"

unfoldable pub network_message : Text → Text → Text
network_message domain plugin_id =
    text "Network access to domain '"
    ++ domain
    ++ text "' is not permitted for plugin '"
    ++ plugin_id
    ++ text "'"

unfoldable pub validate_network : EffectiveLease → Text → Result CoreError (Unit {0})
validate_network lease domain = do
  require lease.enabled (policy_violation (disabled_message lease.plugin_id))
  require (set_contains lease.allowed_domains (to_lowercase domain))
      (policy_violation (network_message domain lease.plugin_id))

unfoldable pub spawn_message : Text → Text
spawn_message plugin_id =
    text "Process spawning is not permitted for plugin '" ++ plugin_id ++ text "'"

unfoldable pub binary_message : Text → Text → Text
binary_message binary plugin_id =
    text "Execution of binary '"
    ++ binary
    ++ text "' is not in the allowed list for plugin '"
    ++ plugin_id
    ++ text "'"

unfoldable pub validate_process : EffectiveLease → Text → Result CoreError (Unit {0})
validate_process lease binary = do
  require lease.can_spawn_processes (policy_violation (spawn_message lease.plugin_id))
  require (set_contains lease.allowed_binaries binary)
      (policy_violation (binary_message binary lease.plugin_id))

-- `trim_end_matches('*')`
unfoldable pub drop_stars : Text → Text
drop_stars [] = []
drop_stars (c ∷ s) = if c == b'*' then drop_stars s else c ∷ s

unfoldable pub clean_pattern : Text → Text
clean_pattern s = trim (reverse (drop_stars (reverse s)))

unfoldable pub is_critical : SecurityPolicy → Option Text → Bool
is_critical p none = false
is_critical p (some cmd) =
    let cmd_lower = to_lowercase cmd in
    any (λ s. contains cmd_lower (clean_pattern s)) p.human_in_the_loop.critical_command_patterns

unfoldable pub check_hitl_requirement : SecurityPolicy → Text → Option Text → Bool
check_hitl_requirement p action command =
    any (λ r. text_eq r action) p.human_in_the_loop.require_confirmation_for
    || is_critical p command
