-- ===== src/Attenuation/Grants.antt =====
-- Files, processes, binaries and secrets of a lease.
use ai_garage.Common.{
  ◌≡◌, refl, ◌↔◌, inl, inr, Bool, true, false, ◌&&◌, List, [], ◌∷◌, ◌++◌, Option, none, some, Text,
  text_eq_iff, keep, set_contains, set_contains-insert, Dict, lookup, ok, err, Option-cases, arith,
  unwrap_or, strip_prefix,
}
use ai_garage.Error.{policy_violation}
use ai_garage.Manifest.{PluginManifest}
use ai_garage.Policy.{SecurityPolicy, PluginPolicyOverride}
use ai_garage.Attenuation.{
  EffectiveLease, has_scope, filesystem_allowed, spawn_allowed, override_field, collect_set,
  binaries_of, enabled_of, compute, validate_network, validate_process, disabled_message,
  spawn_message, vault_prefix, resolve, resolve_values, resolve_secrets,
}

contains-collect : (xs : List Text) (x : Text) → set_contains (collect_set xs) x ≡ set_contains xs x
unfolding collect_set set_contains
contains-collect [] x = refl
contains-collect (y ∷ ys) x =
    ground (arith, set_contains-insert y x (collect_set ys), contains-collect ys x)

contains-keep :
    (p : Text → Bool) (xs : List Text) (x : Text)
    → set_contains (keep p xs) x ≡ (p x && set_contains xs x)
unfolding set_contains
contains-keep p [] x = ground arith
contains-keep p (y ∷ ys) x = ground (arith, contains-keep p ys x, text_eq_iff y x)

-- The binaries that the policy leaves: all, where it names none.
abbrev pub policy_allows : Option PluginPolicyOverride → Text → Bool
policy_allows none b = true
policy_allows (some o) b = elim o.allowed_binaries [ none ↦ true | some bs ↦ set_contains bs b ]

contains-binaries :
    (m : PluginManifest) (o : Option PluginPolicyOverride) (b : Text)
    → set_contains (binaries_of m o) b
      ≡ (set_contains m.permissions.process.allowed_binaries b && policy_allows o b)
unfolding binaries_of override_field
contains-binaries m none b =
    ground (arith, contains-collect m.permissions.process.allowed_binaries b)
contains-binaries m (some o) b = elim (Option-cases o.allowed_binaries) [
  | inl e ↦ rw e (ground (arith, contains-collect m.permissions.process.allowed_binaries b))
  | inr (bs, e) ↦
      let both =
        keep (set_contains (collect_set bs)) (collect_set m.permissions.process.allowed_binaries) in
      rw e (
        ground (
          arith,
          contains-collect both b,
          contains-keep (set_contains (collect_set bs))
              (collect_set m.permissions.process.allowed_binaries) b,
          contains-collect bs b,
          contains-collect m.permissions.process.allowed_binaries b,
        ))
]

-- The policy does not forbid child processes to the plugin.
abbrev pub spawning_left : Option PluginPolicyOverride → Bool
spawning_left none = true
spawning_left (some o) = unwrap_or o.allow_process_spawn true

-- A process call passes exactly when the plugin is not disabled, the manifest asks for child
-- processes and for this binary, and the policy forbids neither.
pub validate_process_iff :
    (m : PluginManifest) (p : SecurityPolicy) (id b : Text)
    → (validate_process (compute m p id) b ≡ ok tt) ↔ (
        (enabled_of (lookup id p.plugins)
          && spawning_left (lookup id p.plugins)
          && m.permissions.process.can_spawn_children
          && set_contains m.permissions.process.allowed_binaries b
          && policy_allows (lookup id p.plugins) b)
        ≡ true)
unfolding validate_process compute spawn_allowed enabled_of set_contains
validate_process_iff m p id b = elim (Option-cases (lookup id p.plugins)) [
  | inl e ↦ rw e (
    λ h. ground (arith, contains-binaries m none b),
    λ h. ground (arith, contains-binaries m none b),
  )
  | inr (o, e) ↦ rw e (
    λ h. ground (arith, contains-binaries m (some o) b),
    λ h. ground (arith, contains-binaries m (some o) b),
  )
]

-- The filesystem part of a lease, read as data.
abbrev pub files_left : Option PluginPolicyOverride → Bool
files_left none = true
files_left (some o) = unwrap_or o.allow_filesystem true

-- Reading and writing are granted exactly when the plugin is not disabled, the policy leaves it the
-- file system and the manifest names a scope for the access.
pub compute_filesystem :
    (m : PluginManifest) (p : SecurityPolicy) (id : Text)
    → let o = lookup id p.plugins in
      ((compute m p id).allow_filesystem_read
        ≡ (enabled_of o && files_left o && has_scope m.permissions.filesystem.read_scopes))
      × ((compute m p id).allow_filesystem_write
          ≡ (enabled_of o && files_left o && has_scope m.permissions.filesystem.write_scopes))
unfolding compute filesystem_allowed enabled_of
compute_filesystem m p id = elim (Option-cases (lookup id p.plugins)) [
  | inl e ↦ rw e (ground arith, ground arith)
  | inr (o, e) ↦ rw e (ground arith, ground arith)
]

-- A disabled plugin is refused every domain and every binary.
pub disabled_refuses :
    (m : PluginManifest) (p : SecurityPolicy) (id domain binary : Text)
    → enabled_of (lookup id p.plugins) ≡ false
    → (validate_network (compute m p id) domain ≡ err (policy_violation (disabled_message id)))
      × (validate_process (compute m p id) binary ≡ err (policy_violation (spawn_message id)))
unfolding compute validate_network validate_process
disabled_refuses m p id domain binary h = (ground arith, ground arith)

lookup-resolve_values :
    (vault secrets : Dict Text) (k : Text)
    → lookup k (resolve_values vault secrets)
      ≡ elim (lookup k secrets) [ none ↦ none | some v ↦ some (resolve vault v) ]
unfolding resolve_values lookup
lookup-resolve_values vault [] k = refl
lookup-resolve_values vault ((j, v) ∷ rest) k = ground (arith, lookup-resolve_values vault rest k)

-- After the injection a secret that refers to a key of the vault has the value of that key, or
-- stays a reference where the vault lacks the key. The rest of the lease does not change.
pub resolve_secrets_lem :
    (vault : Dict Text) (lease : EffectiveLease) (k key : Text)
    → lookup k lease.secrets ≡ some (vault_prefix ++ key)
    → (lookup k (resolve_secrets vault lease).secrets
        ≡ some (unwrap_or (lookup key vault) (vault_prefix ++ key)))
      × (record (resolve_secrets vault lease) { secrets = lease.secrets } ≡ lease)
unfolding resolve_secrets resolve strip_prefix
resolve_secrets_lem vault lease k key h =
    (rw (lookup-resolve_values vault lease.secrets k, h) refl, refl)
