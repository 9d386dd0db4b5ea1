-- ===== src/Policy.antt =====
-- crates/chassis-core/src/policy.rs: `security_policy.toml`.
pub mod Blacklist
use ai_garage.Common.{
  Bool, true, false, List, [], ◌∷◌, Option, none, some, ◌||◌, Text, text, text_eq, strip_prefix,
  ends_with, to_lowercase, any, Dict, Result, ok, err,
}
use ai_garage.Error.{CoreError, toml}

pub data NetworkMode : Type 0 where
  airgapped whitelist_only unrestricted : NetworkMode

-- The default of `NetworkMode`.
abbrev pub default_mode : NetworkMode
default_mode = whitelist_only

pub record PolicyMeta : Type 0 where
  pub version : Text
  pub default_action : Text
  pub enforce_strict_workspaces : Bool

abbrev pub default_policy_version : Text
default_policy_version = text "1.0.0"

abbrev pub default_deny_action : Text
default_deny_action = text "deny"

abbrev pub default_policy_meta : PolicyMeta
default_policy_meta = record {
  version = default_policy_version;
  default_action = default_deny_action;
  enforce_strict_workspaces = true;
}

pub record WorkspacePolicy : Type 0 where
  pub root : Text
  pub allow_absolute_paths_outside_root : Bool
  pub forbidden_patterns : List Text

unfoldable pub default_forbidden_patterns : List Text
default_forbidden_patterns =
    text "**/.git/**"
    ∷ text "**/.env*"
    ∷ text "**/id_rsa*"
    ∷ text "**/*.pem"
    ∷ text "**/secrets/**"
    ∷ text "/etc/**"
    ∷ text "/var/**"
    ∷ text "/proc/**"
    ∷ []

abbrev pub default_workspace_policy : WorkspacePolicy
default_workspace_policy = record {
  root = text ".";
  allow_absolute_paths_outside_root = false;
  forbidden_patterns = default_forbidden_patterns;
}

unfoldable pub default_global_allowed_domains : List Text
default_global_allowed_domains =
    text "localhost"
    ∷ text "127.0.0.1"
    ∷ text "0.0.0.0"
    ∷ text "api.duckduckgo.com"
    ∷ text "html.duckduckgo.com"
    ∷ text "duckduckgo.com"
    ∷ text "en.wikipedia.org"
    ∷ text "wikipedia.org"
    ∷ []

pub record NetworkPolicy : Type 0 where
  pub mode : NetworkMode
  pub global_allowed_domains : List Text
  pub blacklisted_domains : List Text

abbrev pub default_network_policy : NetworkPolicy
default_network_policy = record {
  mode = default_mode;
  global_allowed_domains = default_global_allowed_domains;
  blacklisted_domains = [];
}

pub record HitlPolicy : Type 0 where
  pub require_confirmation_for : List Text
  pub critical_command_patterns : List Text

abbrev pub default_hitl_policy : HitlPolicy
default_hitl_policy = record { require_confirmation_for = []; critical_command_patterns = [] }

pub record PluginPolicyOverride : Type 0 where
  pub enabled : Bool
  pub network_override : Option (List Text)
  pub allow_filesystem : Option Bool
  pub allow_process_spawn : Option Bool
  pub allowed_binaries : Option (List Text)
  pub secrets : Dict Text

pub record SecurityPolicy : Type 0 where
  pub policy : PolicyMeta
  pub workspace : WorkspacePolicy
  pub network : NetworkPolicy
  pub human_in_the_loop : HitlPolicy
  pub plugins : Dict PluginPolicyOverride

-- `SecurityPolicy::default()`
abbrev pub default_security_policy : SecurityPolicy
default_security_policy = record {
  policy = default_policy_meta;
  workspace = default_workspace_policy;
  network = default_network_policy;
  human_in_the_loop = default_hitl_policy;
  plugins = [];
}

-- `parse` is `toml::from_str`; its error is given by its text.
unfoldable pub from_toml :
    (Text → Result Text SecurityPolicy) → Text → Result CoreError SecurityPolicy
from_toml parse content = elim (parse content) [ err e ↦ err (toml e) | ok p ↦ ok p ]

-- "*."
abbrev pub wildcard : Text
wildcard = b'*' ∷ b'.' ∷ []

unfoldable pub pattern_blocks : Text → Text → Bool
pattern_blocks d pattern_text = elim (strip_prefix pattern_text wildcard) [
  | some suffix ↦ ends_with d suffix || text_eq d suffix
  | none ↦ text_eq d (to_lowercase pattern_text)
]

unfoldable pub is_domain_blacklisted : SecurityPolicy → Text → Bool
is_domain_blacklisted p domain =
    let d = to_lowercase domain in any (pattern_blocks d) p.network.blacklisted_domains
