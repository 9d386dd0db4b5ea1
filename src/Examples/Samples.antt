-- ===== src/Examples/Samples.antt =====
-- JSON values, a policy and a manifest for the examples.
use ai_garage.Common.{
  ℕ, zero, suc, Bool, true, false, List, [], ◌∷◌, Option, none, some, Text, text, lookup,
}
use ai_garage.Json.{Json}
use ai_garage.Manifest.{PluginManifest, PluginMeta, native}
use ai_garage.Policy.{SecurityPolicy, PluginPolicyOverride, default_security_policy, whitelist_only}
use ai_garage.Attenuation.{EffectiveLease}

mutual
  pub data Value : Type 0 where
    null : Value
    bool : Bool → Value
    number : ℕ → Value
    string : Text → Value
    array : Values → Value
    object : Values → Value

  -- A list of values with their keys; an array's are empty.
  pub data Values : Type 0 where
    no_values : Values
    field : Text → Value → Values → Values

unfoldable pub to_fields : List (Text × Value) → Values
to_fields [] = no_values
to_fields ((k, v) ∷ rest) = field k v (to_fields rest)

unfoldable pub of_fields : Values → List (Text × Value)
of_fields no_values = []
of_fields (field k v rest) = (k, v) ∷ of_fields rest

unfoldable pub to_items : List Value → Values
to_items [] = no_values
to_items (v ∷ rest) = field [] v (to_items rest)

unfoldable pub of_items : Values → List Value
of_items no_values = []
of_items (field k v rest) = v ∷ of_items rest

unfoldable pub item : List Value → ℕ → Option Value
item [] n = none
item (v ∷ vs) zero = some v
item (v ∷ vs) (suc n) = item vs n

unfoldable pub get_field : Value → Text → Option Value
get_field (object vs) k = lookup k (of_fields vs)
get_field _ k = none

unfoldable pub get_item : Value → ℕ → Option Value
get_item (array vs) n = item (of_items vs) n
get_item _ n = none

abbrev pub values : Json
values = record {
  Value = Value;
  null = null;
  bool = bool;
  number = number;
  string = string;
  array = λ vs. array (to_items vs);
  object = λ vs. object (to_fields vs);
  get = get_field;
  get_index = get_item;
  as_str = elim [ string s ↦ some s | _ ↦ none ];
  as_bool = elim [ bool b ↦ some b | _ ↦ none ];
  as_array = elim [ array vs ↦ some (of_items vs) | _ ↦ none ];
  as_u64 = elim [ number n ↦ some n | _ ↦ none ];
  to_string = elim [ string s ↦ s | _ ↦ text "null" ];
  from_str = λ s. some (string s);
}

abbrev pub search_domain : Text
search_domain = text "api.example.com"

abbrev pub searcher_id : Text
searcher_id = text "searcher"

-- The override of the plugin in the policy.
abbrev pub searcher_override : PluginPolicyOverride
searcher_override = record {
  enabled = true;
  network_override = none;
  allow_filesystem = none;
  allow_process_spawn = none;
  allowed_binaries = some (text "git" ∷ []);
  secrets = (text "KEY", text "vault:api_key") ∷ [];
}

abbrev pub sample_policy : SecurityPolicy
sample_policy = record default_security_policy {
  network = record {
    mode = whitelist_only;
    global_allowed_domains = search_domain ∷ [];
    blacklisted_domains = text "*.bad.com" ∷ [];
  };
  workspace = record {
    root = text ".";
    allow_absolute_paths_outside_root = false;
    forbidden_patterns = text "**/.git/**" ∷ [];
  };
  human_in_the_loop = record {
    require_confirmation_for = text "web:fetch" ∷ [];
    critical_command_patterns = text "rm -rf *" ∷ [];
  };
  plugins = (searcher_id, searcher_override) ∷ [];
}

abbrev pub sample_meta : PluginMeta
sample_meta = record {
  id = searcher_id;
  name = text "Searcher";
  version = text "1.0.0";
  description = text "";
  author = text "";
  license = text "";
  homepage = text "";
}

abbrev pub sample_manifest : PluginManifest
sample_manifest = record {
  plugin = sample_meta;
  entrypoint = record {
    runtime = native;
    executable = text "bin/searcher";
    args = [];
    env_passthrough = [];
  };
  capabilities_offered =
      record { id = text "web"; version = text "1"; methods = []; schema_file = none } ∷ [];
  capabilities_required = record { id = text "storage"; optional = false } ∷ [];
  permissions = record {
    network = record {
      allow_outbound = true;
      allowed_domains = text "API.example.com" ∷ [];
      listen_ports = [];
    };
    filesystem = record { read_scopes = text "workspace" ∷ []; write_scopes = [] };
    process = record { can_spawn_children = true; allowed_binaries = text "git" ∷ text "sh" ∷ [] };
  };
  hooks = [];
}

abbrev pub sample_lease : EffectiveLease
sample_lease = record {
  plugin_id = searcher_id;
  enabled = true;
  allowed_domains = search_domain ∷ [];
  allow_filesystem_read = true;
  allow_filesystem_write = false;
  can_spawn_processes = true;
  allowed_binaries = text "git" ∷ [];
  secrets = (text "KEY", text "vault:api_key") ∷ [];
}
