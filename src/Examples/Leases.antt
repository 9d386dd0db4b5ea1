-- ===== src/Examples/Leases.antt =====
-- Leases, policies, manifests and errors at concrete inputs.
use ai_garage.Common.{
  ◌≡◌, ◌↔◌, refl, true, false, ◌&&◌, [], ◌∷◌, ◌++◌, some, Text, text, to_lowercase, text_eq, all,
  has_upper, lower, trim, trim_start, trim_end, is_whitespace, lookup, set_contains, Result, ok,
}
use ai_garage.Manifest.{PluginManifest}
use ai_garage.Policy.{SecurityPolicy, pattern_blocks, wildcard}
use ai_garage.Policy.Blacklist.{capital_wildcard}
use ai_garage.Attenuation.{
  compute, validate_network, validate_process, vault_prefix, clean_pattern, enabled_of, drop_stars,
}
use ai_garage.Attenuation.Domains.{validate_network_iff, permitted}
use ai_garage.Attenuation.Grants.{validate_process_iff, spawning_left, policy_allows}
use ai_garage.Examples.Samples.{sample_policy, sample_manifest, sample_lease, searcher_id}

validate_network_example :
    (validate_network (compute sample_manifest sample_policy searcher_id) (text "API.Example.com")
      ≡ ok tt)
    ↔ (permitted sample_manifest sample_policy
          (lookup searcher_id sample_policy.plugins)
          (to_lowercase (text "API.Example.com"))
        ≡ true)
validate_network_example =
    validate_network_iff sample_manifest sample_policy searcher_id (text "API.Example.com")

validate_process_example :
    (validate_process (compute sample_manifest sample_policy searcher_id) (text "git") ≡ ok tt) ↔ (
      (enabled_of (lookup searcher_id sample_policy.plugins)
        && spawning_left (lookup searcher_id sample_policy.plugins)
        && sample_manifest.permissions.process.can_spawn_children
        && set_contains sample_manifest.permissions.process.allowed_binaries (text "git")
        && policy_allows (lookup searcher_id sample_policy.plugins) (text "git"))
      ≡ true)
validate_process_example =
    validate_process_iff sample_manifest sample_policy searcher_id (text "git")

key_refers : lookup (text "KEY") sample_lease.secrets ≡ some (vault_prefix ++ text "api_key")
unfolding lookup text_eq text
key_refers = refl

pattern_listed :
    set_contains sample_policy.human_in_the_loop.critical_command_patterns (text "rm -rf *") ≡ true
unfolding set_contains text_eq text
pattern_listed = refl

command_has :
    to_lowercase (text "sudo RM -rf /")
    ≡ text "sudo " ++ clean_pattern (text "rm -rf *") ++ text " /"
unfolding to_lowercase lower clean_pattern trim trim_start trim_end is_whitespace drop_stars text
command_has = refl

abbrev capital_policy : SecurityPolicy
capital_policy = record sample_policy {
  human_in_the_loop = record {
    require_confirmation_for = [];
    critical_command_patterns = text "DROP TABLE" ∷ [];
  };
}

keeps_capital :
    all
      (λ s. has_upper (clean_pattern s))
      capital_policy.human_in_the_loop.critical_command_patterns
    ≡ true
unfolding clean_pattern trim trim_start trim_end is_whitespace drop_stars text
keeps_capital = refl

wildcard_listed :
    set_contains sample_policy.network.blacklisted_domains (wildcard ++ text "bad.com") ≡ true
unfolding set_contains text_eq text
wildcard_listed = refl

no_capital : has_upper (text "bad.com") ≡ false
unfolding text
no_capital = refl

one_capital : has_upper (text "Bad.com") ≡ true
unfolding text
one_capital = refl

capital_wildcard_example :
    pattern_blocks (to_lowercase (text "bad.com")) (wildcard ++ text "Bad.com") ≡ false
capital_wildcard_example = capital_wildcard (text "Bad.com") (text "bad.com") one_capital

abbrev parse_sample : Text → Result Text PluginManifest
parse_sample content = ok sample_manifest
