-- ===== src/Attenuation/Domains.antt =====
-- Which domains a lease allows: the loops of `compute` against a description without loops.
use ai_garage.Common.{
  ◌≡◌, ap, sym, ◌∙◌, ◌↔◌, inl, inr, Bool, true, false, not, ◌&&◌, ◌||◌, List, [], ◌∷◌, Option, Text,
  text_eq, text_eq_iff, to_lowercase, any, set_contains, set_insert, set_contains-insert, lookup,
  ok, Bool-cases, arith,
}
use ai_garage.Manifest.{PluginManifest}
use ai_garage.Policy.{
  SecurityPolicy, PluginPolicyOverride, NetworkMode, airgapped, whitelist_only, unrestricted,
  is_domain_blacklisted,
}
use ai_garage.Policy.Blacklist.{blacklisted-to_lowercase}
use ai_garage.Attenuation.{
  unrestricted_domains, in_global_whitelist, whitelisted_domains, candidates, domains_of,
  enabled_of, compute, validate_network,
}

-- Some listed domain is `x`, up to its spelling.
abbrev pub requested : List Text → Text → Bool
requested ds x = any (λ d. text_eq (to_lowercase d) x) ds

module _ (p : SecurityPolicy) (x : Text) where
  abbrev clear : Bool
  clear = not (is_domain_blacklisted p x)

  -- A domain is blacklisted as its lower-case spelling is.
  same_verdict :
      (d : Text)
      → text_eq (to_lowercase d) x ≡ true
      → is_domain_blacklisted p d ≡ is_domain_blacklisted p x
  same_verdict d h =
      sym (blacklisted-to_lowercase p d) ∙ ap (is_domain_blacklisted p) ((text_eq_iff _ x).0 h)

  contains-unrestricted :
      (ds acc : List Text)
      → set_contains (unrestricted_domains p ds acc) x
        ≡ (set_contains acc x || (clear && requested ds x))
  unfolding unrestricted_domains
  contains-unrestricted [] acc = ground arith
  contains-unrestricted (d ∷ ds) acc = elim (Bool-cases (is_domain_blacklisted p d)) [
    | inl e ↦ rw e (ground (arith, contains-unrestricted ds acc, same_verdict d))
    | inr e ↦ rw e (
        ground (
          arith,
          contains-unrestricted ds (set_insert (to_lowercase d) acc),
          set_contains-insert (to_lowercase d) x acc,
          same_verdict d,
        ))
  ]

  abbrev listed : Bool
  listed = in_global_whitelist p x

  same_listing :
      (d : Text)
      → text_eq (to_lowercase d) x ≡ true
      → (in_global_whitelist p (to_lowercase d) ≡ listed)
        × (is_domain_blacklisted p (to_lowercase d) ≡ is_domain_blacklisted p x)
  same_listing d h =
      let e = (text_eq_iff (to_lowercase d) x).0 h in
      (ap (in_global_whitelist p) e, ap (is_domain_blacklisted p) e)

  contains-whitelisted :
      (ds acc : List Text)
      → set_contains (whitelisted_domains p ds acc) x
        ≡ (set_contains acc x || (listed && clear && requested ds x))
  unfolding whitelisted_domains
  contains-whitelisted [] acc = ground arith
  contains-whitelisted (d ∷ ds) acc =
      elim (Bool-cases (
        in_global_whitelist p (to_lowercase d) && not (is_domain_blacklisted p (to_lowercase d)))) [
          | inr e ↦ rw e (ground (arith, contains-whitelisted ds acc, same_listing d))
          | inl e ↦ rw e (
              ground (
                arith,
                contains-whitelisted ds (set_insert (to_lowercase d) acc),
                set_contains-insert (to_lowercase d) x acc,
                same_listing d,
              ))
        ]

-- What the mode of the network allows.
abbrev pub mode_allows : SecurityPolicy → NetworkMode → Text → Bool
mode_allows p airgapped x = false
mode_allows p whitelist_only x = in_global_whitelist p x
mode_allows p unrestricted x = true

-- Where the mode takes the requested domains from.
abbrev pub sources : PluginManifest → Option PluginPolicyOverride → NetworkMode → List Text
sources m o whitelist_only = candidates m o
sources m o airgapped = m.permissions.network.allowed_domains
sources m o unrestricted = m.permissions.network.allowed_domains

-- A domain in lower case that the plugin may reach.
abbrev pub permitted : PluginManifest → SecurityPolicy → Option PluginPolicyOverride → Text → Bool
permitted m p o x =
    enabled_of o
    && m.permissions.network.allow_outbound
    && mode_allows p p.network.mode x
    && not (is_domain_blacklisted p x)
    && requested (sources m o p.network.mode) x

contains-domains :
    (m : PluginManifest) (p : SecurityPolicy) (o : Option PluginPolicyOverride) (mode : NetworkMode)
    (x : Text)
    → set_contains (domains_of m p o mode) x ≡ (
        m.permissions.network.allow_outbound
        && mode_allows p mode x
        && not (is_domain_blacklisted p x)
        && requested (sources m o mode) x)
unfolding domains_of set_contains
contains-domains m p o airgapped x = ground arith
contains-domains m p o whitelist_only x =
    ground (arith, contains-whitelisted p x (candidates m o) [])
contains-domains m p o unrestricted x =
    ground (arith, contains-unrestricted p x m.permissions.network.allowed_domains [])

-- The lease allows exactly the permitted domains.
pub contains-compute :
    (m : PluginManifest) (p : SecurityPolicy) (id x : Text)
    → set_contains (compute m p id).allowed_domains x ≡ permitted m p (lookup id p.plugins) x
unfolding compute set_contains
contains-compute m p id x =
    ground (arith, contains-domains m p (lookup id p.plugins) p.network.mode x)

-- A plugin's call to a domain passes exactly when the plugin is not disabled, its manifest asks for
-- outbound traffic, the network is not airgapped, the domain is not blacklisted and is among those
-- of the manifest (or of the policy's override, where the whitelist counts), and, where the
-- whitelist counts, is on it. The spelling of the domain does not matter.
pub validate_network_iff :
    (m : PluginManifest) (p : SecurityPolicy) (id domain : Text)
    → (validate_network (compute m p id) domain ≡ ok tt)
      ↔ (permitted m p (lookup id p.plugins) (to_lowercase domain) ≡ true)
unfolding validate_network compute
validate_network_iff m p id domain =
    let e = contains-compute m p id (to_lowercase domain) in
    (λ h. ground (arith, e), λ h. ground (arith, e))
