-- ===== src/Router/Registration.antt =====
-- crates/chassis-core/src/router.rs: the routes after a plugin has registered.
use ai_garage.Common.{
  ◌≡◌, refl, Bool, List, [], ◌∷◌, Option, some, Text, text_eq, any, lookup, insert, lookup-insert,
  Dict, if◌then◌else◌, arith,
}
use ai_garage.Manifest.{OfferedCapability}
use ai_garage.Router.{CapabilityRouter, Plugin, detect_ui, index_offered, register_plugin}

-- The plugin offers the capability `k`.
abbrev pub offers : List OfferedCapability → Text → Bool
offers offered k = any (λ o. text_eq o.id k) offered

lookup-index_offered :
    (id k : Text) (offered : List OfferedCapability) (caps : Dict Text) (ui : Option Text)
    → lookup k (index_offered id offered caps ui).0
      ≡ (if offers offered k then some id else lookup k caps)
unfolding index_offered
lookup-index_offered id k [] caps ui = refl
lookup-index_offered id k (o ∷ rest) caps ui = ground (
  arith,
  lookup-index_offered id k rest (insert o.id id caps) (detect_ui id o ui),
  lookup-insert o.id k id caps,
)

-- A capability that the new plugin offers is routed to it, whichever plugin had it before, and every
-- other capability keeps its route; the identifier of the new plugin finds it, and every other
-- identifier finds what it found.
pub register_plugin_lem :
    (r : CapabilityRouter) (p : Plugin) (k : Text)
    → (lookup k (register_plugin r p).capability_map ≡ (
        if offers p.manifest.capabilities_offered k
        then some p.manifest.plugin.id
        else lookup k r.capability_map))
      × (lookup k (register_plugin r p).plugins
          ≡ (if text_eq p.manifest.plugin.id k then some p else lookup k r.plugins))
unfolding register_plugin
register_plugin_lem r p k = (
  lookup-index_offered p.manifest.plugin.id k p.manifest.capabilities_offered r.capability_map
      r.ui_plugin_id,
  lookup-insert p.manifest.plugin.id k p r.plugins,
)
