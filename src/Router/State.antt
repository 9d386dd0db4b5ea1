-- ===== src/Router/State.antt =====
-- crates/chassis-core/src/router.rs: the state of the router, and registration.
use ai_garage.Common.{
  ◌||◌, List, [], ◌∷◌, Option, none, some, Text, text, text_eq, Dict, insert, if◌then◌else◌,
}
use ai_garage.Manifest.{PluginManifest, OfferedCapability}
use ai_garage.Policy.{SecurityPolicy}
use ai_garage.Attenuation.{EffectiveLease}

pub data ExecutionMode : Type 0 where
  interactive non_interactive_fail non_interactive_auto_approve : ExecutionMode

-- What the router uses of a `PluginSupervisor`.
pub record Plugin : Type 0 where
  pub manifest : PluginManifest
  pub lease : EffectiveLease

pub record CapabilityRouter : Type 0 where
  pub plugins : Dict Plugin
  pub capability_map : Dict Text
  pub ui_plugin_id : Option Text
  pub policy : SecurityPolicy
  pub workspace_root : Text
  pub blob_dir : Text
  pub mode : ExecutionMode

unfoldable pub new_router : SecurityPolicy → Text → Text → ExecutionMode → CapabilityRouter
new_router policy workspace_root blob_dir mode = record {
  plugins = [];
  capability_map = [];
  ui_plugin_id = none;
  policy = policy;
  workspace_root = workspace_root;
  blob_dir = blob_dir;
  mode = mode;
}

-- The designated UI plugin, after one more offered capability.
unfoldable pub detect_ui : Text → OfferedCapability → Option Text → Option Text
detect_ui plugin_id offered ui =
    if text_eq offered.id (text "ui.render") || text_eq offered.id (text "ui.prompt")
    then some plugin_id
    else ui

-- The loop over the offered capabilities.
unfoldable pub index_offered :
    Text → List OfferedCapability → Dict Text → Option Text → Dict Text × Option Text
index_offered plugin_id [] caps ui = (caps, ui)
index_offered plugin_id (offered ∷ rest) caps ui =
    index_offered plugin_id rest (insert offered.id plugin_id caps) (detect_ui plugin_id offered ui)

unfoldable pub register_plugin : CapabilityRouter → Plugin → CapabilityRouter
register_plugin r p =
    let plugin_id = p.manifest.plugin.id in
    let (caps, ui) =
      index_offered plugin_id p.manifest.capabilities_offered r.capability_map r.ui_plugin_id in
    record r { plugins = insert plugin_id p r.plugins; capability_map = caps; ui_plugin_id = ui }
