-- ===== src/Protocol/Lifecycle.antt =====
-- crates/chassis-protocol/src/lifecycle.rs: handshake, announcement and shutdown.
use ai_garage.Common.{ℕ, Bool, List, Option, Text, text}
use ai_garage.Int.{ℤ, pos}

abbrev pub method_kernel_handshake : Text
method_kernel_handshake = text "kernel/handshake"

abbrev pub method_plugin_announce : Text
method_plugin_announce = text "plugin/announce"

abbrev pub method_kernel_handshake_ack : Text
method_kernel_handshake_ack = text "kernel/handshake_ack"

abbrev pub method_kernel_ping : Text
method_kernel_ping = text "kernel/ping"

abbrev pub method_plugin_pong : Text
method_plugin_pong = text "plugin/pong"

abbrev pub method_kernel_shutdown : Text
method_kernel_shutdown = text "kernel/shutdown"

abbrev pub method_plugin_log : Text
method_plugin_log = text "plugin/log"

pub record HandshakeParams : Type 0 where
  pub protocol_version : Text
  pub kernel_version : Text
  pub session_id : Text
  pub assigned_plugin_id : Text

pub record CapabilityDeclaration : Type 0 where
  pub id : Text
  pub version : Text
  pub methods : List Text
  pub schema_ref : Option Text

pub record CapabilityRequirement (V : Type 0) : Type 0 where
  pub id : Text
  pub optional : Bool
  pub constraints : Option V

pub record HookSubscription : Type 0 where
  pub event : Text
  pub priority : ℤ

-- What `priority` is when the announcement leaves it out.
abbrev pub default_hook_priority : ℤ
default_hook_priority = pos 100

pub record PluginAnnounceManifest (V : Type 0) : Type 0 where
  pub plugin_id : Text
  pub version : Text
  pub display_name : Text
  pub description : Text
  pub capabilities_offered : List CapabilityDeclaration
  pub capabilities_required : List (CapabilityRequirement V)
  pub hooks_subscribed : List HookSubscription

pub record PluginAnnounceResult (V : Type 0) : Type 0 where
  pub manifest : PluginAnnounceManifest V

pub record HandshakeAckParams (V : Type 0) : Type 0 where
  pub status : Text
  pub lease_token : Text
  pub workspace_root : Text
  pub sandbox_restrictions : Option V

pub record ShutdownParams : Type 0 where
  pub grace_timeout_ms : ℕ
  pub reason : Text

pub record LogNotification : Type 0 where
  pub level : Text
  pub target : Text
  pub message : Text
