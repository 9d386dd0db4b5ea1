-- ===== src/Supervisor.antt =====
-- crates/chassis-core/src/supervisor.rs: the start of a plugin and its handshake, ping and invocation.
-- What the operating system and the plugin do is a parameter; serde_json's `to_value` and
-- `from_value` are too. A launch returns its result and the list of what it did, in order.
pub mod Handshake
use ai_garage.Common.{
  ℕ, Bool, true, false, not, ◌||◌, List, [], ◌∷◌, ◌++◌, Option, none, some, Text, text, text_eq,
  Dict, Result, ok, err, unwrap_or, if◌then◌else◌,
}
use ai_garage.Json.{Json}
use ai_garage.Error.{CoreError, policy_violation}
use ai_garage.Protocol.JsonRpc.{Response}
use ai_garage.Protocol.Envelope.{InvokeRequest, method_capability_invoke}
use ai_garage.Protocol.Lifecycle.{
  HandshakeParams, HandshakeAckParams, PluginAnnounceResult, method_kernel_handshake,
  method_kernel_handshake_ack, method_kernel_ping, method_plugin_pong,
}
use ai_garage.Manifest.{PluginManifest}
use ai_garage.Policy.{SecurityPolicy}
use ai_garage.Attenuation.{EffectiveLease, compute, resolve_secrets, disabled_message}
use ai_garage.Lifo.{LifoStack, new_stack, push}
use ai_garage.Process.Spawning.{Host, Command, prepare}

-- What a launch does to the world.
pub data LaunchAction (V : Type 0) : Type 0 where
  spawned : Command → LaunchAction V
  requested notified : Text → V → LaunchAction V
  -- `force_kill`, also when the handle of the process goes out of scope
  killed : LaunchAction V

-- How the process answers. `start` is the start of the command, `ask` a request within its time:
-- none where the time runs out.
pub record PluginIo (V : Type 0) : Type 0 where
  pub start : Command → Result Text (Option ℕ)
  pub ask : Text → V → Option (Result CoreError (Response V))
  pub tell : Text → V → Result CoreError (Unit {0})

-- `serde_json::to_value` and `from_value` of the records of the handshake
pub record Converter (V : Type 0) : Type 0 where
  pub handshake_value : HandshakeParams → Result Text V
  pub ack_value : HandshakeAckParams V → Result Text V
  pub announced : V → Result Text (PluginAnnounceResult V)
  pub invoke_value : InvokeRequest V → Result Text V

-- The actions of the teardown guard are recorded by the pid that they kill.
pub record PluginSupervisor : Type 0 where
  pub manifest : PluginManifest
  pub lease : EffectiveLease
  pub pid : Option ℕ
  pub lifo : LifoStack (List ℕ)
  pub session_id : Text

unfoldable pub start_message : Text → Text → Text → Text
start_message id program e =
    text "Failed to spawn plugin '" ++ id ++ text "' at '" ++ program ++ text "': " ++ e

-- What the guard of the teardown does: it kills the tree of the process.
unfoldable pub teardown : Option ℕ → List ℕ → List ℕ
teardown none killed_pids = killed_pids
teardown (some pid) killed_pids = killed_pids ++ pid ∷ []

unfoldable pub lease_of : PluginManifest → SecurityPolicy → Option (Dict Text) → EffectiveLease
unfolding compute resolve_secrets
lease_of manifest policy none = compute manifest policy manifest.plugin.id
lease_of manifest policy (some vault) =
    resolve_secrets vault (compute manifest policy manifest.plugin.id)

module _ (j : Json) (conv : Converter j.Value) where
  abbrev pub Acts : Type 0
  Acts = List (LaunchAction j.Value)

  -- The check of the response to the handshake.
  unfoldable pub check_response : Text → Response j.Value → Result CoreError (Unit {0})
  check_response id response = elim response.error [
    | some e ↦
        err (policy_violation (text "Plugin '" ++ id ++ text "' rejected handshake: " ++ e.message))
    | none ↦ elim response.result [
      | none ↦ err (policy_violation (text "Handshake response missing result payload"))
      | some v ↦ elim (conv.announced v) [
        | err e ↦ err (
            policy_violation
              (text "Invalid plugin/announce payload from '" ++ id ++ text "': " ++ e))
        | ok announce ↦ ok tt
      ]
    ]
  ]

  unfoldable pub timeout_message : Text → Text → Text
  timeout_message timeout id =
      text "Handshake timed out after " ++ timeout ++ text " for plugin '" ++ id ++ text "'"

  module _ (plugin : PluginIo j.Value) (timeout : Text) where
    -- What the answer to the handshake means.
    unfoldable pub accept :
        Text → Option (Result CoreError (Response j.Value)) → Result CoreError (Unit {0})
    unfolding check_response timeout_message
    accept id none = err (policy_violation (timeout_message timeout id))
    accept id (some (err e)) = err e
    accept id (some (ok response)) = check_response id response

    -- The handshake request, and the check of its response.
    unfoldable pub greet : Text → HandshakeParams → Result CoreError (Unit {0}) × Acts
    unfolding accept
    greet id params = elim (conv.handshake_value params) [
      | err e ↦ (err (policy_violation (text "Failed to serialize handshake params: " ++ e)), [])
      | ok v ↦ (
        accept id (plugin.ask method_kernel_handshake v),
        requested method_kernel_handshake v ∷ [],
      )
    ]

    -- The acknowledgement.
    unfoldable pub acknowledge : HandshakeAckParams j.Value → Result CoreError (Unit {0}) × Acts
    acknowledge params = elim (conv.ack_value params) [
      | err e ↦ (err (policy_violation (text "Failed to serialize handshake_ack: " ++ e)), [])
      | ok v ↦
          (plugin.tell method_kernel_handshake_ack v, notified method_kernel_handshake_ack v ∷ [])
    ]

    -- Two steps, the second only after the first went well.
    unfoldable pub then_do :
        Result CoreError (Unit {0}) × Acts
        → Result CoreError (Unit {0}) × Acts
        → Result CoreError (Unit {0}) × Acts
    then_do (err e, done) next = (err e, done)
    then_do (ok _, done) (res, more) = (res, done ++ more)

    unfoldable pub negotiate : PluginManifest → Text → Text → Result CoreError (Unit {0}) × Acts
    unfolding greet acknowledge then_do
    negotiate manifest workspace_root sid =
        then_do
          (greet manifest.plugin.id (record {
            protocol_version = text "1.0.0";
            kernel_version = text "0.1.0";
            session_id = sid;
            assigned_plugin_id = manifest.plugin.id;
          }))
          (acknowledge (record {
            status = text "mounted";
            lease_token = text "lease_" ++ manifest.plugin.id;
            workspace_root = workspace_root;
            sandbox_restrictions = none;
          }))

    -- The supervisor after the handshake. On an error the handle of the process goes out of scope,
    -- which kills it.
    unfoldable pub settle :
        PluginManifest
        → EffectiveLease
        → Text
        → Option ℕ
        → Result CoreError (Unit {0}) × Acts
        → Result CoreError PluginSupervisor × Acts
    unfolding teardown
    settle manifest lease sid pid (err e, done) = (err e, done ++ killed ∷ [])
    settle manifest lease sid pid (ok _, done) = (
      ok (record {
        manifest = manifest;
        lease = lease;
        pid = pid;
        lifo = push new_stack (text "plugin_teardown_" ++ manifest.plugin.id) (teardown pid);
        session_id = sid;
      }),
      done,
    )

    unfoldable pub start_prepared :
        PluginManifest
        → EffectiveLease
        → Text
        → Text
        → Result CoreError Command
        → Result CoreError PluginSupervisor × Acts
    unfolding settle negotiate start_message
    start_prepared manifest lease workspace_root sid (err e) = (err e, [])
    start_prepared manifest lease workspace_root sid (ok cmd) = elim (plugin.start cmd) [
      | err e ↦ (err (policy_violation (start_message manifest.plugin.id cmd.program e)), [])
      | ok pid ↦
          let (res, done) = settle manifest lease sid pid (negotiate manifest workspace_root sid) in
          (res, spawned cmd ∷ done)
    ]

    unfoldable pub launch_and_handshake_full :
        Host
        → PluginManifest
        → SecurityPolicy
        → Text
        → Text
        → Text
        → Option (Dict Text)
        → Result CoreError PluginSupervisor × Acts
    unfolding lease_of start_prepared prepare disabled_message
    launch_and_handshake_full host manifest policy workspace_root plugin_dir sid vault =
        let lease = lease_of manifest policy vault in
        if not lease.enabled
        then (err (policy_violation (disabled_message manifest.plugin.id)), [])
        else start_prepared manifest lease workspace_root sid
            (prepare host manifest lease workspace_root plugin_dir)

    -- `== Some(expected)`
    unfoldable pub field_is : j.Value → Text → Text → Bool
    field_is v key expected = elim (j.get v key) [
      | none ↦ false
      | some f ↦ elim (j.as_str f) [ none ↦ false | some s ↦ text_eq s expected ]
    ]

    -- `ping`, `now` the time stamp; it never fails.
    unfoldable pub ping : j.Value → Bool
    unfolding field_is
    ping now = elim (plugin.ask method_kernel_ping (j.object ((text "timestamp", now) ∷ []))) [
      | none ↦ false
      | some (err e) ↦ false
      | some (ok response) ↦ elim response.result [
        | none ↦ false
        | some v ↦
            field_is v (text "status") (text "healthy")
            || field_is v (text "method") method_plugin_pong
      ]
    ]

    unfoldable pub invoke : InvokeRequest j.Value → Option (Result CoreError (Response j.Value))
    invoke q = elim (conv.invoke_value q) [
      | err e ↦ some (err (policy_violation (text "Failed to serialize invoke request: " ++ e)))
      | ok params ↦ plugin.ask method_capability_invoke params
    ]
