-- ===== src/Router.antt =====
-- crates/chassis-core/src/router.rs: the broker that every capability call goes through. Parameters
-- are the JSON interface, the codec and the disk of the log, the file system, the time, and what the
-- plugin processes answer. A dispatch returns its result, the log's writer and the list of what it
-- did to the world, in order.
mod State
mod Url
mod Gates
pub mod Hosts
pub mod Admission
pub mod Firewall
pub mod Ordering
pub mod Registration
pub mod Reverse
pub use State.*
pub use Url.*
pub use Gates.*
unfoldable pub use State.{new_router, detect_ui, index_offered, register_plugin}
unfoldable pub use Url.{split_text, second_or, first_or, url_domain, host_only}
unfoldable pub use Gates.{
  no_provider_message, undeclared_message, authorized, touches_files, is_write, action_key,
  payload_str, resolve_target, check_authority, check_path, domain_candidate, check_network,
  check_process, firewall,
}
use ai_garage.Common.{
  ℕ, zero, suc, ◌-◌, Bool, true, false, not, ◌&&◌, ◌||◌, List, [], ◌∷◌, ◌++◌, Option, none, some,
  Text, text, text_eq, starts_with, contains, split_on, any, length, is_some, unwrap_or, Dict,
  lookup, insert, Result, ok, err, ◌>>=◌, ◌>>◌, if◌then◌else◌, require,
}
use ai_garage.Json.{Json}
use ai_garage.Error.{CoreError, Fault, failed, panic, policy_violation, to_rpc}
use ai_garage.Error
use ai_garage.Protocol.RpcError
use ai_garage.Protocol.RpcError.{RpcError, capability_not_found_code, user_rejected_code}
use ai_garage.Protocol.JsonRpc.{RequestId, string, show_id, Request, Response, error_response}
use ai_garage.Protocol.Envelope.{InvokeRequest, method_capability_invoke}
use ai_garage.Manifest.{PluginManifest, OfferedCapability}
use ai_garage.Policy.{SecurityPolicy}
use ai_garage.Attenuation.{
  EffectiveLease, validate_network, validate_process, check_hitl_requirement,
}
use ai_garage.Attenuation.Sandbox.{validate_path}
use ai_garage.Paths.{FileSystem}
use ai_garage.Wal.{
  Codec, Disk, WalEvent, WalWriter, append, event_capability_check, event_tool_start,
  event_tool_end,
}

-- What a dispatch does to the world: a call of a plugin, an event that was appended to the log, or the
-- type of one whose append failed.
pub data Effect (V : Type 0) : Type 0 where
  prompted invoked : Text → InvokeRequest V → Effect V
  logged : WalEvent V → Effect V
  not_logged : Text → Effect V

module _ (j : Json) (fs : FileSystem) (r : CapabilityRouter) where
  abbrev Req : Type 0
  Req = InvokeRequest j.Value

  unfoldable pub requires_hitl : Req → Bool
  requires_hitl q =
      check_hitl_requirement r.policy (action_key q.capability q.method)
        (payload_str j fs r q (text "command"))

  -- The request that asks the user.
  unfoldable pub hitl_request : Req → Req
  hitl_request q = record {
    call_id = text "hitl_" ++ q.call_id;
    capability = text "ui.prompt";
    method = text "request_permission";
    payload = j.object (
        (text "action", j.string (action_key q.capability q.method))
        ∷ (
          text "command",
          elim (payload_str j fs r q (text "command")) [ none ↦ j.null | some s ↦ j.string s ],
        )
        ∷ (text "risk", j.string (text "high"))
        ∷ []);
  }

  -- `result.and_then(|r| r.get("approved").and_then(|a| a.as_bool())).unwrap_or(false)`
  unfoldable pub approved : Response j.Value → Bool
  approved resp = elim resp.result [
    | none ↦ false
    | some v ↦ elim (j.get v (text "approved")) [
      | none ↦ false
      | some a ↦ unwrap_or (j.as_bool a) false
    ]
  ]

  -- What a stop means for the caller.
  unfoldable pub stopped : Req → Stop j.Value → Result Fault (Response j.Value)
  stopped q (refuse e) = ok (error_response (string q.call_id) e)
  stopped q (fault f) = err f

  unfoldable pub check_payload : Text → Text → Req → j.Value
  check_payload caller_id target q = j.object (
      (text "caller_id", j.string caller_id)
      ∷ (text "target_plugin", j.string target)
      ∷ (text "capability", j.string q.capability)
      ∷ (text "method", j.string q.method)
      ∷ (text "status", j.string (text "APPROVED"))
      ∷ [])

  unfoldable pub start_payload : Text → Req → j.Value
  start_payload target q = j.object (
      (text "call_id", j.string q.call_id)
      ∷ (text "target_plugin", j.string target)
      ∷ (text "method", j.string q.method)
      ∷ [])

  unfoldable pub end_payload : Req → Response j.Value → j.Value
  end_payload q resp =
      j.object (
        (text "call_id", j.string q.call_id) ∷ (text "has_error", j.bool (is_some resp.error)) ∷ [])

  -- The target and the firewall, before anything is done.
  unfoldable pub admit : Text → Req → Result (Stop j.Value) Text
  admit caller_id q = do
    found ← resolve_target j fs r q
    firewall j fs r caller_id found.1 q
    ok found.0

  module _ (answer : Text → Req → Result CoreError (Response j.Value)) where
    -- The answer of the plugin that shows prompts.
    unfoldable pub judge : Result CoreError (Response j.Value) → Result (Stop j.Value) (Unit {0})
    judge (err e) = err (fault (failed e))
    judge (ok resp) =
        require (approved resp)
          (refuse (RpcError.new user_rejected_code (text "Action rejected by user")))

    unfoldable pub ask_user : Req → List (Effect j.Value) × Result (Stop j.Value) (Unit {0})
    ask_user q = elim r.ui_plugin_id [
      | none ↦ ([], ok tt)
      | some ui_id ↦ elim (lookup ui_id r.plugins) [
        | none ↦ ([], ok tt)
        | some ui_plugin ↦
            (prompted ui_id (hitl_request q) ∷ [], judge (answer ui_id (hitl_request q)))
      ]
    ]

    -- Section 3: the human in the loop.
    unfoldable pub consent : Req → List (Effect j.Value) × Result (Stop j.Value) (Unit {0})
    consent q =
        if requires_hitl q
        then elim r.mode [
          | non_interactive_fail ↦ (
            [],
            err (
                refuse (
                  RpcError.new user_rejected_code (
                    text
                      "Action requires human approval but session is running in non-interactive mode"))),
          )
          | non_interactive_auto_approve ↦ ([], ok tt)
          | interactive ↦ ask_user q
        ]
        else ([], ok tt)

    -- The call of a plugin, with its answer.
    unfoldable pub call_plugin : Text → Req → Effect j.Value × Result CoreError (Response j.Value)
    call_plugin target q = (invoked target q, answer target q)

    -- The writer after an append, and what the append did; its outcome is otherwise ignored.
    unfoldable pub appended :
        Text
        → Result CoreError (WalEvent j.Value) × WalWriter
        → Option WalWriter × List (Effect j.Value)
    appended event_type (ok event, w) = (some w, logged event ∷ [])
    appended event_type (err e, w) = (some w, not_logged event_type ∷ [])

    module _ (c : Codec j.Value) (disk : Disk) (now : Text) where
      -- An append, where there is a log.
      unfoldable pub log :
          Option WalWriter → Text → j.Value → Option WalWriter × List (Effect j.Value)
      unfolding appended append
      log none event_type payload = (none, [])
      log (some w) event_type payload = appended event_type (append c disk now w event_type payload)

      -- Sections 4 to 6: log, invoke, log.
      unfoldable pub execute :
          Text
          → Text
          → Req
          → Option WalWriter
          → Result Fault (Response j.Value) × Option WalWriter × List (Effect j.Value)
      unfolding log call_plugin
      execute caller_id target q wal =
          let (wal1, checked) = log wal event_capability_check (check_payload caller_id target q) in
          let (wal2, started) = log wal1 event_tool_start (start_payload target q) in
          let (call, result) = call_plugin target q in
          let before = checked ++ started ++ call ∷ [] in
          elim result [
            | err e ↦ (err (failed e), wal2, before)
            | ok resp ↦
                let (wal3, ended) = log wal2 event_tool_end (end_payload q resp) in
                (ok resp, wal3, before ++ ended)
          ]

      unfoldable pub approve_and_execute :
          Text
          → Text
          → Req
          → Option WalWriter
          → List (Effect j.Value) × Result (Stop j.Value) (Unit {0})
          → Result Fault (Response j.Value) × Option WalWriter × List (Effect j.Value)
      approve_and_execute caller_id target q wal (asked, err s) = (stopped q s, wal, asked)
      approve_and_execute caller_id target q wal (asked, ok u) =
          let (result, wal', done) = execute caller_id target q wal in (result, wal', asked ++ done)

      unfoldable pub dispatch :
          Text
          → Req
          → Option WalWriter
          → Result Fault (Response j.Value) × Option WalWriter × List (Effect j.Value)
      dispatch caller_id q wal = elim (admit caller_id q) [
        | err s ↦ (stopped q s, wal, [])
        | ok target ↦ approve_and_execute caller_id target q wal (consent q)
      ]
