-- ===== src/Plugins/Serving.antt =====
-- crates/plugins/*/src/main.rs: the part of `handle_request` that the plugins share, the requests
-- that are not capability calls, and how a capability call is taken apart.
use mathlib.Core.Option.{some-injective}
use ai_garage.Common.{
  ◌≡◌, refl, subst, ◌⊎◌, inl, inr, Bool, true, false, List, [], ◌∷◌, ◌++◌, Option, none, some, Text,
  text, text_eq, unwrap_or, if◌then◌else◌,
}
use ai_garage.Json.{Json}
use ai_garage.Protocol.RpcError.{RpcError}
use ai_garage.Protocol.RpcError
use ai_garage.Protocol.JsonRpc.{Request, Response, success, error_response}
use ai_garage.Protocol.Lifecycle.{
  PluginAnnounceManifest, PluginAnnounceResult, CapabilityRequirement, method_kernel_handshake,
  method_kernel_ping, method_kernel_shutdown,
}
use ai_garage.Protocol.Envelope.{method_capability_invoke}

-- `and_then` on an option
infixl 5 ◌>>?◌
abbrev pub ◌>>?◌ : {A B : Type 0} → Option A → (A → Option B) → Option B
none >>? f = none
some a >>? f = f a

-- `version: "1.0.0"`, also of capabilities.
abbrev pub plugin_version : Text
plugin_version = text "1.0.0"

unfoldable pub unknown_method : Text → Text
unknown_method method = text "Unknown kernel method '" ++ method ++ text "'"

module _ (V : Type 0) where
  -- The announcement of a plugin that offers one capability.
  unfoldable pub announcement :
      Text
      → Text
      → Text
      → Text
      → List Text
      → List (CapabilityRequirement V)
      → PluginAnnounceManifest V
  announcement plugin_id display_name description capability methods required = record {
    plugin_id = plugin_id;
    version = plugin_version;
    display_name = display_name;
    description = description;
    capabilities_offered =
        record { id = capability; version = plugin_version; methods = methods; schema_ref = none }
        ∷ [];
    capabilities_required = required;
    hooks_subscribed = [];
  }

module _ (j : Json) where
  unfoldable pub get_str : j.Value → Text → Option Text
  get_str v key = j.get v key >>? j.as_str

  -- `params.get("method")…unwrap_or("")`
  unfoldable pub call_method : Option j.Value → Text
  unfolding get_str
  call_method params = unwrap_or (get_str (unwrap_or params (j.object [])) (text "method")) []

  -- `params.get("payload")…unwrap_or_else(|| json!({}))`
  unfoldable pub call_payload : Option j.Value → j.Value
  call_payload params =
      unwrap_or (j.get (unwrap_or params (j.object [])) (text "payload")) (j.object [])

  -- The response to a request that is no capability call; `message` is the plugin's text for a method
  -- that it does not know, `to_value` what `json!` makes of the announcement.
  unfoldable pub lifecycle :
      (Text → Text)
      → (PluginAnnounceResult j.Value → j.Value)
      → PluginAnnounceManifest j.Value
      → Request j.Value
      → Option (Response j.Value)
  unfolding RpcError.method_not_found RpcError.new
  lifecycle message to_value manifest req =
      if text_eq req.method method_kernel_handshake
      then some (success req.id (to_value (record { manifest = manifest })))
      else if text_eq req.method method_kernel_ping
      then some (success req.id (j.object ((text "status", j.string (text "healthy")) ∷ [])))
      else if text_eq req.method method_kernel_shutdown
      then some (success req.id (j.object ((text "ready_to_exit", j.bool true) ∷ [])))
      else if text_eq req.method method_capability_invoke
      then none
      else some (error_response req.id (RpcError.method_not_found (message req.method)))

  -- The response answers the request: under its identifier, with either a result or an error.
  pub record IsAnswer (req : Request j.Value) (resp : Response j.Value) : Type 0 where
    pub same_id : resp.id ≡ req.id
    pub one_outcome :
        ((v : j.Value) × (resp.result ≡ some v) × (resp.error ≡ none))
        ⊎ ((e : RpcError j.Value) × (resp.result ≡ none) × (resp.error ≡ some e))

  pub success-IsAnswer : (req : Request j.Value) (v : j.Value) → IsAnswer req (success req.id v)
  unfolding success
  success-IsAnswer req v = record { same_id = refl; one_outcome = inl (v, refl, refl) }

  pub error_response-IsAnswer :
      (req : Request j.Value) (e : RpcError j.Value) → IsAnswer req (error_response req.id e)
  unfolding error_response
  error_response-IsAnswer req e = record { same_id = refl; one_outcome = inr (e, refl, refl) }

  -- Whatever response there is answers the request.
  abbrev pub Answers : Request j.Value → Option (Response j.Value) → Type 0
  Answers req o = (resp : Response j.Value) → o ≡ some resp → IsAnswer req resp

  Answers-some :
      (req : Request j.Value) (resp : Response j.Value)
      → IsAnswer req resp
      → Answers req (some resp)
  Answers-some req resp a other h = subst (IsAnswer req) (some-injective _ _ h) a

  Answers-if :
      (req : Request j.Value) (b : Bool) (o other : Option (Response j.Value))
      → Answers req o
      → Answers req other
      → Answers req (if b then o else other)
  Answers-if req true o other f g = f
  Answers-if req false o other f g = g

  Answers-success : (req : Request j.Value) (v : j.Value) → Answers req (some (success req.id v))
  Answers-success req v = Answers-some req (success req.id v) (success-IsAnswer req v)

  -- Requests that are no capability calls are answered.
  pub lifecycle-IsAnswer :
      (message : Text → Text) (to_value : PluginAnnounceResult j.Value → j.Value)
      (manifest : PluginAnnounceManifest j.Value) (req : Request j.Value)
      → Answers req (lifecycle message to_value manifest req)
  unfolding lifecycle
  lifecycle-IsAnswer message to_value manifest req =
      Answers-if req (text_eq req.method method_kernel_handshake) _ _ (Answers-success req _) (
        Answers-if req (text_eq req.method method_kernel_ping) _ _ (Answers-success req _) (
          Answers-if req (text_eq req.method method_kernel_shutdown) _ _ (Answers-success req _) (
            Answers-if req (text_eq req.method method_capability_invoke) _ _ (λ resp h. cc)
              (Answers-some req (error_response req.id _) (error_response-IsAnswer req _)))))

  pub IsAnswer-if :
      {S : Type 0} (req : Request j.Value) (b : Bool) (x y : Response j.Value × S)
      → IsAnswer req x.0
      → IsAnswer req y.0
      → IsAnswer req (if b then x else y).0
  IsAnswer-if req true x y f g = f
  IsAnswer-if req false x y f g = g
