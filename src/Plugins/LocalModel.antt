-- ===== src/Plugins/LocalModel.antt =====
-- crates/plugins/chassis-model-local/src/main.rs: the adapter of a local model server. What the server
-- answers is a parameter; `number` of serde_json covers the temperature, a float, as a parameter.
use ai_garage.Common.{
  ◌≡◌, refl, Bool, [], ◌∷◌, ◌++◌, Option, none, some, Text, text, text_eq, unwrap_or, Result, ok,
  err, if◌then◌else◌,
}
use ai_garage.Json.{Json}
use ai_garage.Protocol.RpcError
use ai_garage.Protocol.JsonRpc.{Request, Response, success, error_response}
use ai_garage.Protocol.Lifecycle.{PluginAnnounceManifest, PluginAnnounceResult}
use ai_garage.Plugins.Serving.{unknown_method, ◌>>?◌, announcement, call_method, lifecycle}

-- A response of the server: whether its status is a success, and its body as JSON.
pub record LlamaReply (V : Type 0) : Type 0 where
  pub is_success : Bool
  pub json : Result Text V

unfoldable pub local_manifest : (V : Type 0) → PluginAnnounceManifest V
unfolding announcement
local_manifest V =
    announcement V (text "chassis.model.local") (text "Local Llama Model Adapter")
      (text "Connects to local llama-server on port 8080 with fallback") (text "model.generate")
      (text "generate" ∷ []) []

module _ (j : Json) where
  -- The answer when there is no server.
  unfoldable pub simulated : j.Value
  simulated = j.object (
      (text "model", j.string (text "Meta-Llama-3.1-8B-Instruct-Q8_0.gguf"))
      ∷ (
        text "choices",
        j.array (
            j.object (
              (text "index", j.number 0)
              ∷ (
                text "message",
                j.object (
                    (text "role", j.string (text "assistant"))
                    ∷ (
                      text "content",
                      j.string (
                          text
                            "Chassis local model adapter simulation: processed query successfully."),
                    )
                    ∷ []),
              )
              ∷ (text "finish_reason", j.string (text "stop"))
              ∷ [])
            ∷ []),
      )
      ∷ (
        text "usage",
        j.object (
            (text "prompt_tokens", j.number 128)
            ∷ (text "completion_tokens", j.number 12)
            ∷ (text "total_tokens", j.number 140)
            ∷ []),
      )
      ∷ [])

  module _ (post : Text → j.Value → Result Text (LlamaReply j.Value)) (temperature : j.Value)
      (announced : PluginAnnounceResult j.Value → j.Value) (endpoint : Text) where
    -- The body of a successful response.
    unfoldable pub usable : Result Text (LlamaReply j.Value) → Option j.Value
    usable (err e) = none
    usable (ok resp) =
        if resp.is_success then elim resp.json [ ok v ↦ some v | err e ↦ none ] else none

    unfoldable pub call_llama_server : j.Value → j.Value
    unfolding usable simulated
    call_llama_server messages =
        unwrap_or
          (usable (
            post endpoint (
              j.object (
                (text "messages", messages)
                ∷ (text "temperature", temperature)
                ∷ (text "max_tokens", j.number 2048)
                ∷ []))))
          simulated

    unfoldable pub generate : Request j.Value → Response j.Value
    unfolding call_llama_server call_method
    generate req =
        let method = call_method j req.params in
        if text_eq method (text "generate")
        then success req.id (
            call_llama_server (
              unwrap_or
                (j.get (unwrap_or req.params (j.object [])) (text "payload")
                  >>? (λ p. j.get p (text "messages")))
                (j.array [])))
        else error_response req.id
            (RpcError.method_not_found (text "Unknown capability method '" ++ method ++ text "'"))

    unfoldable pub handle_request : Request j.Value → Response j.Value
    unfolding generate lifecycle local_manifest
    handle_request req = elim (lifecycle j unknown_method announced (local_manifest j.Value) req) [
      | some resp ↦ resp
      | none ↦ generate req
    ]

    -- Without a server that answers, the model still does: with the simulated answer.
    pub call_llama_server-offline :
        (messages : j.Value)
        → ((body : j.Value) → usable (post endpoint body) ≡ none)
        → call_llama_server messages ≡ simulated
    unfolding call_llama_server
    call_llama_server-offline messages h = rw (call_llama_server, h _) refl
