-- ===== src/Orchestrator/Turns.antt =====
-- What a turn of a conversation asks of the other plugins.
use ai_garage.Common.{
  ℕ, ◌≡◌, ◌⊎◌, inl, inr, List, [], ◌∷◌, ◌++◌, none, some, Text, text, take, Result, ok, err,
  Option-cases, text_eq,
}
use ai_garage.Json.{Json}
use ai_garage.Protocol.JsonRpc.{Request}
use ai_garage.Protocol.Lifecycle.{PluginAnnounceResult}
use ai_garage.Plugins.Serving.{
  unknown_method, IsAnswer, success-IsAnswer, error_response-IsAnswer, lifecycle,
  lifecycle-IsAnswer, IsAnswer-if, call_method,
}
use ai_garage.Orchestrator.{
  Client, Kernel, GoalResult, handle_request, call_agent, turn_response, orchestrator_manifest,
}
use ai_garage.Orchestrator.Rounds.{Call, Made, Output}

module _ (j : Json) where
  abbrev pub store_request : Text → List (Text × j.Value) → Call j.Value
  store_request method fields = record {
    capability = text "storage.conversation";
    method = method;
    payload = j.object fields;
  }

  abbrev pub create_turn : Text → Text → Call j.Value
  create_turn conv_id msg = store_request (text "conversation_create") (
      (text "id", j.string conv_id)
      ∷ (text "title", j.string (text "Chat: " ++ take 30 msg))
      ∷ (text "model_id", j.string (text "chassis.orchestrator"))
      ∷ [])

  abbrev pub recall : Text → Call j.Value
  recall conv_id =
      store_request (text "message_get_history") ((text "conversation_id", j.string conv_id) ∷ [])

  abbrev pub remember : Text → Text → Text → Call j.Value
  remember conv_id role content = store_request (text "message_append") (
      (text "conversation_id", j.string conv_id)
      ∷ (text "role", j.string role)
      ∷ (text "content", j.string content)
      ∷ [])

  abbrev pub ask : List j.Value → Call j.Value
  ask messages = record {
    capability = text "model.generate";
    method = text "generate";
    payload = j.object ((text "messages", j.array messages) ∷ []);
  }

  -- A message of a prompt.
  abbrev pub said : Text → Text → j.Value
  said role content =
      j.object ((text "role", j.string role) ∷ (text "content", j.string content) ∷ [])

  -- The text that a value has under a key, and a default where it has none.
  abbrev pub Reads : j.Value → Text → Text → Text → Type 0
  Reads item key default t =
      ((v : j.Value) × (j.get item key ≡ some v) × (j.as_str v ≡ some t))
      ⊎ ((v : j.Value) × (j.get item key ≡ some v) × (j.as_str v ≡ none) × (t ≡ default))
      ⊎ ((j.get item key ≡ none) × (t ≡ default))

  -- The messages, one for each item, in order.
  abbrev pub Told : List j.Value → List j.Value → Type 0
  Told [] [] = Unit
  Told (item ∷ items) (m ∷ ms) =
      ((role : Text) × (content : Text) × Reads item (text "role") (text "user") role
        × Reads item (text "content") [] content
        × (m ≡ said role content))
      × Told items ms
  Told _ _ = ⊥

  -- The messages that come of what the store answered: one for each item of the list that it holds,
  -- and none where it holds no list, or failed.
  abbrev pub Recalled : Result Text j.Value → List j.Value → Type 0
  Recalled (err e) past = past ≡ []
  Recalled (ok history) past =
      ((v : j.Value) × (items : List j.Value) × (j.get history (text "messages") ≡ some v)
        × (j.as_array v ≡ some items)
        × Told items past)
      ⊎ ((v : j.Value) × (j.get history (text "messages") ≡ some v)
          × (j.as_array v ≡ none)
          × (past ≡ []))
      ⊎ ((j.get history (text "messages") ≡ none) × (past ≡ []))

  module _ (kernel : Kernel j.Value) where
    -- The end of a turn: nothing more after a failure; else the answer is stored and returned.
    abbrev pub Answered :
        Text → Client j.Value → Result Text j.Value → Result Text j.Value × Client j.Value → Type 0
    Answered conv_id c generated (res, c') =
        ((e : Text) × (generated ≡ err e) × (res ≡ err e) × (c' ≡ c))
        ⊎ ((v : j.Value) × (reply : Text) × (generated ≡ ok v)
            × Output j (ok v) reply
            × (res
                ≡ ok (
                    j.object (
                      (text "conversation_id", j.string conv_id)
                      ∷ (text "response", j.string reply)
                      ∷ [])))
            × Made j c (remember conv_id (text "assistant") reply ∷ []) c')

  module _ (kernel : Kernel j.Value) (announced : PluginAnnounceResult j.Value → j.Value)
      (goal_value : GoalResult j.Value → j.Value) (now : ℕ) where
    turn_response-IsAnswer :
        (req : Request j.Value) (res : Result Text j.Value)
        → IsAnswer j req (turn_response j kernel announced goal_value now req res)
    unfolding turn_response
    turn_response-IsAnswer req (ok v) = success-IsAnswer j req v
    turn_response-IsAnswer req (err e) = error_response-IsAnswer j req _

    call_agent-IsAnswer :
        (req : Request j.Value) (c : Client j.Value)
        → IsAnswer j req (call_agent j kernel announced goal_value now req c).0
    unfolding call_agent
    call_agent-IsAnswer req c =
        let method = call_method j req.params in
        IsAnswer-if j req (text_eq method (text "run_goal")) _ _ (success-IsAnswer j req _) (
          IsAnswer-if j req (text_eq method (text "chat_turn")) _ _ (turn_response-IsAnswer req _)
            (error_response-IsAnswer j req _))

    -- Every request to the orchestrator is answered, under its identifier and with either a result
    -- or an error.
    pub handle_request-IsAnswer :
        (req : Request j.Value) (c : Client j.Value)
        → IsAnswer j req (handle_request j kernel announced goal_value now req c).0
    unfolding handle_request
    handle_request-IsAnswer req c =
        elim (Option-cases
          (lifecycle j unknown_method announced (orchestrator_manifest j kernel) req)) [
            | inr (resp, e) ↦
                rw (handle_request, e) (lifecycle-IsAnswer j unknown_method announced _ req resp e)
            | inl e ↦ rw (handle_request, e) (call_agent-IsAnswer req c)
          ]
