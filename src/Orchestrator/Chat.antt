-- ===== src/Orchestrator/Chat.antt =====
-- crates/plugins/chassis-orchestrator/src: a turn of a conversation, and the requests of the plugin.
-- The time is a parameter.
use ai_garage.Common.{
  ℕ, Bool, true, false, List, [], ◌∷◌, ◌++◌, Option, none, some, Text, text, text_eq, take,
  show_nat, unwrap_or, map, Result, ok, err, if◌then◌else◌,
}
use ai_garage.Json.{Json}
use ai_garage.Protocol.RpcError
use ai_garage.Protocol.JsonRpc.{Request, Response, success, error_response}
use ai_garage.Protocol.Lifecycle.{
  PluginAnnounceManifest, PluginAnnounceResult, CapabilityRequirement,
}
use ai_garage.Plugins.Serving.{
  unknown_method, ◌>>?◌, announcement, get_str, call_method, call_payload, lifecycle,
}
use ai_garage.Orchestrator.Answers.{GoalResult, extract_assistant_text}
use ai_garage.Orchestrator.Invoking.{Client, Kernel, invoke}
use ai_garage.Orchestrator.Prompt.{message}
use ai_garage.Orchestrator.Goal.{run_goal}

abbrev pub default_system_prompt : Text
default_system_prompt =
    text "You are Chassis AI, a sovereign intelligence running in a zero-trust microkernel."

module _ (j : Json) where
  -- A stored message, as the model gets it.
  unfoldable pub remembered : j.Value → j.Value
  unfolding message get_str
  remembered item =
      message j (unwrap_or (get_str j item (text "role")) (text "user"))
        (unwrap_or (get_str j item (text "content")) [])

  -- The messages of the conversation that the storage returns.
  unfoldable pub past_messages : Result Text j.Value → List j.Value
  unfolding remembered
  past_messages (err e) = []
  past_messages (ok history_val) =
      map remembered (unwrap_or (j.get history_val (text "messages") >>? (λ m. j.as_array m)) [])

  module _ (kernel : Kernel j.Value) where
    -- A call of the conversation store.
    unfoldable pub store_call :
        Text → List (Text × j.Value) → Client j.Value → Result Text j.Value × Client j.Value
    unfolding invoke
    store_call method fields c =
        invoke j kernel (text "storage.conversation") method (j.object fields) c

    unfoldable pub append_turn : Text → Text → Text → Client j.Value → Client j.Value
    unfolding store_call
    append_turn conv_id role content c =
        (store_call (text "message_append")
          ((text "conversation_id", j.string conv_id)
            ∷ (text "role", j.string role)
            ∷ (text "content", j.string content)
            ∷ [])
          c).1

    -- The answer of the model is stored and returned; a failed call ends the turn.
    unfoldable pub answer_turn :
        Text → Result Text j.Value × Client j.Value → Result Text j.Value × Client j.Value
    unfolding append_turn extract_assistant_text
    answer_turn conv_id (err e, c) = (err e, c)
    answer_turn conv_id (ok gen_resp, c) =
        let assistant_text = extract_assistant_text j gen_resp in
        (
          ok (
              j.object (
                (text "conversation_id", j.string conv_id)
                ∷ (text "response", j.string assistant_text)
                ∷ [])),
          append_turn conv_id (text "assistant") assistant_text c,
        )

    unfoldable pub chat_turn :
        ℕ → Text → Option Text → Option Text → Client j.Value → Result Text j.Value × Client j.Value
    unfolding store_call append_turn answer_turn past_messages message invoke
    chat_turn now msg conversation_id system_prompt c0 =
        let conv_id = unwrap_or conversation_id (text "chat_" ++ show_nat now) in
        let c1 =
          (store_call (text "conversation_create")
            ((text "id", j.string conv_id)
              ∷ (text "title", j.string (text "Chat: " ++ take 30 msg))
              ∷ (text "model_id", j.string (text "chassis.orchestrator"))
              ∷ [])
            c0).1 in
        let (history, c2) =
          store_call (text "message_get_history") ((text "conversation_id", j.string conv_id) ∷ [])
            c1 in
        let messages =
          message j (text "system") (unwrap_or system_prompt default_system_prompt)
          ∷ (past_messages history ++ message j (text "user") msg ∷ []) in
        let c3 = append_turn conv_id (text "user") msg c2 in
        answer_turn conv_id (
          invoke j kernel (text "model.generate") (text "generate")
            (j.object ((text "messages", j.array messages) ∷ [])) c3)

    abbrev required : Text → Bool → CapabilityRequirement j.Value
    required id optional = record { id = id; optional = optional; constraints = none }

    unfoldable pub orchestrator_manifest : PluginAnnounceManifest j.Value
    unfolding announcement
    orchestrator_manifest =
        announcement j.Value (text "chassis.agent.orchestrator") (text "ReAct Agent Orchestrator")
          (text
            "Autonomous ReAct agent loop for multi-step reasoning, tool dispatch, and conversation memory")
          (text "agent.orchestrate") (text "run_goal" ∷ text "chat_turn" ∷ [])
          (required (text "model.generate") false
            ∷ required (text "tools.execute") false
            ∷ required (text "storage.conversation") true
            ∷ required (text "tools.search") true
            ∷ [])

    module _ (announced : PluginAnnounceResult j.Value → j.Value)
        (goal_value : GoalResult j.Value → j.Value) (now : ℕ) where
      -- The result of a turn as a response.
      unfoldable pub turn_response : Request j.Value → Result Text j.Value → Response j.Value
      turn_response req (ok res) = success req.id res
      turn_response req (err e) = error_response req.id (RpcError.internal_error e)

      unfoldable pub call_agent :
          Request j.Value → Client j.Value → Response j.Value × Client j.Value
      unfolding run_goal chat_turn turn_response get_str call_method call_payload
      call_agent req c =
          let method = call_method j req.params in
          let payload = call_payload j req.params in
          if text_eq method (text "run_goal")
          then (let (res, c') =
                run_goal j kernel
                  (unwrap_or (get_str j payload (text "goal"))
                    (text "Inspect the workspace and summarize status"))
                  (unwrap_or (j.get payload (text "max_steps") >>? (λ s. j.as_u64 s)) 5)
                  (get_str j payload (text "conversation_id")) c in
              (success req.id (goal_value res), c'))
          else if text_eq method (text "chat_turn")
          then (let (res, c') =
                chat_turn now (unwrap_or (get_str j payload (text "message")) (text "Hello"))
                  (get_str j payload (text "conversation_id"))
                  (get_str j payload (text "system_prompt")) c in
              (turn_response req res, c'))
          else (
            error_response req.id (
                RpcError.method_not_found (
                  text "Unknown capability method '"
                  ++ method
                  ++ text "' on capability 'agent.orchestrate'")),
            c,
          )

      unfoldable pub handle_request :
          Request j.Value → Client j.Value → Response j.Value × Client j.Value
      unfolding call_agent lifecycle orchestrator_manifest
      handle_request req c = elim (lifecycle j unknown_method announced orchestrator_manifest req) [
        | some resp ↦ (resp, c)
        | none ↦ call_agent req c
      ]
