-- ===== src/Orchestrator/Prompt.antt =====
-- crates/plugins/chassis-orchestrator/src/agent.rs: the prompt for the model.
use ai_garage.Common.{List, [], ◌∷◌, ◌++◌, Option, none, some, Text, text, show_nat}
use ai_garage.Json.{Json}
use ai_garage.Orchestrator.Answers.{Action, Step}

abbrev pub newline : Text
newline = 10 ∷ []

-- The first message of every prompt.
abbrev pub system_instructions : Text
system_instructions =
    text "You are the Chassis Sovereign ReAct Agent. You operate with zero ambient authority."
    ++ newline
    ++ text
        "You interact with the workspace by dispatching tool calls through the Chassis microkernel."
    ++ newline
    ++ newline
    ++ text "Available tools:"
    ++ newline
    ++ text "- tools.execute:file_read {\"path\": \"...\"}"
    ++ newline
    ++ text "- tools.execute:file_write {\"path\": \"...\", \"content\": \"...\"}"
    ++ newline
    ++ text "- tools.execute:list_dir {\"path\": \"...\"}"
    ++ newline
    ++ text "- tools.search:web_search {\"query\": \"...\"}"
    ++ newline
    ++ text "- tools.search:fetch_page {\"url\": \"...\"}"
    ++ newline
    ++ newline
    ++ text "Format your response strictly as:"
    ++ newline
    ++ text "Thought: <your step-by-step reasoning>"
    ++ newline
    ++ text "Action: <capability>:<method> <valid_json_payload>"
    ++ newline
    ++ newline
    ++ text "When you have achieved the goal, conclude strictly with:"
    ++ newline
    ++ text "Thought: <final reasoning>"
    ++ newline
    ++ text "Final Answer: <your complete answer>"

module _ (j : Json) where
  unfoldable pub message : Text → Text → j.Value
  message role content =
      j.object ((text "role", j.string role) ∷ (text "content", j.string content) ∷ [])

  unfoldable pub describe_action : Option (Action j.Value) → Text
  describe_action none = []
  describe_action (some act) =
      text "Action: "
      ++ act.capability
      ++ text ":"
      ++ act.method
      ++ text " "
      ++ j.to_string act.payload
      ++ newline

  unfoldable pub describe_observation : Option j.Value → Text
  describe_observation none = []
  describe_observation (some obs) = text "Observation: " ++ j.to_string obs ++ newline

  unfoldable pub describe_history : List (Step j.Value) → Text
  unfolding describe_action describe_observation
  describe_history [] = []
  describe_history (s ∷ rest) =
      (text "Step "
        ++ show_nat s.step
        ++ text ":"
        ++ newline
        ++ text "Thought: "
        ++ s.thought
        ++ newline
        ++ describe_action s.action
        ++ describe_observation s.observation)
      ++ describe_history rest

  unfoldable pub build_prompt_messages : Text → List (Step j.Value) → List j.Value
  unfolding message describe_history
  build_prompt_messages goal history =
      message (text "system") system_instructions
      ∷ message (text "user")
          ((text "Goal: " ++ goal ++ newline ++ newline) ++ describe_history history)
      ∷ []
