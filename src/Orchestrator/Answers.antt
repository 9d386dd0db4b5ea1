-- ===== src/Orchestrator/Answers.antt =====
-- crates/plugins/chassis-orchestrator/src/agent.rs: the steps of a goal and how the text of the model
-- is read.
use ai_garage.Common.{
  ℕ, List, [], Option, none, some, Text, text, trim, strip_prefix, unwrap_or, find_split, splitn_2,
}
use ai_garage.Json.{Json}
use ai_garage.Plugins.Serving.{◌>>?◌}

pub record Action (V : Type 0) : Type 0 where
  pub capability : Text
  pub method : Text
  pub payload : V

pub record Step (V : Type 0) : Type 0 where
  pub step : ℕ
  pub thought : Text
  pub action : Option (Action V)
  pub observation : Option V

pub record GoalResult (V : Type 0) : Type 0 where
  pub status : Text
  pub goal : Text
  pub steps : ℕ
  pub final_answer : Text
  pub history : List (Step V)

unfoldable pub thought_of : Text → Text
thought_of thought_part =
    trim (unwrap_or (strip_prefix thought_part (text "Thought:")) thought_part)

unfoldable pub parse_final_answer : Text → Option (Text × Text)
unfolding find_split
parse_final_answer t = elim (find_split t (text "Final Answer:")) [
  | none ↦ none
  | some (thought_part, answer) ↦ some (thought_of thought_part, trim answer)
]

module _ (j : Json) where
  unfoldable pub extract_assistant_text : j.Value → Text
  extract_assistant_text val =
      unwrap_or
        (j.get val (text "choices")
          >>? (λ c. j.get_index c 0)
          >>? (λ c. j.get c (text "message"))
          >>? (λ m. j.get m (text "content"))
          >>? j.as_str)
        []

  unfoldable pub named_call : Option Text → Text × Option Text → Option (Action j.Value)
  named_call json_str (capability, none) = none
  named_call json_str (capability, some method) = some record {
    capability = trim capability;
    method = trim method;
    payload = unwrap_or (j.from_str (trim (unwrap_or json_str (text "{}")))) (j.object []);
  }

  unfoldable pub call_of : Text × Option Text → Option (Action j.Value)
  unfolding named_call splitn_2
  call_of (cap_method, json_str) = named_call json_str (splitn_2 b':' (trim cap_method))

  -- The text after "Action:": the capability and the method, then the payload.
  unfoldable pub parse_call : Text → Option (Action j.Value)
  unfolding call_of splitn_2
  parse_call action_line = call_of (splitn_2 32 action_line)

  unfoldable pub parse_action : Text → Option (Text × Action j.Value)
  unfolding find_split parse_call
  parse_action t = elim (find_split t (text "Action:")) [
    | none ↦ none
    | some (thought_part, rest) ↦ elim (parse_call (trim rest)) [
      | none ↦ none
      | some action ↦ some (thought_of thought_part, action)
    ]
  ]
