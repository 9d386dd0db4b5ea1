-- ===== src/Orchestrator/Goal.antt =====
-- crates/plugins/chassis-orchestrator/src/agent.rs: the loop of `run_goal`.
use ai_garage.Common.{
  ℕ, zero, suc, ◌==◌, Bool, List, [], ◌∷◌, ◌++◌, Option, none, some, Text, text, to_lowercase,
  contains, any, length, show_nat, Result, ok, err, if◌then◌else◌, clamp,
}
use ai_garage.Json.{Json}
use ai_garage.Paths.{is_empty}
use ai_garage.Orchestrator.Answers.{
  Action, Step, GoalResult, extract_assistant_text, parse_final_answer, parse_action,
}
use ai_garage.Orchestrator.Prompt.{build_prompt_messages}
use ai_garage.Orchestrator.Invoking.{Client, Kernel, invoke}

-- The words of a goal that ask for a search.
abbrev pub search_words : List Text
search_words =
    text "search"
    ∷ text "find out"
    ∷ text "research"
    ∷ text "lookup"
    ∷ text "who is"
    ∷ text "what is"
    ∷ text "rag"
    ∷ text "web"
    ∷ []

unfoldable pub is_search : Text → Bool
is_search goal =
    let goal_lower = to_lowercase goal in any (λ word. contains goal_lower word) search_words

unfoldable pub concluded : Text → ℕ → Text
concluded goal n =
    text "Completed goal '"
    ++ goal
    ++ text "'. Reasoned across "
    ++ show_nat n
    ++ text " steps. System context and tool observations gathered successfully."

module _ (j : Json) where
  -- What the step records of a call.
  unfoldable pub observed : Result Text j.Value → j.Value
  observed (ok val) = val
  observed (err e) = j.object ((text "error", j.string e) ∷ [])

  unfoldable pub model_output : Result Text j.Value → Text
  unfolding extract_assistant_text
  model_output (ok val) = extract_assistant_text j val
  model_output (err e) = text "Error invoking model: " ++ e

  -- The thought and the action of the first round where the model names none.
  unfoldable pub planned : Text → Text × Action j.Value
  unfolding is_search
  planned goal =
      if is_search goal
      then (
        text "Searching for external knowledge and RAG context.",
        record {
          capability = text "tools.search";
          method = text "web_search";
          payload =
              j.object ((text "query", j.string goal) ∷ (text "max_results", j.number 3) ∷ []);
        },
      )
      else (
        text "Inspecting workspace files to orient and gather context.",
        record {
          capability = text "tools.execute";
          method = text "list_dir";
          payload = j.object ((text "path", j.string (text ".")) ∷ []);
        },
      )

  -- How a round ends: by the result, or by the history with a step more.
  pub data Round : Type 0 where
    finished : GoalResult j.Value → Round
    going : List (Step j.Value) → Round

  unfoldable pub completed : Text → Text → List (Step j.Value) → GoalResult j.Value
  completed goal final_answer history = record {
    status = text "completed";
    goal = goal;
    steps = length history;
    final_answer = final_answer;
    history = history;
  }

  unfoldable pub stopped_early : Text → List (Step j.Value) → GoalResult j.Value
  stopped_early goal history = record {
    status = text "max_steps_reached";
    goal = goal;
    steps = length history;
    final_answer = text "Execution stopped after reaching maximum allotted steps.";
    history = history;
  }

  -- The step without an action that a conclusion adds.
  abbrev pub closing_step : ℕ → Text → Step j.Value
  closing_step step_idx thought = record {
    step = step_idx;
    thought = thought;
    action = none;
    observation = none;
  }

  module _ (kernel : Kernel j.Value) where
    -- The call of a tool, and the step that records it.
    unfoldable pub act :
        ℕ → List (Step j.Value) → Text × Action j.Value → Client j.Value → Round × Client j.Value
    unfolding invoke observed
    act step_idx history (thought, action) c =
        let (res, c') = invoke j kernel action.capability action.method action.payload c in
        (
          going (
              history
              ++ record {
                step = step_idx;
                thought = thought;
                action = some action;
                observation = some (observed res);
              }
                ∷ []),
          c',
        )

    unfoldable pub append_assistant : Option Text → Text → Client j.Value → Client j.Value
    unfolding invoke
    append_assistant none final_ans c = c
    append_assistant (some cid) final_ans c =
        (invoke j kernel (text "storage.conversation") (text "message_append")
          (j.object (
            (text "conversation_id", j.string cid)
            ∷ (text "role", j.string (text "assistant"))
            ∷ (text "content", j.string final_ans)
            ∷ []))
          c).1

    -- The round where the model gives neither an answer nor an action.
    unfoldable pub fall_back :
        Text → ℕ → List (Step j.Value) → Client j.Value → Round × Client j.Value
    unfolding act planned completed concluded
    fall_back goal step_idx history c =
        if step_idx == 1 then act step_idx history (planned goal) c else (
          finished (
              completed goal (concluded goal (length history)) (
                history
                ++ closing_step step_idx (text "Information gathered. Ready to form conclusion.")
                  ∷ [])),
          c,
        )

    unfoldable pub conclude :
        Text
        → Option Text
        → ℕ
        → List (Step j.Value)
        → Text × Text
        → Client j.Value
        → Round × Client j.Value
    unfolding append_assistant completed
    conclude goal cid step_idx history (thought, final_ans) c = (
      finished (
          completed goal final_ans (
            history
            ++ closing_step step_idx (if is_empty thought then text "Goal satisfied." else thought)
              ∷ [])),
      append_assistant cid final_ans c,
    )

    -- What follows the output of the model.
    unfoldable pub react :
        Text
        → Option Text
        → ℕ
        → List (Step j.Value)
        → Text
        → Client j.Value
        → Round × Client j.Value
    unfolding conclude act fall_back
    react goal cid step_idx history output c = elim (parse_final_answer output) [
      | some answer ↦ conclude goal cid step_idx history answer c
      | none ↦ elim (parse_action j output) [
        | some chosen ↦ act step_idx history chosen c
        | none ↦ fall_back goal step_idx history c
      ]
    ]

    unfoldable pub round :
        Text → Option Text → ℕ → List (Step j.Value) → Client j.Value → Round × Client j.Value
    unfolding invoke build_prompt_messages model_output react
    round goal cid step_idx history c =
        let (gen_res, c') =
          invoke j kernel (text "model.generate") (text "generate")
            (j.object ((text "messages", j.array (build_prompt_messages j goal history)) ∷ [])) c in
        react goal cid step_idx history (model_output gen_res) c'

    -- `for step_idx in first..=last`, with the rounds still allowed.
    unfoldable pub goal_loop :
        Text
        → Option Text
        → ℕ
        → ℕ
        → List (Step j.Value)
        → Client j.Value
        → GoalResult j.Value × Client j.Value
    unfolding round stopped_early
    goal_loop goal cid zero step_idx history c = (stopped_early goal history, c)
    goal_loop goal cid (suc left) step_idx history c =
        let (end, c') = round goal cid step_idx history c in
        elim end [
          | finished res ↦ (res, c')
          | going history' ↦ goal_loop goal cid left (suc step_idx) history' c'
        ]

    unfoldable pub open_conversation : Text → Option Text → Client j.Value → Client j.Value
    unfolding invoke
    open_conversation goal none c = c
    open_conversation goal (some cid) c =
        (invoke j kernel (text "storage.conversation") (text "conversation_create")
          (j.object (
            (text "id", j.string cid)
            ∷ (text "title", j.string (text "Goal: " ++ goal))
            ∷ (text "model_id", j.string (text "chassis.orchestrator"))
            ∷ []))
          c).1

    unfoldable pub run_goal :
        Text → ℕ → Option Text → Client j.Value → GoalResult j.Value × Client j.Value
    unfolding goal_loop open_conversation clamp
    run_goal goal max_steps cid c =
        goal_loop goal cid (clamp 1 25 max_steps) 1 [] (open_conversation goal cid c)
