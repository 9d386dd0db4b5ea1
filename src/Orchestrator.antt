-- ===== src/Orchestrator.antt =====
-- crates/plugins/chassis-orchestrator/src: the agent that works on a goal in rounds of asking the
-- model and calling a tool.
mod Answers
mod Invoking
mod Prompt
mod Goal
mod Chat
pub mod Rounds
pub mod Refinement
pub mod Bounds
pub mod Reading
pub mod Turns
pub use Answers.*
pub use Invoking.*
pub use Prompt.*
pub use Goal.*
pub use Chat.*
unfoldable pub use Answers.{
  thought_of, parse_final_answer, extract_assistant_text, named_call, call_of, parse_call,
  parse_action,
}
unfoldable pub use Invoking.{new_client, outcome_of, call_request, invoke}
unfoldable pub use Prompt.{
  message, describe_action, describe_observation, describe_history, build_prompt_messages,
}
unfoldable pub use Goal.{
  is_search, concluded, observed, model_output, planned, completed, stopped_early, act,
  append_assistant, fall_back, conclude, react, round, goal_loop, open_conversation, run_goal,
}
unfoldable pub use Chat.{
  remembered, past_messages, store_call, append_turn, answer_turn, chat_turn, orchestrator_manifest,
  turn_response, call_agent, handle_request,
}
