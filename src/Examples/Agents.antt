-- ===== src/Examples/Agents.antt =====
-- A goal, a turn of a conversation and a reply at concrete inputs.
use ai_garage.Common.{
  ◌==◌, ◌+◌, ◌*◌, ◌≤◌, ◌≡◌, ◌⊎◌, refl, true, false, [], ◌∷◌, ◌++◌, none, some, Text, text, trim,
  trim_start, trim_end, is_whitespace, length, clamp, contains, starts_with, any, unwrap_or,
}
use ai_garage.Int.{pos}
use ai_garage.Protocol.JsonRpc.{number, success}
use ai_garage.Orchestrator.{Kernel, new_client, run_goal, parse_action}
use ai_garage.Orchestrator.Rounds.{Rounds}
use ai_garage.Orchestrator.Bounds.{run_goal_bounds, IsNumbered}
use ai_garage.Orchestrator.Reading.{reply, parse_action-reply}
use ai_garage.Examples.Samples.{Value, object, string, array, field, no_values, values}

abbrev answer : Value
answer = object (
    field (text "choices")
      (array (
        field []
          (object (
            field (text "message")
              (object (
                field (text "content") (string (text "Thought: known\nFinal Answer: 42"))
                  no_values))
              no_values))
          no_values))
      no_values)

-- A kernel that takes every request and answers it alike.
abbrev kernel : Kernel Value
kernel = record {
  takes = λ requests. true;
  reply = λ requests. some (success (number (pos 1)) answer);
}

abbrev goal : Text
goal = text "look it up"

run_goal_bounds_example :
    let (r, c') = run_goal values kernel goal 40 none new_client in
    (1 ≤ r.steps)
    × (r.steps ≤ clamp 1 25 40)
    × (r.steps ≡ length r.history)
    × IsNumbered values r.history
    × ((r.status ≡ text "completed") ⊎ (r.steps ≡ clamp 1 25 40))
    × (length c'.sent ≤ length (new_client {V = Value}).sent + 1 + 2 * clamp 1 25 40)
run_goal_bounds_example = run_goal_bounds values kernel goal none 40 new_client

abbrev line : Text
line = (text "web" ++ b':' ∷ text "find") ++ 32 ∷ text "rust"

line_trimmed : trim line ≡ line
unfolding trim trim_start trim_end text is_whitespace
line_trimmed = refl

thought_plain :
    contains
      ((text "Thought:" ++ (text "Look." ++ 10 ∷ [])) ++ text "Action")
      (text "Action" ++ b':' ∷ [])
    ≡ false
unfolding contains starts_with text
thought_plain = refl

web_plain : any is_whitespace (text "web") ≡ false
unfolding text is_whitespace
web_plain = refl

find_plain : any is_whitespace (text "find") ≡ false
unfolding text is_whitespace
find_plain = refl

web_colon : any (λ x. x == 58) (text "web") ≡ false
unfolding text
web_colon = refl

parse_action_example :
    parse_action values (
      reply
        (text "Look.")
        (text "Action")
        (32 ∷ ((text "web" ++ b':' ∷ text "find") ++ 32 ∷ text "rust")))
    ≡ some (
      trim (text "Look."),
      record {
        capability = text "web";
        method = text "find";
        payload = unwrap_or (values.from_str (trim (text "rust"))) (values.object []);
      },
    )
parse_action_example =
    parse_action-reply values (text "Look.") (text "web") (text "find") (text "rust") thought_plain
      web_plain find_plain web_colon line_trimmed
