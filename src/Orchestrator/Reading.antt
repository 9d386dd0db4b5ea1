-- ===== src/Orchestrator/Reading.antt =====
-- What the orchestrator reads from text in the format that its prompt asks for.
use ai_garage.Common.{
  ◌≡◌, ap, ◌∙◌, refl, false, [], ◌∷◌, ◌++◌, some, Text, text, trim, contains, any, find_split,
  find_split-first, splitn_2, splitn_2-first, strip_prefix-append, unwrap_or, ◌==◌, is_whitespace,
  trim-snoc, trim-plain, no_space, trim-space, any-append,
}
use ai_garage.Json.{Json}
use ai_garage.Orchestrator.{
  Action, thought_of, parse_final_answer, named_call, call_of, parse_call, parse_action, newline,
}

-- `Thought: …`, then a line that begins with `label`, which ends in a colon, and the rest.
abbrev pub reply : Text → Text → Text → Text
reply thought label rest =
    (text "Thought:" ++ (thought ++ newline)) ++ ((label ++ b':' ∷ []) ++ rest)

thought_of-reply :
    (thought : Text) → thought_of (text "Thought:" ++ (thought ++ newline)) ≡ trim thought
unfolding thought_of
thought_of-reply thought =
    rw (thought_of, strip_prefix-append (text "Thought:") (thought ++ newline))
      (trim-snoc thought 10 (unfold is_whitespace in refl))

answer_mark : text "Final Answer:" ≡ text "Final Answer" ++ b':' ∷ []
unfolding text
answer_mark = refl

action_mark : text "Action:" ≡ text "Action" ++ b':' ∷ []
unfolding text
action_mark = refl

-- A reply that concludes is read as its thought and its answer, where the words "Final Answer:" do
-- not begin before.
pub parse_final_answer-reply :
    (thought answer : Text)
    → contains
        ((text "Thought:" ++ (thought ++ newline)) ++ text "Final Answer")
        (text "Final Answer" ++ b':' ∷ [])
      ≡ false
    → parse_final_answer (reply thought (text "Final Answer") answer)
      ≡ some (trim thought, trim answer)
unfolding parse_final_answer
parse_final_answer-reply thought answer h =
    rw
      (
        parse_final_answer,
        answer_mark,
        find_split-first (text "Thought:" ++ (thought ++ newline)) (text "Final Answer") b':' answer
            h,
        thought_of-reply thought,
      )
      refl

plain-named :
    (capability method : Text)
    → any is_whitespace capability ≡ false
    → any is_whitespace method ≡ false
    → any is_whitespace (capability ++ b':' ∷ method) ≡ false
unfolding is_whitespace
plain-named capability method h k = rw (any-append is_whitespace capability (b':' ∷ method), h) k

module _ (j : Json) where
  parse_call-line :
      (capability method json : Text)
      → any is_whitespace capability ≡ false
      → any is_whitespace method ≡ false
      → any (λ x. x == b':') capability ≡ false
      → parse_call j ((capability ++ b':' ∷ method) ++ 32 ∷ json)
        ≡ some record {
          capability = capability;
          method = method;
          payload = unwrap_or (j.from_str (trim json)) (j.object []);
        }
  unfolding parse_call
  parse_call-line capability method json plain_c plain_m k =
      let named = plain-named capability method plain_c plain_m in
      ap (call_of j) (splitn_2-first 32 (capability ++ b':' ∷ method) json (no_space _ named))
      ∙ ap (named_call j (some json)) (
          ap (splitn_2 b':') (trim-plain (capability ++ b':' ∷ method) named)
          ∙ splitn_2-first b':' capability method k)
      ∙ rw (trim-plain capability plain_c, trim-plain method plain_m) refl

  parse_action-found :
      (t q r : Text) (a : Action j.Value)
      → find_split t (text "Action:") ≡ some (q, r)
      → parse_call j (trim r) ≡ some a
      → parse_action j t ≡ some (thought_of q, a)
  unfolding parse_action
  parse_action-found t q r a e f = rw (parse_action, e, f) refl

  -- A reply that calls a tool is read as its thought, without the white space around it, and the call:
  -- the capability, the method and the payload that the text of the payload decodes to, or an empty
  -- object. The words "Action:" must not begin before, the names hold no white space, the capability
  -- no colon, and the line does not end in white space.
  pub parse_action-reply :
      (thought capability method json : Text)
      → contains
          ((text "Thought:" ++ (thought ++ newline)) ++ text "Action")
          (text "Action" ++ b':' ∷ [])
        ≡ false
      → any is_whitespace capability ≡ false
      → any is_whitespace method ≡ false
      → any (λ x. x == b':') capability ≡ false
      → trim ((capability ++ b':' ∷ method) ++ 32 ∷ json)
        ≡ (capability ++ b':' ∷ method) ++ 32 ∷ json
      → parse_action j
          (reply thought (text "Action") (32 ∷ ((capability ++ b':' ∷ method) ++ 32 ∷ json)))
        ≡ some (
          trim thought,
          record {
            capability = capability;
            method = method;
            payload = unwrap_or (j.from_str (trim json)) (j.object []);
          },
        )
  parse_action-reply thought capability method json h plain_c plain_m colon line =
      let rest = (capability ++ b':' ∷ method) ++ 32 ∷ json in
      let found =
        find_split-first (text "Thought:" ++ (thought ++ newline)) (text "Action") b':' (32 ∷ rest)
          h in
      let a : Action j.Value = record {
        capability = capability;
        method = method;
        payload = unwrap_or (j.from_str (trim json)) (j.object []);
      } in
      parse_action-found (reply thought (text "Action") (32 ∷ rest))
        (text "Thought:" ++ (thought ++ newline)) (32 ∷ rest) a (rw action_mark found)
        (ap (parse_call j) (trim-space rest ∙ line)
          ∙ parse_call-line capability method json plain_c plain_m colon)
      ∙ ap (λ (t : Text). some (t, a)) (thought_of-reply thought)
