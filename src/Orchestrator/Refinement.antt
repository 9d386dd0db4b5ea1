-- ===== src/Orchestrator/Refinement.antt =====
-- `run_goal` keeps to the protocol of rounds: what it asks and calls, and what it returns.
use ai_garage.Common.{
  ap, ◌∙◌, text, text_eq, trim, find_split, Result, ok, err, ==_iff, ℕ, zero, suc, ◌≡◌, ◌⊎◌, inl,
  inr, refl, sym, subst, List, [], ◌∷◌, ◌++◌, Option, none, some, Text, clamp, Bool-cases,
  Option-cases, arith, ◌==◌,
}
use ai_garage.Json.{Json}
use ai_garage.Paths.{is_empty}
use ai_garage.Orchestrator.{
  Action, Step, GoalResult, Client, Kernel, observed, Round, finished, going, act, append_assistant,
  fall_back, conclude, react, round, goal_loop, open_conversation, run_goal, planned,
  parse_final_answer, parse_action, model_output, completed, concluded, stopped_early, thought_of,
}
use ai_garage.Orchestrator.Rounds.{
  Call, Rounds, exhausted, answered, given_up, acted, Made, generate_call, action_call, create_call,
  append_call, for_conversation, acted_step, Output, extract-Content, Observation, Chosen,
  performed, Made-none, Made-trans, Made-invoke,
}

module _ (j : Json) where
  module _ (kernel : Kernel j.Value) (goal : Text) (cid : Option Text) where
    -- The client once the model has been asked.
    abbrev asked : List (Step j.Value) → Client j.Value → Client j.Value
    asked h c = (performed j kernel (generate_call j goal h) c).1

    abbrev Says : List (Step j.Value) → Client j.Value → Text → Type 0
    Says h c output = Output j (performed j kernel (generate_call j goal h) c).0 output

    -- What a round does after it has asked the model: it ends the goal in a way that the rounds
    -- allow, or it makes the chosen call and records it.
    abbrev Reacted : ℕ → List (Step j.Value) → Client j.Value → Round j × Client j.Value → Type 0
    Reacted i h c (e, c') =
        ((r : GoalResult j.Value) × (calls : List (Call j.Value)) × (e ≡ finished r)
          × ((n : ℕ) → Rounds j kernel goal cid (suc n) i h c r (generate_call j goal h ∷ calls))
          × Made j (asked h c) calls c')
        ⊎ ((output : Text) × (thought : Text) × (action : Action j.Value) × (obs : j.Value) × Says h
              c output
            × Chosen j goal i output thought action
            × Observation j (performed j kernel (action_call j action) (asked h c)).0 obs
            × (e ≡ going (h ++ acted_step j i thought action obs ∷ []))
            × (c' ≡ (performed j kernel (action_call j action) (asked h c)).1))

    observed-Observation : (res : Result Text j.Value) → Observation j res (observed j res)
    unfolding observed
    observed-Observation (ok val) = refl
    observed-Observation (err e) = refl

    model_output-Output : (res : Result Text j.Value) → Output j res (model_output j res)
    unfolding model_output
    model_output-Output (ok val) = extract-Content j val
    model_output-Output (err e) = refl

    act-Reacted :
        (i : ℕ) (h : List (Step j.Value)) (output thought : Text) (action : Action j.Value)
        (c : Client j.Value)
        → Says h c output
        → Chosen j goal i output thought action
        → Reacted i h c (act j kernel i h (thought, action) (asked h c))
    unfolding act
    act-Reacted i h output thought action c said chosen =
        let res = (performed j kernel (action_call j action) (asked h c)).0 in
        inr (
          output,
          thought,
          action,
          observed j res,
          said,
          chosen,
          observed-Observation res,
          refl,
          refl,
        )

    append_assistant-Made :
        (ans : Text) (cid' : Option Text) (c : Client j.Value)
        → Made j c
            (for_conversation j (append_call j ans) cid')
            (append_assistant j kernel cid' ans c)
    unfolding append_assistant
    append_assistant-Made ans none c = Made-none j c
    append_assistant-Made ans (some k) c = Made-invoke j kernel (append_call j ans k) c

    fall_back-Reacted :
        (i : ℕ) (h : List (Step j.Value)) (output : Text) (c : Client j.Value)
        → Says h c output
        → find_split output (text "Final Answer:") ≡ none
        → parse_action j output ≡ none
        → Reacted i h c (fall_back j kernel goal i h (asked h c))
    unfolding fall_back completed concluded
    fall_back-Reacted i h output c said unfound unread = elim (Bool-cases (i == 1)) [
      | inl e ↦ rw e (
          act-Reacted i h output (planned j goal).0 (planned j goal).1 c said
            (unfound, inr (unread, (==_iff i 1).0 e, refl)))
      | inr e ↦ rw e (
          inl (
            _,
            [],
            refl,
            λ n. given_up output said unfound unread (λ f. ground arith),
            Made-none j (asked h c),
          ))
    ]

    parse_final_answer-found :
        (output before after : Text)
        → find_split output (text "Final Answer:") ≡ some (before, after)
        → parse_final_answer output ≡ some (thought_of before, trim after)
    unfolding parse_final_answer
    parse_final_answer-found output before after e = rw (parse_final_answer, e) refl

    parse_final_answer-none :
        (output : Text)
        → find_split output (text "Final Answer:") ≡ none
        → parse_final_answer output ≡ none
    unfolding parse_final_answer
    parse_final_answer-none output e = rw (parse_final_answer, e) refl

    is_empty-eq : (t : Text) → is_empty t ≡ text_eq t []
    unfolding is_empty text_eq
    is_empty-eq [] = refl
    is_empty-eq (x ∷ t) = refl

    react-concludes :
        (i : ℕ) (h : List (Step j.Value)) (output : Text) (c : Client j.Value) (a : Text × Text)
        → parse_final_answer output ≡ some a
        → react j kernel goal cid i h output c ≡ conclude j kernel goal cid i h a c
    unfolding react
    react-concludes i h output c a e = rw (react, e) refl

    react-acts :
        (i : ℕ) (h : List (Step j.Value)) (output : Text) (c : Client j.Value)
        (a : Text × Action j.Value)
        → parse_final_answer output ≡ none
        → parse_action j output ≡ some a
        → react j kernel goal cid i h output c ≡ act j kernel i h a c
    unfolding react
    react-acts i h output c a e f = rw (react, e, f) refl

    react-falls_back :
        (i : ℕ) (h : List (Step j.Value)) (output : Text) (c : Client j.Value)
        → parse_final_answer output ≡ none
        → parse_action j output ≡ none
        → react j kernel goal cid i h output c ≡ fall_back j kernel goal i h c
    unfolding react
    react-falls_back i h output c e f = rw (react, e, f) refl

    conclude-Reacted :
        (i : ℕ) (h : List (Step j.Value)) (output before after : Text) (c : Client j.Value)
        → Says h c output
        → find_split output (text "Final Answer:") ≡ some (before, after)
        → Reacted i h c (conclude j kernel goal cid i h (thought_of before, trim after) (asked h c))
    unfolding conclude completed thought_of
    conclude-Reacted i h output before after c said found = inl (
      _,
      for_conversation j (append_call j (trim after)) cid,
      rw (is_empty-eq (thought_of before)) refl,
      λ n. answered output before after said found,
      append_assistant-Made (trim after) cid (asked h c),
    )

    react-Reacted :
        (i : ℕ) (h : List (Step j.Value)) (output : Text) (c : Client j.Value)
        → Says h c output
        → Reacted i h c (react j kernel goal cid i h output (asked h c))
    react-Reacted i h output c said =
        elim (Option-cases (find_split output (text "Final Answer:"))) [
          | inr ((before, after), e) ↦
              subst (Reacted i h c)
                (sym (
                  react-concludes i h output (asked h c) (thought_of before, trim after)
                    (parse_final_answer-found output before after e)))
                (conclude-Reacted i h output before after c said e)
          | inl e ↦ elim (Option-cases (parse_action j output)) [
            | inr ((thought, action), f) ↦
                subst (Reacted i h c)
                  (sym (
                    react-acts i h output (asked h c) (thought, action)
                      (parse_final_answer-none output e) f))
                  (act-Reacted i h output thought action c said (e, inl f))
            | inl f ↦
                subst (Reacted i h c)
                  (sym
                    (react-falls_back i h output (asked h c) (parse_final_answer-none output e) f))
                  (fall_back-Reacted i h output c said e f)
          ]
        ]

    round-Reacted :
        (i : ℕ) (h : List (Step j.Value)) (c : Client j.Value)
        → Reacted i h c (round j kernel goal cid i h c)
    unfolding round
    round-Reacted i h c =
        let res = (performed j kernel (generate_call j goal h) c).0 in
        react-Reacted i h (model_output j res) c (model_output-Output res)

    asked-Made :
        (h : List (Step j.Value)) (c : Client j.Value)
        → Made j c (generate_call j goal h ∷ []) (asked h c)
    asked-Made h c = Made-invoke j kernel (generate_call j goal h) c

    goal_loop-finished :
        (n i : ℕ) (h : List (Step j.Value)) (c : Client j.Value) (r : GoalResult j.Value)
        → (round j kernel goal cid i h c).0 ≡ finished r
        → goal_loop j kernel goal cid (suc n) i h c ≡ (r, (round j kernel goal cid i h c).1)
    unfolding goal_loop
    goal_loop-finished n i h c r e = rw (goal_loop, e) refl

    goal_loop-going :
        (n i : ℕ) (h h' : List (Step j.Value)) (c : Client j.Value)
        → (round j kernel goal cid i h c).0 ≡ going h'
        → goal_loop j kernel goal cid (suc n) i h c
          ≡ goal_loop j kernel goal cid n (suc i) h' (round j kernel goal cid i h c).1
    unfolding goal_loop
    goal_loop-going n i h h' c e = rw (goal_loop, e) refl

    -- The loop keeps to the rounds.
    abbrev pub Kept :
        ℕ → ℕ → List (Step j.Value) → Client j.Value → GoalResult j.Value × Client j.Value → Type 0
    Kept n i h c (r, c') =
        (calls : List (Call j.Value)) × Rounds j kernel goal cid n i h c r calls × Made j c calls c'

    goal_loop-Kept :
        (n i : ℕ) (h : List (Step j.Value)) (c : Client j.Value)
        → Kept n i h c (goal_loop j kernel goal cid n i h c)
    goal_loop-Kept zero i h c = unfold goal_loop stopped_early in ([], exhausted, Made-none j c)
    goal_loop-Kept (suc n) i h c = elim (round-Reacted i h c) [
      | inl (r, calls, e, allowed, made) ↦
          subst (Kept (suc n) i h c) (sym (goal_loop-finished n i h c r e)) (
            generate_call j goal h ∷ calls,
            allowed n,
            Made-trans j c (asked h c) (round j kernel goal cid i h c).1
                (generate_call j goal h ∷ []) calls (asked-Made h c) made,
          )
      | inr (output, thought, action, obs, said, chosen, seen, e, same) ↦
          let h' = h ++ acted_step j i thought action obs ∷ [] in
          let c1 = (performed j kernel (action_call j action) (asked h c)).1 in
          let (calls, rest, made) = goal_loop-Kept n (suc i) h' c1 in
          let c2 = (goal_loop j kernel goal cid n (suc i) h' c1).1 in
          let next : goal_loop j kernel goal cid (suc n) i h c
              ≡ goal_loop j kernel goal cid n (suc i) h' c1 =
            goal_loop-going n i h h' c e
            ∙ ap (λ (x : Client j.Value). goal_loop j kernel goal cid n (suc i) h' x) same in
          subst (Kept (suc n) i h c) (sym next) (
            generate_call j goal h ∷ action_call j action ∷ calls,
            acted output thought action obs said chosen seen rest,
            Made-trans j c (asked h c) c2 (generate_call j goal h ∷ [])
                (action_call j action ∷ calls) (asked-Made h c)
                (Made-trans j (asked h c) c1 c2 (action_call j action ∷ []) calls
                  (Made-invoke j kernel (action_call j action) (asked h c)) made),
          )
    ]

    open_conversation-Made :
        (cid' : Option Text) (c : Client j.Value)
        → Made j c
            (for_conversation j (create_call j goal) cid')
            (open_conversation j kernel goal cid' c)
    unfolding open_conversation
    open_conversation-Made none c = Made-none j c
    open_conversation-Made (some k) c = Made-invoke j kernel (create_call j goal k) c

    -- The client once the conversation is open, where there is one.
    abbrev pub opened : Client j.Value → Client j.Value
    opened c = elim cid [ none ↦ c | some k ↦ (performed j kernel (create_call j goal k) c).1 ]

    open_conversation-eq :
        (cid' : Option Text) (c : Client j.Value)
        → open_conversation j kernel goal cid' c
          ≡ elim cid' [ none ↦ c | some k ↦ (performed j kernel (create_call j goal k) c).1 ]
    unfolding open_conversation
    open_conversation-eq none c = refl
    open_conversation-eq (some k) c = refl

    pub run_goal-refines :
        (max_steps : ℕ) (c : Client j.Value)
        → let (r, c') = run_goal j kernel goal max_steps cid c in
          (calls : List (Call j.Value)) × Rounds j kernel goal cid
            (clamp 1 25 max_steps)
            1
            []
            (opened c)
            r
            calls
          × Made j c (for_conversation j (create_call j goal) cid ++ calls) c'
    unfolding run_goal
    run_goal-refines max_steps c =
        let c' = open_conversation j kernel goal cid c in
        let (calls, rounds, made) = goal_loop-Kept (clamp 1 25 max_steps) 1 [] c' in
        let r = (goal_loop j kernel goal cid (clamp 1 25 max_steps) 1 [] c').0 in
        (
          calls,
          subst
              (λ (x : Client j.Value).
                Rounds j kernel goal cid (clamp 1 25 max_steps) 1 [] x r calls)
              (open_conversation-eq cid c) rounds,
          Made-trans j c c' (goal_loop j kernel goal cid (clamp 1 25 max_steps) 1 [] c').1
              (for_conversation j (create_call j goal) cid) calls (open_conversation-Made cid c)
              made,
        )
