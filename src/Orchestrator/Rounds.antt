-- ===== src/Orchestrator/Rounds.antt =====
-- crates/plugins/chassis-orchestrator/src/agent.rs: the calls that work on a goal may make, as a
-- protocol of rounds, and the requests that calls leave behind.
use mathlib.Core.List.{append_assoc, append-nil}
use ai_garage.Common.{
  inl, inr, ◌∙◌, Option-cases, ℕ, suc, ◌+◌, ◌%◌, ◌^◌, ◌≡◌, ◌≢◌, ◌⊎◌, refl, sym, ap, List, [], ◌∷◌,
  ◌++◌, Option, none, some, Text, text, text_eq, trim, strip_prefix, unwrap_or, show_nat, length,
  find_split, Result, ok, err, if◌then◌else◌,
}
use ai_garage.Json.{Json}
use ai_garage.Protocol.JsonRpc.{Request}
use ai_garage.Orchestrator.{
  Action, Step, GoalResult, Client, Kernel, call_request, invoke, build_prompt_messages,
  extract_assistant_text, parse_action, planned,
}

pub record Call (V : Type 0) : Type 0 where
  pub capability : Text
  pub method : Text
  pub payload : V

module _ (j : Json) where
  -- The requests of calls, under the identifiers from `n` on.
  unfoldable pub requests_from : ℕ → List (Call j.Value) → List (Request j.Value)
  requests_from n [] = []
  requests_from n (c ∷ cs) =
      call_request j n c.capability c.method c.payload ∷ requests_from ((n + 1) % 2 ^ 64) cs

  abbrev pub generate_call : Text → List (Step j.Value) → Call j.Value
  generate_call goal history = record {
    capability = text "model.generate";
    method = text "generate";
    payload = j.object ((text "messages", j.array (build_prompt_messages j goal history)) ∷ []);
  }

  abbrev pub action_call : Action j.Value → Call j.Value
  action_call a = record { capability = a.capability; method = a.method; payload = a.payload }

  abbrev pub create_call : Text → Text → Call j.Value
  create_call goal cid = record {
    capability = text "storage.conversation";
    method = text "conversation_create";
    payload = j.object (
        (text "id", j.string cid)
        ∷ (text "title", j.string (text "Goal: " ++ goal))
        ∷ (text "model_id", j.string (text "chassis.orchestrator"))
        ∷ []);
  }

  abbrev pub append_call : Text → Text → Call j.Value
  append_call final_ans cid = record {
    capability = text "storage.conversation";
    method = text "message_append";
    payload = j.object (
        (text "conversation_id", j.string cid)
        ∷ (text "role", j.string (text "assistant"))
        ∷ (text "content", j.string final_ans)
        ∷ []);
  }

  -- A call for the conversation, where there is one.
  abbrev pub for_conversation : (Text → Call j.Value) → Option Text → List (Call j.Value)
  for_conversation f none = []
  for_conversation f (some cid) = f cid ∷ []

  abbrev pub acted_step : ℕ → Text → Action j.Value → j.Value → Step j.Value
  acted_step i thought action obs = record {
    step = i;
    thought = thought;
    action = some action;
    observation = some obs;
  }

  -- The step that ends a history.
  abbrev pub last_step : ℕ → Text → Step j.Value
  last_step i thought = record { step = i; thought = thought; action = none; observation = none }

  abbrev pub reached : Text → Text → List (Step j.Value) → GoalResult j.Value
  reached goal final_ans history = record {
    status = text "completed";
    goal = goal;
    steps = length history;
    final_answer = final_ans;
    history = history;
  }

  abbrev pub ran_out : Text → List (Step j.Value) → GoalResult j.Value
  ran_out goal history = record {
    status = text "max_steps_reached";
    goal = goal;
    steps = length history;
    final_answer = text "Execution stopped after reaching maximum allotted steps.";
    history = history;
  }

  -- The answer of the model has this text as `choices[0].message.content`.
  abbrev pub Content : j.Value → Text → Type 0
  Content val output =
      (choices : j.Value) × (first : j.Value) × (message : j.Value) × (content : j.Value) × (j.get
          val (text "choices")
        ≡ some choices)
      × (j.get_index choices 0 ≡ some first)
      × (j.get first (text "message") ≡ some message)
      × (j.get message (text "content") ≡ some content)
      × (j.as_str content ≡ some output)

  -- The text of the model, from what the kernel answered; empty where the answer has none.
  abbrev pub Output : Result Text j.Value → Text → Type 0
  Output (ok val) output = Content val output ⊎ (((t : Text) → ¬ Content val t) × (output ≡ []))
  Output (err e) output = output ≡ text "Error invoking model: " ++ e

  pub extract-Content : (val : j.Value) → Output (ok val) (extract_assistant_text j val)
  unfolding extract_assistant_text
  extract-Content val = elim (Option-cases (j.get val (text "choices"))) [
    | inl e ↦ inr (λ t (a, b, m, x, h1, h2, h3, h4, h5). cc, rw e refl)
    | inr (choices, e1) ↦ elim (Option-cases (j.get_index choices 0)) [
      | inl e ↦ inr (λ t (a, b, m, x, h1, h2, h3, h4, h5). cc, rw (e1, e) refl)
      | inr (first, e2) ↦ elim (Option-cases (j.get first (text "message"))) [
        | inl e ↦ inr (λ t (a, b, m, x, h1, h2, h3, h4, h5). cc, rw (e1, e2, e) refl)
        | inr (msg, e3) ↦ elim (Option-cases (j.get msg (text "content"))) [
          | inl e ↦ inr (λ t (a, b, m, x, h1, h2, h3, h4, h5). cc, rw (e1, e2, e3, e) refl)
          | inr (content, e4) ↦ elim (Option-cases (j.as_str content)) [
            | inl e ↦ inr (λ t (a, b, m, x, h1, h2, h3, h4, h5). cc, rw (e1, e2, e3, e4, e) refl)
            | inr (said, e5) ↦ inl (
              choices,
              first,
              msg,
              content,
              e1,
              e2,
              e3,
              e4,
              e5 ∙ ap (λ (t : Text). some t) (rw (e1, e2, e3, e4, e5) refl),
            )
          ]
        ]
      ]
    ]
  ]

  -- What is recorded of a call, from what the kernel answered.
  abbrev pub Observation : Result Text j.Value → j.Value → Type 0
  Observation (ok val) obs = obs ≡ val
  Observation (err e) obs = obs ≡ j.object ((text "error", j.string e) ∷ [])

  -- The model names no final answer, but this action; or, in the first round, neither of them, and
  -- the action is the one planned for the goal.
  abbrev pub Chosen : Text → ℕ → Text → Text → Action j.Value → Type 0
  Chosen goal i output thought action =
      (find_split output (text "Final Answer:") ≡ none)
      × ((parse_action j output ≡ some (thought, action))
          ⊎ ((parse_action j output ≡ none) × (i ≡ 1) × (planned j goal ≡ (thought, action))))

  -- The thought before the final answer, and a default for an empty one.
  abbrev pub reasoned : Text → Text
  reasoned before =
      let thought = trim (unwrap_or (strip_prefix before (text "Thought:")) before) in
      if text_eq thought [] then text "Goal satisfied." else thought

  abbrev pub gathered : Text → ℕ → Text
  gathered goal n =
      text "Completed goal '"
      ++ goal
      ++ text "'. Reasoned across "
      ++ show_nat n
      ++ text " steps. System context and tool observations gathered successfully."

  -- The next identifier after calls.
  unfoldable pub id_after : ℕ → List (Call j.Value) → ℕ
  id_after n [] = n
  id_after n (c ∷ cs) = id_after ((n + 1) % 2 ^ 64) cs

  -- The second client is the first after calls.
  abbrev pub Made : Client j.Value → List (Call j.Value) → Client j.Value → Type 0
  Made c calls c' =
      (c'.sent ≡ c.sent ++ requests_from c.next_id calls) × (c'.next_id ≡ id_after c.next_id calls)

  pub requests_from-append :
      (n : ℕ) (xs ys : List (Call j.Value))
      → requests_from n (xs ++ ys) ≡ requests_from n xs ++ requests_from (id_after n xs) ys
  unfolding requests_from id_after
  requests_from-append n [] ys = refl
  requests_from-append n (x ∷ xs) ys =
      ap (λ (rs : List (Request j.Value)). call_request j n x.capability x.method x.payload ∷ rs)
        (requests_from-append ((n + 1) % 2 ^ 64) xs ys)

  pub id_after-append :
      (n : ℕ) (xs ys : List (Call j.Value)) → id_after n (xs ++ ys) ≡ id_after (id_after n xs) ys
  unfolding id_after
  id_after-append n [] ys = refl
  id_after-append n (x ∷ xs) ys = id_after-append ((n + 1) % 2 ^ 64) xs ys

  pub Made-none : (c : Client j.Value) → Made c [] c
  unfolding requests_from id_after
  Made-none c = (sym (append-nil c.sent), refl)

  pub Made-trans :
      (c c' c'' : Client j.Value) (xs ys : List (Call j.Value))
      → Made c xs c'
      → Made c' ys c''
      → Made c (xs ++ ys) c''
  Made-trans c c' c'' xs ys (e, f) (g, k) = (
    rw
        (
          g,
          e,
          f,
          requests_from-append c.next_id xs ys,
          append_assoc c.sent (requests_from c.next_id xs)
              (requests_from (id_after c.next_id xs) ys),
        )
        refl,
    rw (k, f, id_after-append c.next_id xs ys) refl,
  )

  pub Made-invoke :
      (kernel : Kernel j.Value) (call : Call j.Value) (c : Client j.Value)
      → Made c (call ∷ []) (invoke j kernel call.capability call.method call.payload c).1
  unfolding requests_from id_after invoke
  Made-invoke kernel call c = (refl, refl)

  module _ (kernel : Kernel j.Value) where
    -- The result of a call, and the client after it.
    abbrev pub performed : Call j.Value → Client j.Value → Result Text j.Value × Client j.Value
    performed call c = invoke j kernel call.capability call.method call.payload c

    -- What happens in the rounds still allowed, from round `i`, a history and a client on: the result
    -- and the calls.
    pub data Rounds (goal : Text) (cid : Option Text)
        : ℕ
          → ℕ
          → List (Step j.Value)
          → Client j.Value
          → GoalResult j.Value
          → List (Call j.Value)
          → Type 0 where
      exhausted :
          {i : ℕ} {h : List (Step j.Value)} {c : Client j.Value}
          → Rounds goal cid 0 i h c (ran_out goal h) []
      -- The model's final answer is the result, and is stored.
      answered :
          {n i : ℕ} {h : List (Step j.Value)} {c : Client j.Value} (output before after : Text)
          → Output (performed (generate_call goal h) c).0 output
          → find_split output (text "Final Answer:") ≡ some (before, after)
          → Rounds goal cid
              (suc n)
              i
              h
              c
              (reached goal (trim after) (h ++ last_step i (reasoned before) ∷ []))
              (generate_call goal h ∷ for_conversation (append_call (trim after)) cid)
      given_up :
          {n i : ℕ} {h : List (Step j.Value)} {c : Client j.Value} (output : Text)
          → Output (performed (generate_call goal h) c).0 output
          → find_split output (text "Final Answer:") ≡ none
          → parse_action j output ≡ none
          → i ≢ 1
          → Rounds goal cid
              (suc n)
              i
              h
              c
              (reached goal
                (gathered goal (length h))
                (h ++ last_step i (text "Information gathered. Ready to form conclusion.") ∷ []))
              (generate_call goal h ∷ [])
      -- The chosen action is called, and the kernel's answer is its observation.
      acted :
          {n i : ℕ} {h : List (Step j.Value)} {c : Client j.Value} {r : GoalResult j.Value}
          {calls : List (Call j.Value)} (output thought : Text) (action : Action j.Value)
          (obs : j.Value)
          → Output (performed (generate_call goal h) c).0 output
          → Chosen goal i output thought action
          → Observation
              (performed (action_call action) (performed (generate_call goal h) c).1).0
              obs
          → Rounds goal cid n
              (suc i)
              (h ++ acted_step i thought action obs ∷ [])
              (performed (action_call action) (performed (generate_call goal h) c).1).1
              r
              calls
          → Rounds goal cid (suc n) i h c r (generate_call goal h ∷ action_call action ∷ calls)
