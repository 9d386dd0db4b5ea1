-- ===== src/Orchestrator/Bounds.antt =====
-- How long the work on a goal can get.
use ai_garage.Common.{
  trim, ℕ, zero, suc, ◌+◌, ◌*◌, ◌%◌, ◌^◌, ◌≤◌, ◌≡◌, ◌⊎◌, inl, inr, refl, ap, List, [], ◌∷◌, ◌++◌,
  Option, none, some, Text, text, map, length, length-append, clamp, clamp_bounds, arith,
}
use ai_garage.Json.{Json}
use ai_garage.Orchestrator.{Step, GoalResult, Client, Kernel, run_goal}
use ai_garage.Orchestrator.Rounds.{
  Call, Rounds, exhausted, answered, given_up, acted, requests_from, create_call, for_conversation,
  append_call, acted_step, last_step, reached, reasoned,
}
use ai_garage.Orchestrator.Refinement.{run_goal-refines}

-- `k`, `k + 1`, and so on: `n` numbers.
unfoldable pub count_from : ℕ → ℕ → List ℕ
count_from k zero = []
count_from k (suc n) = k ∷ count_from (suc k) n

count_from-snoc : (k n : ℕ) → count_from k (n + 1) ≡ count_from k n ++ (k + n) ∷ []
unfolding count_from
count_from-snoc k zero = ground arith
count_from-snoc k (suc n) = ground (arith, count_from-snoc (suc k) n)

module _ (j : Json) where
  abbrev numbers : List (Step j.Value) → List ℕ
  numbers h = map (λ (s : Step j.Value). s.step) h

  map-snoc :
      (h : List (Step j.Value)) (s : Step j.Value)
      → numbers (h ++ s ∷ []) ≡ numbers h ++ s.step ∷ []
  map-snoc [] s = refl
  map-snoc (x ∷ h) s = ap (λ (ns : List ℕ). x.step ∷ ns) (map-snoc h s)

  -- The steps of the history are numbered from 1.
  abbrev pub IsNumbered : List (Step j.Value) → Type 0
  IsNumbered h = numbers h ≡ count_from 1 (length h)

  IsNumbered-snoc :
      (h : List (Step j.Value)) (s : Step j.Value)
      → IsNumbered h
      → s.step ≡ 1 + length h
      → IsNumbered (h ++ s ∷ [])
  IsNumbered-snoc h s nh e =
      rw (map-snoc h s, length-append h (s ∷ []), count_from-snoc 1 (length h), nh, e) refl

  length-requests_from :
      (n : ℕ) (calls : List (Call j.Value)) → length (requests_from j n calls) ≡ length calls
  unfolding requests_from
  length-requests_from n [] = refl
  length-requests_from n (c ∷ cs) = ground (arith, length-requests_from ((n + 1) % 2 ^ 64) cs)

  pub record Bounded (n : ℕ) (h : List (Step j.Value)) (r : GoalResult j.Value)
      (calls : List (Call j.Value)) : Type 0 where
    pub counted : r.steps ≡ length r.history
    pub numbered : IsNumbered r.history
    pub at_least : length h ≤ r.steps
    pub at_most : r.steps ≤ length h + n
    pub progress : (n ≡ 0) ⊎ (1 + length h ≤ r.steps)
    pub ended : (r.status ≡ text "completed") ⊎ (r.steps ≡ length h + n)
    pub few_calls : length calls ≤ 2 * n

  few-for_conversation :
      (f : Text → Call j.Value) (cid : Option Text) → length (for_conversation j f cid) ≤ 1
  few-for_conversation f none = omega arith
  few-for_conversation f (some k) = omega arith

  module _ (kernel : Kernel j.Value) (goal : Text) (cid : Option Text) where
    -- A history that a last step completes.
    Bounded-completed :
        (n : ℕ) (h : List (Step j.Value)) (s : Step j.Value) (ans : Text)
        (calls : List (Call j.Value))
        → IsNumbered h
        → s.step ≡ 1 + length h
        → length calls ≤ 2
        → Bounded (suc n) h (reached j goal ans (h ++ s ∷ [])) calls
    Bounded-completed n h s ans calls nh e few = record {
      counted = refl;
      numbered = IsNumbered-snoc h s nh e;
      at_least = omega (arith, length-append h (s ∷ []));
      at_most = omega (arith, length-append h (s ∷ []));
      progress = inr (omega (arith, length-append h (s ∷ [])));
      ended = inl refl;
      few_calls = omega arith;
    }

    -- A history that goes on after a step.
    Bounded-acted :
        (n : ℕ) (h : List (Step j.Value)) (s : Step j.Value) (r : GoalResult j.Value)
        (first second : Call j.Value) (calls : List (Call j.Value))
        → Bounded n (h ++ s ∷ []) r calls
        → Bounded (suc n) h r (first ∷ second ∷ calls)
    Bounded-acted n h s r first second calls b = record {
      counted = b.counted;
      numbered = b.numbered;
      at_least = omega (arith, b.at_least, length-append h (s ∷ []));
      at_most = omega (arith, b.at_most, length-append h (s ∷ []));
      progress = inr (omega (arith, b.at_least, length-append h (s ∷ [])));
      ended = elim b.ended [
        | inl e ↦ inl e
        | inr e ↦ inr (omega (arith, e, length-append h (s ∷ [])))
      ];
      few_calls = omega (arith, b.few_calls);
    }

    Rounds-Bounded :
        {n i : ℕ} {h : List (Step j.Value)} {c : Client j.Value} {r : GoalResult j.Value}
        {calls : List (Call j.Value)}
        → Rounds j kernel goal cid n i h c r calls
        → i ≡ 1 + length h
        → IsNumbered h
        → Bounded n h r calls
    Rounds-Bounded {n} {i} {h} exhausted e nh = record {
      counted = refl;
      numbered = nh;
      at_least = omega arith;
      at_most = omega arith;
      progress = inl refl;
      ended = inr (omega arith);
      few_calls = omega arith;
    }
    Rounds-Bounded (answered {n} {i} {h} output before after said found) e nh =
        Bounded-completed n h (last_step j i (reasoned j before)) (trim after) _ nh e
          (ground (arith, few-for_conversation (append_call j (trim after)) cid))
    Rounds-Bounded (given_up {n} {i} {h} output said unfound unread late) e nh =
        Bounded-completed n h
          (last_step j i (text "Information gathered. Ready to form conclusion.")) _ _ nh e
          (omega arith)
    Rounds-Bounded
          (acted {n} {i} {h} {c} {r} {calls} output thought action obs said chosen seen rest) e nh =
        let s = acted_step j i thought action obs in
        Bounded-acted n h s r _ _ calls (
          Rounds-Bounded rest (omega (arith, e, length-append h (s ∷ [])))
            (IsNumbered-snoc h s nh e))

    -- The work on a goal ends, whatever the model and the tools answer: after at least one step and
    -- at most the wished number of steps, which counts as 1 below 1 and as 25 above 25; `steps` is
    -- the length of the history, whose steps are numbered from 1; the status is "completed" unless
    -- all steps were taken; and beside one call that opens the conversation there are at most two
    -- calls for each step.
    pub run_goal_bounds :
        (max_steps : ℕ) (c : Client j.Value)
        → let (r, c') = run_goal j kernel goal max_steps cid c in
          (1 ≤ r.steps)
          × (r.steps ≤ clamp 1 25 max_steps)
          × (r.steps ≡ length r.history)
          × IsNumbered r.history
          × ((r.status ≡ text "completed") ⊎ (r.steps ≡ clamp 1 25 max_steps))
          × (length c'.sent ≤ length c.sent + 1 + 2 * clamp 1 25 max_steps)
    run_goal_bounds max_steps c =
        let (calls, rounds, made) = run_goal-refines j kernel goal cid max_steps c in
        let b = Rounds-Bounded rounds (omega arith) (unfold count_from in refl) in
        let bounds = clamp_bounds 1 25 max_steps (omega arith) in
        let opening = for_conversation j (create_call j goal) cid in
        (
          omega (arith, b.progress, bounds),
          omega (arith, b.at_most),
          b.counted,
          b.numbered,
          elim b.ended [ inl e ↦ inl e | inr e ↦ inr (omega (arith, e)) ],
          rw
              (
                made.0,
                length-append c.sent (requests_from j c.next_id (opening ++ calls)),
                length-requests_from c.next_id (opening ++ calls),
                length-append opening calls,
              )
              (omega (arith, b.few_calls, few-for_conversation (create_call j goal) cid)),
        )
