-- ===== src/Lifo/Unwinding.antt =====
-- Cleanup runs every action once, the last one first.
use native.Mathlib.Nat.{le_refl}
use ai_garage.Common.{
  ◌∙◌, ◌≤◌, Option-cases, inl, inr, ℕ, zero, suc, ◌≡◌, refl, ap, List, [], ◌∷◌, ◌++◌, none, some,
  Text, length, length-append, arith,
}
use ai_garage.Lifo.{
  new_stack, CleanupGuard, LifoStack, new_guard, execute, push, pop, unwind_loop, unwind, drop,
}

module _ {ℓ} {S : Type ℓ} where
  pop-append : (gs : List (CleanupGuard S)) (g : CleanupGuard S) → pop (gs ++ g ∷ []) ≡ some (g, gs)
  unfolding pop
  pop-append [] g = refl
  pop-append (x ∷ gs) g = rw (pop-append gs g, pop)

  -- Stacks as they are built: the registrations, oldest first.
  pub push_all : LifoStack S → List (Text × (S → S)) → LifoStack S
  push_all stack [] = stack
  push_all stack ((name, action) ∷ rest) = push_all (push stack name action) rest

  -- The actions one after the other, the last registration first.
  abbrev pub run_reversed : List (Text × (S → S)) → S → S
  run_reversed [] s = s
  run_reversed ((name, action) ∷ rest) s = action (run_reversed rest s)

  loop-append :
      (n : ℕ) (gs : List (CleanupGuard S)) (g : CleanupGuard S) (s : S)
      → unwind_loop (suc n) (gs ++ g ∷ []) s ≡ unwind_loop n gs (execute g s)
  unfolding unwind_loop
  loop-append n gs g s = rw (pop-append gs g, unwind_loop)

  -- Unwinding a stack with a new guard on top runs that guard, and goes on with the rest.
  unwind-push :
      (stack : LifoStack S) (name : Text) (action : S → S) (s : S)
      → unwind (push stack name action) s ≡ unwind stack (action s)
  unfolding unwind push execute new_guard
  unwind-push stack name action s =
      let size : length (stack.guards ++ new_guard name action ∷ []) ≡ suc (length stack.guards) =
        omega (arith, length-append stack.guards (new_guard name action ∷ [])) in
      rw (size, loop-append (length stack.guards) stack.guards (new_guard name action) s)

  unwind-push_all :
      (stack : LifoStack S) (regs : List (Text × (S → S))) (s : S)
      → unwind (push_all stack regs) s ≡ unwind stack (run_reversed regs s)
  unfolding push_all
  unwind-push_all stack [] s = refl
  unwind-push_all stack ((name, action) ∷ rest) s =
      unwind-push_all (push stack name action) rest s
      ∙ unwind-push stack name action (run_reversed rest s)

  -- After any registrations, unwinding runs every action exactly once, in the reverse of the order
  -- of registration, and leaves no guard behind.
  pub unwind_order :
      (regs : List (Text × (S → S))) (s : S)
      → unwind (push_all new_stack regs) s ≡ (new_stack, run_reversed regs s)
  unwind_order regs s =
      unwind-push_all new_stack regs s ∙ (unfold unwind unwind_loop new_stack in refl)

  pop-eq-none : (gs : List (CleanupGuard S)) → pop gs ≡ none → gs ≡ []
  unfolding pop
  pop-eq-none [] h = refl
  pop-eq-none (x ∷ gs) h = ground arith

  length-pop :
      (gs rest : List (CleanupGuard S)) (g : CleanupGuard S)
      → pop gs ≡ some (g, rest)
      → length gs ≡ suc (length rest)
  unfolding pop
  length-pop [] rest g h = cc
  length-pop (x ∷ gs) rest g h = elim (Option-cases (pop gs)) [
    | inl e ↦ ground (arith, pop-eq-none gs e)
    | inr ((last, front), e) ↦ ground (arith, length-pop gs front last e)
  ]

  loop-empties :
      (f : ℕ) (gs : List (CleanupGuard S)) (s : S) → length gs ≤ f → (unwind_loop f gs s).0 ≡ []
  unfolding unwind_loop
  loop-empties zero [] s h = refl
  loop-empties zero (g ∷ gs) s h = absurd (omega arith)
  loop-empties (suc f) gs s h = elim (Option-cases (pop gs)) [
    | inl e ↦ rw (e, unwind_loop) (pop-eq-none gs e)
    | inr ((g, rest), e) ↦
        rw (e, unwind_loop)
          (loop-empties f rest (execute g s) (omega (arith, length-pop gs rest g e)))
  ]

  -- The fuel is enough: unwinding leaves no guard, and the drop that follows runs nothing again.
  pub drop-unwind :
      (stack : LifoStack S) (s t : S)
      → ((unwind stack s).0 ≡ new_stack) × (drop (unwind stack s).0 t ≡ t)
  unfolding drop
  drop-unwind stack s t =
      let empty : (unwind stack s).0 ≡ new_stack =
        unfold unwind new_stack in
        ap (λ (gs : List (CleanupGuard S)). record { guards = gs })
          (loop-empties (length stack.guards) stack.guards s (le_refl _)) in
      (empty, rw empty (unfold unwind unwind_loop new_stack in refl))
