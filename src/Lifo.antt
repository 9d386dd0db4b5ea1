-- ===== src/Lifo.antt =====
-- crates/chassis-core/src/lifo.rs: the stack of cleanup actions. An action is a function on the
-- state `S` of the world outside, which the closures of the source change.
pub mod Unwinding
use ai_garage.Common.{
  ℕ, zero, suc, Bool, true, false, List, [], ◌∷◌, ◌++◌, Option, none, some, Text, length,
}

pub record CleanupGuard {ℓ} (S : Type ℓ) : Type ℓ where
  pub name : Text
  -- `Option<Box<dyn FnOnce()>>`: none once it has run
  pub action : Option (S → S)

pub record LifoStack {ℓ} (S : Type ℓ) : Type ℓ where
  pub guards : List (CleanupGuard S)

module _ {ℓ} {S : Type ℓ} where
  unfoldable pub new_guard : Text → (S → S) → CleanupGuard S
  new_guard name action = record { name = name; action = some action }

  unfoldable pub execute : CleanupGuard S → S → S
  execute g s = elim g.action [ none ↦ s | some action ↦ action s ]

  -- `LifoStack::new()`
  unfoldable pub new_stack : LifoStack S
  new_stack = record { guards = [] }

  unfoldable pub push : LifoStack S → Text → (S → S) → LifoStack S
  push stack name action = record { guards = stack.guards ++ new_guard name action ∷ [] }

  unfoldable pub len : LifoStack S → ℕ
  len stack = length stack.guards

  unfoldable pub is_empty : LifoStack S → Bool
  is_empty stack = elim stack.guards [ [] ↦ true | _ ∷ _ ↦ false ]

  -- `Vec::pop`, from the end
  unfoldable pub pop : List (CleanupGuard S) → Option (CleanupGuard S × List (CleanupGuard S))
  pop [] = none
  pop (g ∷ gs) = elim (pop gs) [ none ↦ some (g, []) | some (last, rest) ↦ some (last, g ∷ rest) ]

  -- The loop `while let Some(guard) = self.guards.pop()`, for as many rounds as the fuel has.
  unfoldable pub unwind_loop : ℕ → List (CleanupGuard S) → S → List (CleanupGuard S) × S
  unwind_loop zero gs s = (gs, s)
  unwind_loop (suc f) gs s = elim (pop gs) [
    | none ↦ (gs, s)
    | some (g, rest) ↦ unwind_loop f rest (execute g s)
  ]

  -- One round for each guard is enough.
  unfoldable pub unwind : LifoStack S → S → LifoStack S × S
  unwind stack s =
      let (gs, s') = unwind_loop (length stack.guards) stack.guards s in
      (record { guards = gs }, s')

  -- `Drop`: what the world is after the stack has gone out of scope.
  unfoldable pub drop : LifoStack S → S → S
  drop stack s = (unwind stack s).1
