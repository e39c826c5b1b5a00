-- ===== src/Interpreter/Stack.antt =====
-- src/core/interpreter/interpreter.c: the stack of values, the last one first.
use asteron.Prelude.{ℕ, List, [], ◌∷◌, get_or}
use asteron.Interpreter.Values.{Numbers, Value, nil}

module _ {n : Numbers} where
  unfoldable pub stack_push : List (Value n) → Value n → List (Value n)
  stack_push stack value = value ∷ stack

  -- An empty stack gives nil.
  unfoldable pub stack_pop : List (Value n) → List (Value n) × Value n
  stack_pop [] = ([], nil)
  stack_pop (v ∷ vs) = (vs, v)

  unfoldable pub stack_peek : List (Value n) → ℕ → Value n
  stack_peek stack offset = get_or stack offset nil
