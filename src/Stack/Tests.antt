-- ===== src/Stack/Tests.antt =====
-- Runs of the stack of stack/02arr/stack.c.
use mycode_c.Base.{◌≡◌, refl, some, List, [], ◌∷◌, replicate}
use mycode_c.Base.Int.{pos}
use mycode_c.Stack.{stack_create, Op, push, pop, run, stack_display, display_from, is_empty}
use mycode_c.Stack.Items.{serve, run-serve}

abbrev some_ops : List Op
some_ops = push (pos 11) ∷ push (pos 22) ∷ pop ∷ pop ∷ pop ∷ push (pos 33) ∷ []

run-serve_example : run (stack_create (replicate 6 (pos 99))) some_ops ≡ serve [] some_ops
run-serve_example = run-serve (replicate 6 (pos 99)) some_ops refl

shown :
    stack_display (record { stack_arr = pos 11 ∷ pos 22 ∷ replicate 4 (pos 99); stack_top = 2 })
    ≡ some (pos 22) ∷ some (pos 11) ∷ []
unfolding stack_display display_from is_empty
shown = refl
