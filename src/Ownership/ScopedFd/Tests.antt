-- ===== src/Ownership/ScopedFd/Tests.antt =====
-- Runs of the wrapper, and the theorems at them.
use syseng.Base.{◌+◌, ◌≡◌, refl, none, some, List, [], ◌∷◌}
use syseng.Base.Int.{pos, minus_one}
use syseng.Ownership.ScopedFd.{
  State, start, Op, acquire, move_new, move_to, give_up, end_scope, step, run,
}
use syseng.Ownership.ScopedFd.Conserve.{times, acquired, descriptors_no_leak}

-- Descriptor 3 moves on to another wrapper, 4 is handed to the caller.
abbrev script : List Op
script =
    acquire (pos 3)
    ∷ acquire (pos 4)
    ∷ move_new 0
    ∷ give_up 1
    ∷ end_scope 2
    ∷ end_scope 1
    ∷ end_scope 0
    ∷ []

abbrev ended : State
ended = record { objs = none ∷ none ∷ none ∷ []; closed = pos 3 ∷ [] }

script_test : run script start ≡ some (pos 4 ∷ [], ended)
unfolding run step
script_test = refl

self_move_test :
    run (acquire (pos 3) ∷ move_to 0 0 ∷ []) start
    ≡ some ([], record { objs = some minus_one ∷ []; closed = pos 3 ∷ [] })
unfolding run step
self_move_test = refl

descriptors_no_leak_example :
    times (pos 4) ended.closed + times (pos 4) (pos 4 ∷ []) ≡ acquired (pos 4) script
descriptors_no_leak_example =
    descriptors_no_leak (pos 4) script ended (pos 4 ∷ []) refl script_test
      (refl, (refl, (refl, tt)))

abbrev three : State
three = record { objs = some (pos 3) ∷ some (pos 4) ∷ some (pos 5) ∷ []; closed = [] }
