-- ===== src/LinkedList/Tests.antt =====
-- A program over the linked list of structs.c.
use syseng.Base.{run_all, ◌+◌, ◌^◌, ◌<◌, ◌≡◌, refl, true, some, none, List, [], ◌∷◌, length, arith}
use syseng.Base.Int.{pos}
use syseng.LinkedList.{
  new_node, set_next, free, ll_init, last_node, contains_loop, steps, remove_loop, free_loop,
  ll_push_front, ll_push_back, ll_pop_front, ll_contains, ll_get, ll_remove, ll_free,
}
use syseng.LinkedList.Spec.{
  Op, push_front, push_back, pop_front, contains, get, remove, free_all, done, value, truth,
  spec_run,
}
use syseng.LinkedList.Chain.{Chain, Represents}
use syseng.LinkedList.Refines.{step, run, Simulates, run-Simulates}

abbrev calls : List Op
calls =
    push_back true (pos 7)
    ∷ push_front true (pos 5)
    ∷ push_back true (pos 7)
    ∷ get 1
    ∷ remove (pos 7)
    ∷ contains (pos 7)
    ∷ pop_front
    ∷ free_all
    ∷ []

calls_test :
    run calls (ll_init [])
    ≡ some (
      done ∷ done ∷ done ∷ value (pos 7) ∷ truth true ∷ truth true ∷ value (pos 5) ∷ done ∷ [],
      record { head = 0; length_ = 0; heap = none ∷ none ∷ none ∷ [] },
    )
unfolding run_all step ll_init new_node set_next free last_node contains_loop steps remove_loop
    free_loop ll_push_front ll_push_back ll_pop_front ll_contains ll_get ll_remove ll_free
calls_test = refl

pop_empty_test : run (pop_front ∷ []) (ll_init []) ≡ none
unfolding run_all step ll_init ll_pop_front
pop_empty_test = refl

ll_init-Represents : Represents (ll_init []) []
unfolding ll_init Chain
ll_init-Represents = ([], record { head = refl; chain = tt; all = refl; count = refl }, refl)

cells_small : length (ll_init []).heap + length calls < 2 ^ 64
unfolding ll_init
cells_small = omega arith

run-Simulates_example : Simulates (spec_run calls []) (run calls (ll_init []))
run-Simulates_example = run-Simulates calls (ll_init []) [] cells_small ll_init-Represents
