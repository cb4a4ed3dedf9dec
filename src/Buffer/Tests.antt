-- ===== src/Buffer/Tests.antt =====
-- Runs of Buffer, and the theorems at them.
use syseng.Base.{◌≡◌, refl, none, some, List, [], ◌∷◌, arith}
use syseng.Memory.{owning, block, delete_array, load, store, new_obj, new_array}
use syseng.Memory.Owned.{IsOwned, empty-IsOwned}
use syseng.Memory.Changes.{own-new}
use syseng.Buffer.{
  State, start, construct, copy_loop, copy_construct, copy_assign, destroy, put, make_buffer,
  of_size, lvalue, Op, make, copy_to, write, end_scope, step, run,
}
use syseng.Buffer.Safety.{AllDefined, buffer_step_safe, buffer_run_safe, buffer_no_leak}
use syseng.Buffer.Values.{contents, copy_assign_self_zeros}

abbrev script : List Op
script =
    make (of_size 2) ∷ write 0 1 7 ∷ make (lvalue 0) ∷ copy_to 0 1 ∷ end_scope 1 ∷ end_scope 0 ∷ []

abbrev ended : State
ended = record {
  mem = record { objs = none ∷ none ∷ []; blocks = none ∷ none ∷ none ∷ [] };
  s_copies_ = 2;
  s_moves_ = 0;
}

script_test : run script start ≡ some ended
unfolding run step make_buffer construct put store load copy_construct copy_assign copy_loop destroy
    delete_array
script_test = refl

script-AllDefined : AllDefined script start
unfolding step make_buffer construct put store load copy_construct copy_assign copy_loop destroy
    delete_array
script-AllDefined = (
  tt,
  (
    (owning 1 2, refl, omega arith),
    (
      ((owning 1 2, refl), omega arith),
      (
        ((owning 1 2, refl), (owning 2 2, refl), omega arith),
        ((owning 2 2, refl), ((owning 3 2, refl), tt)),
      ),
    ),
  ),
)

-- Two buffers with the bytes 7, 8 and 1.
abbrev two : State
two = record start {
  mem =
      new_obj (owning 2 1)
        (new_array (1 ∷ []) (new_obj (owning 1 2) (new_array (7 ∷ 8 ∷ []) start.mem)));
}

two-IsOwned : IsOwned two.mem
two-IsOwned = own-new (own-new empty-IsOwned (7 ∷ 8 ∷ [])) (1 ∷ [])

buffer_step_safe_example : (t : State) × (step (copy_to 0 0) two ≡ some t) × IsOwned t.mem
buffer_step_safe_example =
    buffer_step_safe (copy_to 0 0) two two-IsOwned
      ((owning 1 2, refl), (owning 1 2, refl), omega arith)

buffer_run_safe_example : (t : State) × (run script start ≡ some t) × IsOwned t.mem
buffer_run_safe_example = buffer_run_safe script start empty-IsOwned script-AllDefined

buffer_no_leak_example : block 3 ended.mem.blocks ≡ none
buffer_no_leak_example =
    buffer_no_leak script ended 3 script-AllDefined script_test (refl, (refl, tt))

copy_assign_self_zeros_example :
    (t : State) × (copy_assign 0 0 two ≡ some t) × (contents 0 t ≡ some (0 ∷ 0 ∷ []))
copy_assign_self_zeros_example =
    copy_assign_self_zeros two two-IsOwned 0 (7 ∷ 8 ∷ []) refl (omega arith)
