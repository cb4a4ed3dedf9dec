-- ===== src/Ownership/UniqueBuffer/Tests.antt =====
-- Runs of UniqueBuffer<T> with numbers for T, and the theorems at them.
use syseng.Base.{ℕ, ◌≡◌, refl, Option, none, some, List, [], ◌∷◌, arith}
use syseng.Memory.{owning, Mem, delete_array, store, new_obj, new_array}
use syseng.Memory.Owned.{IsOwned, empty-IsOwned}
use syseng.Memory.Changes.{own-new}
use syseng.Ownership.UniqueBuffer.{
  start, construct, destroy, move_construct, put, Op, make, move_new, move_to, write, end_scope,
  step, run,
}
use syseng.Ownership.UniqueBuffer.Safety.{AllDefined, unique_step_safe, unique_run_safe}

-- A buffer of two is written, moved and destroyed.
abbrev script : List (Op ℕ)
script = make 2 ∷ write 0 1 7 ∷ move_new 0 ∷ end_scope 1 ∷ end_scope 0 ∷ []

abbrev ended : Mem (Option ℕ)
ended = record { objs = none ∷ none ∷ []; blocks = none ∷ [] }

script_test : run script start ≡ some ended
unfolding run step construct put store move_construct destroy delete_array
script_test = refl

double_delete_test : (destroy 0 (record ended { objs = some (owning 1 2) ∷ [] })) ≡ none
unfolding destroy delete_array
double_delete_test = refl

script-AllDefined : AllDefined script start
unfolding step construct put store move_construct destroy delete_array
script-AllDefined = (
  tt,
  (
    (owning 1 2, refl, omega arith),
    ((owning 1 2, refl), ((owning 1 2, refl), ((owning 0 0, refl), tt))),
  ),
)

abbrev seven : Mem (Option ℕ)
seven = new_obj (owning 1 2) (new_array (some 7 ∷ none ∷ []) start)

seven-IsOwned : IsOwned seven
seven-IsOwned = own-new empty-IsOwned (some 7 ∷ none ∷ [])

unique_step_safe_example : (m : Mem (Option ℕ)) × (step (move_to 0 0) seven ≡ some m) × IsOwned m
unique_step_safe_example =
    unique_step_safe (move_to 0 0) seven seven-IsOwned ((owning 1 2, refl), (owning 1 2, refl))

unique_run_safe_example : (m : Mem (Option ℕ)) × (run script start ≡ some m) × IsOwned m
unique_run_safe_example = unique_run_safe script start empty-IsOwned script-AllDefined
