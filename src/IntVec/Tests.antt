-- ===== src/IntVec/Tests.antt =====
-- The dynamic array of strings.c at concrete values.
use syseng.Base.{run_all, ◌≡◌, refl, true, none, some, List, [], ◌∷◌, arith, ◌>>=◌}
use syseng.Base.Int.{pos}
use syseng.IntVec.{
  null, array, IntVec, malloc, realloc, free, vec_free, vec_init, put, at, grow, vec_push, vec_pop,
  vec_get,
}
use syseng.IntVec.Programs.{
  Op, push, pop, get, spec_run, run, step, Refines, run-Refines, push_without_capacity,
}

abbrev blank : IntVec
blank = record { data_ = null; length_ = 0; capacity = 0 }

abbrev calls : List Op
calls = push (pos 4) ∷ push (pos 5) ∷ push (pos 6) ∷ get 0 ∷ pop ∷ get 1 ∷ []

calls_test :
    (do v ← vec_init true 1 blank; run calls v)
    ≡ some (
      none ∷ none ∷ none ∷ some (pos 4) ∷ some (pos 6) ∷ some (pos 5) ∷ [],
      record {
        data_ = array (some (pos 4) ∷ some (pos 5) ∷ some (pos 6) ∷ none ∷ []);
        length_ = 2;
        capacity = 4;
      },
    )
unfolding vec_init malloc run_all step vec_push grow realloc put vec_get vec_pop at
calls_test = refl

-- A second vec_free is a second free of the array.
free_twice_test : (do v ← vec_init true 2 blank; v' ← vec_free v; vec_free v') ≡ none
unfolding vec_init malloc vec_free free
free_twice_test = refl

-- A popped value can still be read.
stale_get_test :
    (do
      v ← vec_init true 2 blank
      v' ← vec_push true (pos 7) v
      (x, v'') ← vec_pop v'
      vec_get v'' 0)
    ≡ some (pos 7)
unfolding vec_init malloc vec_push put vec_pop vec_get at
stale_get_test = refl

run-Refines_example : Refines (spec_run calls []) (do v' ← vec_init true 1 blank; run calls v')
run-Refines_example = run-Refines calls 1 blank (omega arith) (omega arith) (omega arith)

push_without_capacity_example : (do v' ← vec_init true 0 blank; vec_push true (pos 3) v') ≡ none
push_without_capacity_example = push_without_capacity true true (pos 3) blank
