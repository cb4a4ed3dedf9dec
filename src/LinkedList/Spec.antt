-- ===== src/LinkedList/Spec.antt =====
-- What structs.h promises of the list: operations on a sequence of values.
use syseng.Base.{
  ℕ, Bool, false, ◌||◌, Option, none, some, List, [], ◌∷◌, ◌++◌, get_elem?, if◌then◌else◌, ◌>>=◌,
  run_all,
}
use syseng.Base.Int.{ℤ, eqb_ℤ}

-- The calls of a client. The Boolean tells whether malloc has a node to give.
pub data Op : Type 0 where
  push_front : Bool → ℤ → Op
  push_back : Bool → ℤ → Op
  pop_front : Op
  contains : ℤ → Op
  get : ℕ → Op
  remove : ℤ → Op
  free_all : Op

pub data Answer : Type 0 where
  done : Answer
  value : ℤ → Answer
  truth : Bool → Answer

unfoldable pub member : ℤ → List ℤ → Bool
member v [] = false
member v (w ∷ ws) = eqb_ℤ w v || member v ws

-- Without the first occurrence.
unfoldable pub erase : ℤ → List ℤ → List ℤ
erase v [] = []
erase v (w ∷ ws) = let rest = erase v ws in if eqb_ℤ w v then ws else w ∷ rest

-- `none` is a call that is not allowed: an allocation that fails, an index out of range, a pop of
-- an empty list.
unfoldable pub spec : Op → List ℤ → Option (Answer × List ℤ)
spec (push_front got v) vs = if got then some (done, v ∷ vs) else none
spec (push_back got v) vs = if got then some (done, vs ++ v ∷ []) else none
spec pop_front [] = none
spec pop_front (v ∷ vs) = some (value v, vs)
spec (contains v) vs = some (truth (member v vs), vs)
spec (get i) vs = do v ← get_elem? vs i; some (value v, vs)
spec (remove v) vs = some (truth (member v vs), erase v vs)
spec free_all vs = some (done, [])

abbrev pub spec_run : List Op → List ℤ → Option (List Answer × List ℤ)
spec_run ops vs = run_all spec ops vs
