-- ===== src/LinkedList/Refines.antt =====
-- Programs over the linked list of structs.c beside what structs.h promises.
use syseng.Base.{
  ℕ, ◌+◌, ◌^◌, ◌<◌, refl, true, false, Option, some, List, [], ◌∷◌, length, get_elem?, ◌>>=◌, suc,
  run_all, Follows, Follows-weaken, run_all-Follows, arith, inl, inr, Option-cases,
}
use syseng.Base.Int.{ℤ}
use syseng.LinkedList.{
  LinkedList, new_node, ll_push_front, ll_push_back, ll_pop_front, ll_contains, ll_get, ll_remove,
  ll_free,
}
use syseng.LinkedList.Spec.{
  Op, push_front, push_back, pop_front, contains, get, remove, free_all, Answer, done, value, truth,
  spec, spec_run,
}
use syseng.LinkedList.Chain.{Represents}
use syseng.LinkedList.Inserts.{push_front-Represents, push_back-Represents}
use syseng.LinkedList.Reads.{contains-Represents, get-Represents}
use syseng.LinkedList.Removes.{
  pop_front-Represents, pop_front_empty, remove-Represents, free-Represents,
}

unfoldable pub step : Op → LinkedList → Option (Answer × LinkedList)
step (push_front got v) l = do l' ← ll_push_front got v l; some (done, l')
step (push_back got v) l = do l' ← ll_push_back got v l; some (done, l')
step pop_front l = do (v, l') ← ll_pop_front l; some (value v, l')
step (contains v) l = do b ← ll_contains l v; some (truth b, l)
step (get i) l = do v ← ll_get l i; some (value v, l)
step (remove v) l = do (b, l') ← ll_remove v l; some (truth b, l')
step free_all l = do l' ← ll_free l; some (done, l')

abbrev pub run : List Op → LinkedList → Option (List Answer × LinkedList)
run ops l = run_all step ops l

-- The code does what the specification says: the same answer and a list that stands for the values
-- left; and it is undefined exactly where the call is not allowed.
abbrev pub Simulates : {A : Type 0} → Option (A × List ℤ) → Option (A × LinkedList) → Type 0
Simulates x y = Follows true (λ vs l. Represents l vs) x y

-- A call takes at most one cell of the heap, so that there is room for k calls.
abbrev HasRoom : ℕ → List ℤ → LinkedList → Type 0
HasRoom k vs l = Represents l vs × (length l.heap + k < 2 ^ 64)

step-Follows :
    (k : ℕ) (o : Op) (vs : List ℤ) (l : LinkedList)
    → HasRoom (suc k) vs l
    → Follows true (HasRoom k) (spec o vs) (step o l)
unfolding Follows step spec
step-Follows k (push_front true v) vs l (r, room) =
    let (l', e, r', cells) = push_front-Represents l vs v (omega (arith, room)) r in
    rw e (refl, (r', omega (arith, cells, room)))
step-Follows k (push_front false v) vs l (r, room) = unfold ll_push_front new_node in tt
step-Follows k (push_back true v) vs l (r, room) =
    let (l', e, r', cells) = push_back-Represents l vs v (omega (arith, room)) r in
    rw e (refl, (r', omega (arith, cells, room)))
step-Follows k (push_back false v) vs l (r, room) = unfold ll_push_back new_node in tt
step-Follows k pop_front [] l (r, room) = rw (pop_front_empty l r) tt
step-Follows k pop_front (v ∷ vs) l (r, room) =
    let (l', e, r', cells) = pop_front-Represents l v vs (omega (arith, room)) r in
    rw e (refl, (r', omega (arith, cells, room)))
step-Follows k (contains v) vs l (r, room) =
    rw (contains-Represents l vs v r) (refl, (r, omega (arith, room)))
step-Follows k (get i) vs l (r, room) =
    rw (get-Represents l vs i r) (elim (Option-cases (get_elem? vs i)) [
      | inl e ↦ rw e tt
      | inr (v, e) ↦ rw e (refl, (r, omega (arith, room)))
    ])
step-Follows k (remove v) vs l (r, room) =
    let (l', e, r', cells) = remove-Represents l v vs (omega (arith, room)) r in
    rw e (refl, (r', omega (arith, cells, room)))
step-Follows k free_all vs l (r, room) =
    let (l', e, r', cells) = free-Represents l vs r in rw e (refl, (r', omega (arith, cells, room)))

-- From a list that stands for some values, any program of calls answers as the specification says
-- and leaves a list that stands for the values left, with every full cell of the heap in it; the
-- program is undefined exactly when it makes a call that is not allowed.
pub run-Simulates :
    (ops : List Op) (l : LinkedList) (vs : List ℤ)
    → length l.heap + length ops < 2 ^ 64
    → Represents l vs
    → Simulates (spec_run ops vs) (run ops l)
run-Simulates ops l vs room r =
    Follows-weaken true (HasRoom 0) (λ ws k. Represents k ws) (spec_run ops vs) (run ops l)
      (λ ws k h. h.0) (run_all-Follows true spec step HasRoom step-Follows ops vs l (r, room))
