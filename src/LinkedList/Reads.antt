-- ===== src/LinkedList/Reads.antt =====
-- ll_contains and ll_get of structs.c on chains.
use syseng.Base.{
  ℕ, zero, suc, ◌≤◌, ◌≡◌, refl, ap, ◌∙◌, false, Option, some, List, [], ◌∷◌, length, get_elem?,
  ◌==◌, ◌>>=◌, arith, cell, count_full-le-length,
}
use syseng.Base.Int.{ℤ}
use syseng.LinkedList.{Node, Heap, LinkedList, contains_loop, steps, ll_contains, ll_get}
use syseng.LinkedList.Chain.{Nodes, first, values, Chain, Represents}
use syseng.LinkedList.Spec.{member}

-- The first node of a chain that is not empty is not NULL.
pub not_null : (h : Heap) (a : ℕ) {n : Node} → cell a h ≡ some n → (a == 0) ≡ false
not_null h zero e = absurd (cc)
not_null h (suc a) e = ground arith

contains_loop_lem :
    (h : Heap) (xs : Nodes) (v : ℤ) (rounds : ℕ)
    → Chain h xs
    → length xs ≤ rounds
    → contains_loop rounds v (first xs) h ≡ some (member v (values xs))
unfolding contains_loop Chain member
contains_loop_lem h [] v zero c enough = refl
contains_loop_lem h [] v (suc rounds) c enough = refl
contains_loop_lem h ((a, w) ∷ xs) v zero c enough = absurd (omega arith)
contains_loop_lem h ((a, w) ∷ xs) v (suc rounds) c enough =
    rw (not_null h a c.0, c.0, contains_loop_lem h xs v rounds c.2 (omega arith)) (ground arith)

pub contains-Represents :
    (l : LinkedList) (vs : List ℤ) (v : ℤ) → Represents l vs → ll_contains l v ≡ some (member v vs)
unfolding ll_contains
contains-Represents l vs v (xs, is, e) =
    rw is.head (
      contains_loop_lem l.heap xs v (length l.heap) is.chain
        (omega (arith, is.all, count_full-le-length l.heap)))
    ∙ ap (λ ws. some (member v ws)) e

value_at : ℕ → ℕ → Heap → Option ℤ
value_at i cur h = do p ← steps i cur h; n ← cell p h; some n.value

steps_lem :
    (h : Heap) (xs : Nodes) (i : ℕ) → Chain h xs → value_at i (first xs) h ≡ get_elem? (values xs) i
unfolding value_at steps Chain
steps_lem h [] zero c = refl
steps_lem h [] (suc i) c = refl
steps_lem h ((a, w) ∷ xs) zero c = rw c.0
steps_lem h ((a, w) ∷ xs) (suc i) c = rw c.0 (steps_lem h xs i c.2)

pub get-Represents :
    (l : LinkedList) (vs : List ℤ) (i : ℕ) → Represents l vs → ll_get l i ≡ get_elem? vs i
unfolding ll_get value_at
get-Represents l vs i (xs, is, e) =
    rw is.head (steps_lem l.heap xs i is.chain) ∙ ap (λ ws. get_elem? ws i) e
