-- ===== src/LinkedList.antt =====
-- Part 1 of 00-c-for-programmers/exercises/ex3-structs-and-pointers/structs.c: the singly linked
-- list. Nodes stand in the cells of a heap; NULL is address 0. `none` is undefined behaviour: a
-- NULL or freed node that is read or written, or a walk that goes on for longer than there are
-- cells, which only a cycle does.
pub mod Spec
pub mod Chain
pub mod Inserts
pub mod Reads
pub mod Removes
pub mod Refines
mod Tests
use syseng.Base.{
  ℕ, zero, suc, ◌+◌, ◌-◌, ◌%◌, ◌^◌, Bool, true, false, Option, none, some, List, [], ◌∷◌, ◌++◌,
  length, ◌==◌, if◌then◌else◌, ◌>>=◌, ◌>>◌, cell, put_cell,
}
use syseng.Base.Int.{ℤ, pos, eqb_ℤ}

-- ll_node_t
pub record Node : Type 0 where
  pub value : ℤ
  pub next : ℕ

abbrev pub node : ℤ → ℕ → Node
node v p = record { value = v; next = p }

abbrev pub Heap : Type 0
Heap = List (Option Node)

-- linked_list_t, beside the heap its nodes are in.
pub record LinkedList : Type 0 where
  pub head : ℕ
  pub length_ : ℕ
  pub heap : Heap

-- malloc, and the stores into both fields of the node. Where malloc gives NULL the first store is
-- undefined behaviour.
unfoldable new_node : Bool → Node → Heap → Option (ℕ × Heap)
new_node true n h = some (suc (length h), h ++ some n ∷ [])
new_node false n h = none

-- A store into the field `next` of a node, and free of one.
unfoldable set_next : ℕ → ℕ → Heap → Option Heap
set_next p q h = do n ← cell p h; some (put_cell p (some (record n { next = q })) h)

unfoldable free : ℕ → Heap → Option Heap
free p h = do cell p h; some (put_cell p none h)

-- length++ and length-- on a size_t.
abbrev pub incremented : ℕ → ℕ
incremented n = (n + 1) % 2 ^ 64

abbrev pub decremented : ℕ → ℕ
decremented n = (n + (2 ^ 64 - 1)) % 2 ^ 64

unfoldable ll_init : Heap → LinkedList
ll_init h = record { head = 0; length_ = 0; heap = h }

-- The first argument tells whether malloc has a node to give.
unfoldable ll_push_front : Bool → ℤ → LinkedList → Option LinkedList
ll_push_front got value l = do
  (n, h) ← new_node got (node value l.head) l.heap
  some (record { head = n; length_ = incremented l.length_; heap = h })

-- The loop `while (cur -> next) cur = cur -> next;`, in at most as many rounds as given.
unfoldable last_node : ℕ → ℕ → Heap → Option ℕ
last_node zero cur h = none
last_node (suc rounds) cur h = do
  n ← cell cur h
  let rest = last_node rounds n.next h
  if n.next == 0 then some cur else rest

unfoldable ll_push_back : Bool → ℤ → LinkedList → Option LinkedList
ll_push_back got value l = do
  (n, h) ← new_node got (node value 0) l.heap
  if l.length_ == 0
      then some (record { head = n; length_ = incremented l.length_; heap = h })
      else do
        cur ← last_node (length h) l.head h
        h' ← set_next cur n h
        some (record { head = l.head; length_ = incremented l.length_; heap = h' })

unfoldable ll_pop_front : LinkedList → Option (ℤ × LinkedList)
ll_pop_front l = do
  cur ← cell l.head l.heap
  h ← free l.head l.heap
  some (cur.value, record { head = cur.next; length_ = decremented l.length_; heap = h })

unfoldable contains_loop : ℕ → ℤ → ℕ → Heap → Option Bool
contains_loop zero value cur h = if cur == 0 then some false else none
contains_loop (suc rounds) value cur h = if cur == 0 then some false else do
  n ← cell cur h
  let rest = contains_loop rounds value n.next h
  if eqb_ℤ n.value value then some true else rest

unfoldable ll_contains : LinkedList → ℤ → Option Bool
ll_contains l value = contains_loop (length l.heap) value l.head l.heap

-- i steps from a node on.
unfoldable steps : ℕ → ℕ → Heap → Option ℕ
steps zero cur h = some cur
steps (suc i) cur h = do n ← cell cur h; steps i n.next h

unfoldable ll_get : LinkedList → ℕ → Option ℤ
ll_get l i = do cur ← steps i l.head l.heap; n ← cell cur l.heap; some n.value

-- The loop of ll_remove behind the head: whether a node was removed, and the heap.
unfoldable remove_loop : ℕ → ℤ → ℕ → ℕ → Heap → Option (Bool × Heap)
remove_loop zero value prev cur h = if cur == 0 then some (false, h) else none
remove_loop (suc rounds) value prev cur h = if cur == 0 then some (false, h) else do
  n ← cell cur h
  let rest = remove_loop rounds value cur n.next h
  if eqb_ℤ n.value value
      then (do h' ← set_next prev n.next h; h'' ← free cur h'; some (true, h''))
      else rest

unfoldable ll_remove : ℤ → LinkedList → Option (Bool × LinkedList)
ll_remove value l = if l.length_ == 0 then some (false, l) else do
  first ← cell l.head l.heap
  if eqb_ℤ first.value value
      then (do
        h ← free l.head l.heap
        some (true, record { head = first.next; length_ = decremented l.length_; heap = h }))
      else do
        (found, h) ← remove_loop (length l.heap) value l.head first.next l.heap
        some (
          found,
          record l { length_ = if found then decremented l.length_ else l.length_; heap = h },
        )

unfoldable free_loop : ℕ → ℕ → Heap → Option Heap
free_loop zero cur h = if cur == 0 then some h else none
free_loop (suc rounds) cur h =
    if cur == 0 then some h else do n ← cell cur h; h' ← free cur h; free_loop rounds n.next h'

unfoldable ll_free : LinkedList → Option LinkedList
ll_free l = do
  h ← free_loop (length l.heap) l.head l.heap
  some (record { head = 0; length_ = 0; heap = h })
