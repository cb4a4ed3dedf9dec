-- ===== src/LinkedList/Inserts.antt =====
-- ll_push_front and ll_push_back of structs.c on chains.
use syseng.Base.{
  ℕ, zero, suc, ◌+◌, ◌%◌, ◌^◌, ◌<◌, ◌≡◌, refl, ap, ◌∙◌, true, false, ◌||◌, some, List, [], ◌∷◌,
  ◌++◌, length, ◌==◌, arith, cell, put_cell, cell-put_cell, cell-append, count_full,
  count_full-append, count_full-put_cell, count_full-le-length, length-append, get_elem?-ge,
  length-put_cell,
}
use syseng.Base.Int.{ℤ}
use syseng.LinkedList.{
  node, Heap, LinkedList, new_node, set_next, last_node, ll_push_front, ll_push_back,
}
use syseng.LinkedList.Chain.{Nodes, values, has, Chain, Represents, has-cell, frame-append}

-- The next cell is not a node of a chain.
has_next : (h : Heap) (xs : Nodes) → Chain h xs → has (suc (length h)) xs ≡ false
has_next h xs c = has-cell h xs (suc (length h)) c (ground (arith, get_elem?-ge h (length h)))

pub push_front-Represents :
    (l : LinkedList) (vs : List ℤ) (v : ℤ)
    → length l.heap + 1 < 2 ^ 64
    → Represents l vs
    → (l' : LinkedList) × (ll_push_front true v l ≡ some l')
      × Represents l' (v ∷ vs)
      × (length l'.heap ≡ length l.heap + 1)
unfolding ll_push_front new_node Chain
push_front-Represents l vs v room (xs, is, e) =
    let h = l.heap in
    let n = node v l.head in
    let a = suc (length h) in
    let below = count_full-le-length h in
    let new_chain : Chain (h ++ some n ∷ []) ((a, v) ∷ xs) = (
      ground (arith, cell-append a n h, is.head),
      has_next h xs is.chain,
      frame-append h xs n is.chain,
    ) in
    (
      record { head = a; length_ = (l.length_ + 1) % 2 ^ 64; heap = h ++ some n ∷ [] },
      refl,
      (
        (a, v) ∷ xs,
        record {
          head = refl;
          chain = new_chain;
          all = omega (arith, count_full-append h n, is.all);
          count = omega (arith, is.count, is.all);
        },
        ap (λ ws. v ∷ ws) e,
      ),
      omega (arith, length-append h (some n ∷ [])),
    )

-- The last node of a chain that is not empty, and the chain with another node behind it.
abbrev last_of : ℕ → Nodes → ℕ
last_of a [] = a
last_of a ((b, v) ∷ xs) = last_of b xs

last_node_lem :
    (h : Heap) (a : ℕ) (v : ℤ) (xs : Nodes) (rounds : ℕ)
    → Chain h ((a, v) ∷ xs)
    → length xs < rounds
    → last_node rounds a h ≡ some (last_of a xs)
unfolding last_node Chain
last_node_lem h a v xs zero c enough = absurd (omega arith)
last_node_lem h a v [] (suc rounds) c enough = rw c.0
last_node_lem h a v ((zero, w) ∷ xs) (suc rounds) c enough = absurd (cc (c.2.0))
last_node_lem h a v ((suc b, w) ∷ xs) (suc rounds) c enough =
    let more : (suc b == 0) ≡ false = ground arith in
    rw (c.0, more) (last_node_lem h (suc b) w xs rounds c.2 (omega arith))

has-append : (xs : Nodes) (b p : ℕ) (w : ℤ) → has b (xs ++ (p, w) ∷ []) ≡ (has b xs || (p == b))
has-append [] b p w = ground arith
has-append ((a, v) ∷ xs) b p w = ground (arith, has-append xs b p w)

values-append : (xs : Nodes) (p : ℕ) (w : ℤ) → values (xs ++ (p, w) ∷ []) ≡ values xs ++ w ∷ []
values-append [] p w = refl
values-append ((a, v) ∷ xs) p w = ap (λ r. v ∷ r) (values-append xs p w)

-- What a store into the last node's `next` does, seen from a node of the chain on.
record Linked (h : Heap) (p : ℕ) (w : ℤ) (a : ℕ) (v : ℤ) (xs : Nodes) : Type 0 where
  heap : Heap
  stored : set_next (last_of a xs) p h ≡ some heap
  chain : Chain heap ((a, v) ∷ xs ++ (p, w) ∷ [])
  same : (b : ℕ) → has b ((a, v) ∷ xs) ≡ false → cell b heap ≡ cell b h
  full : count_full heap ≡ count_full h
  cells : length heap ≡ length h

link :
    (h : Heap) (p : ℕ) (w : ℤ) (a : ℕ) (v : ℤ) (xs : Nodes)
    → cell p h ≡ some (node w 0)
    → has p ((a, v) ∷ xs) ≡ false
    → Chain h ((a, v) ∷ xs)
    → Linked h p w a v xs
unfolding set_next Chain
link h p w a v [] e out c =
    let g = put_cell a (some (node v p)) h in
    let old = cell-put_cell a a (some (node v p)) h c.0 in
    let new = cell-put_cell p a (some (node v p)) h c.0 in
    let linked : Chain g ((a, v) ∷ (p, w) ∷ []) =
      (ground (arith, old), ground arith, (ground (arith, new), refl, tt)) in
    record {
      heap = g;
      stored = rw c.0;
      chain = linked;
      same = λ b i. ground (arith, cell-put_cell b a (some (node v p)) h c.0);
      full = omega (arith, count_full-put_cell h a (some (node v p)) c.0);
      cells = length-put_cell h a (some (node v p));
    }
link h p w a v ((b, u) ∷ xs) e out c =
    let rest = link h p w b u xs e (ground arith) c.2 in
    let kept : cell a rest.heap ≡ some (node v b) = ground (arith, rest.same a) in
    let apart : has a ((b, u) ∷ xs ++ (p, w) ∷ []) ≡ false =
      ground (arith, has-append ((b, u) ∷ xs) a p w) in
    record {
      heap = rest.heap;
      stored = rest.stored;
      chain = (kept, apart, rest.chain);
      same = λ d i. rest.same d (ground arith);
      full = rest.full;
      cells = rest.cells;
    }

pub push_back-Represents :
    (l : LinkedList) (vs : List ℤ) (v : ℤ)
    → length l.heap + 1 < 2 ^ 64
    → Represents l vs
    → (l' : LinkedList) × (ll_push_back true v l ≡ some l')
      × Represents l' (vs ++ v ∷ [])
      × (length l'.heap ≡ length l.heap + 1)
unfolding ll_push_back new_node Chain
push_back-Represents l vs v room ([], is, e) =
    let h = l.heap in
    let n = node v 0 in
    let a = suc (length h) in
    let below = count_full-le-length h in
    let empty : (l.length_ == 0) ≡ true = ground (arith, is.count) in
    let new_chain : Chain (h ++ some n ∷ []) ((a, v) ∷ []) =
      (ground (arith, cell-append a n h), refl, tt) in
    (
      record { head = a; length_ = (l.length_ + 1) % 2 ^ 64; heap = h ++ some n ∷ [] },
      rw empty,
      (
        (a, v) ∷ [],
        record {
          head = refl;
          chain = new_chain;
          all = omega (arith, count_full-append h n, is.all);
          count = omega (arith, is.count, is.all);
        },
        ap (λ ws. ws ++ v ∷ []) e,
      ),
      omega (arith, length-append h (some n ∷ [])),
    )
push_back-Represents l vs v room ((b, u) ∷ xs, is, e) =
    let h = l.heap in
    let n = node v 0 in
    let a = suc (length h) in
    let g = h ++ some n ∷ [] in
    let grown = length-append h (some n ∷ []) in
    let below = count_full-le-length h in
    let some_node : (l.length_ == 0) ≡ false = ground (arith, is.count) in
    let old = frame-append h ((b, u) ∷ xs) n is.chain in
    let there = last_node_lem g b u xs (length g) old (omega (arith, is.all, grown)) in
    let fresh : cell a g ≡ some n = ground (arith, cell-append a n h) in
    let linked = link g a v b u xs fresh (has_next h ((b, u) ∷ xs) is.chain) old in
    (
      record { head = l.head; length_ = (l.length_ + 1) % 2 ^ 64; heap = linked.heap },
      rw (some_node, is.head, there, linked.stored) refl,
      (
        (b, u) ∷ xs ++ (a, v) ∷ [],
        record {
          head = is.head;
          chain = linked.chain;
          all =
              omega
                (arith, linked.full, count_full-append h n, is.all, length-append xs ((a, v) ∷ []));
          count = omega (arith, is.count, is.all, length-append xs ((a, v) ∷ []));
        },
        values-append ((b, u) ∷ xs) a v ∙ ap (λ ws. ws ++ v ∷ []) e,
      ),
      omega (arith, linked.cells, grown),
    )
