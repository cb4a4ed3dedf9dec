-- ===== src/LinkedList/Removes.antt =====
-- ll_pop_front, ll_remove and ll_free of structs.c on chains.
use syseng.Base.{
  ℕ, zero, suc, ◌+◌, ◌^◌, ◌≤◌, ◌<◌, ◌≡◌, refl, ap, ◌∙◌, Bool, true, false, Option, none, some, List,
  [], ◌∷◌, length, ◌==◌, if◌then◌else◌, ◌>>=◌, arith, cell, put_cell, cell-put_cell, count_full,
  count_full-put_cell, count_full-le-length, length-put_cell, inl, inr, Bool-cases, subst,
}
use syseng.Base.Int.{ℤ, eqb_ℤ}
use syseng.LinkedList.{
  node, Heap, LinkedList, decremented, set_next, free, remove_loop, free_loop, ll_pop_front,
  ll_remove, ll_free,
}
use syseng.LinkedList.Chain.{Nodes, first, values, has, Chain, IsList, Represents, frame-put_cell}
use syseng.LinkedList.Reads.{not_null}
use syseng.LinkedList.Spec.{member, erase}

-- The list without its first node, which is freed.
drop_first :
    (l : LinkedList) (a : ℕ) (v : ℤ) (xs : Nodes)
    → length l.heap < 2 ^ 64
    → IsList l ((a, v) ∷ xs)
    → IsList
        (record { head = first xs; length_ = decremented l.length_; heap = put_cell a none l.heap })
        xs
unfolding Chain
drop_first l a v xs room is =
    let c = is.chain in
    record {
      head = refl;
      chain = frame-put_cell l.heap xs a none c.0 c.1 c.2;
      all = omega (arith, count_full-put_cell l.heap a none c.0, is.all);
      count = omega (arith, is.count, is.all, count_full-le-length l.heap);
    }

pub pop_front-Represents :
    (l : LinkedList) (v : ℤ) (vs : List ℤ)
    → length l.heap < 2 ^ 64
    → Represents l (v ∷ vs)
    → (l' : LinkedList) × (ll_pop_front l ≡ some (v, l'))
      × Represents l' vs
      × (length l'.heap ≡ length l.heap)
unfolding ll_pop_front free Chain
pop_front-Represents l v vs room ([], is, e) = absurd (cc)
pop_front-Represents l v vs room ((a, u) ∷ xs, is, e) =
    let c = is.chain in
    let same : u ≡ v = ground arith in
    let rest : values xs ≡ vs = ground arith in
    (
      record { head = first xs; length_ = decremented l.length_; heap = put_cell a none l.heap },
      rw (is.head, c.0, same) refl,
      (xs, drop_first l a u xs room is, rest),
      length-put_cell l.heap a none,
    )

pub pop_front_empty : (l : LinkedList) → Represents l [] → ll_pop_front l ≡ none
unfolding ll_pop_front
pop_front_empty l ([], is, e) = rw is.head refl
pop_front_empty l ((a, u) ∷ xs, is, e) = absurd (cc)

free_loop_lem :
    (h : Heap) (xs : Nodes) (rounds : ℕ)
    → Chain h xs
    → length xs ≤ rounds
    → (g : Heap) × (free_loop rounds (first xs) h ≡ some g)
      × (count_full g + length xs ≡ count_full h)
      × (length g ≡ length h)
unfolding free_loop free Chain
free_loop_lem h [] zero c enough = (h, refl, omega arith, refl)
free_loop_lem h [] (suc rounds) c enough = (h, refl, omega arith, refl)
free_loop_lem h ((a, v) ∷ xs) zero c enough = absurd (omega arith)
free_loop_lem h ((a, v) ∷ xs) (suc rounds) c enough =
    let (g, runs, gone, cells) =
      free_loop_lem (put_cell a none h) xs rounds (frame-put_cell h xs a none c.0 c.1 c.2)
        (omega arith) in
    (
      g,
      rw (not_null h a c.0, c.0) runs,
      omega (arith, gone, count_full-put_cell h a none c.0),
      cells ∙ length-put_cell h a none,
    )

-- After ll_free no cell of the heap is full.
pub free-Represents :
    (l : LinkedList) (vs : List ℤ)
    → Represents l vs
    → (l' : LinkedList) × (ll_free l ≡ some l')
      × Represents l' []
      × (length l'.heap ≡ length l.heap)
unfolding ll_free Chain
free-Represents l vs (xs, is, e) =
    let (g, runs, gone, cells) =
      free_loop_lem l.heap xs (length l.heap) is.chain
        (omega (arith, is.all, count_full-le-length l.heap)) in
    (
      record { head = 0; length_ = 0; heap = g },
      rw (is.head, runs) refl,
      (
        [],
        record { head = refl; chain = tt; all = omega (arith, gone, is.all); count = refl },
        refl,
      ),
      cells,
    )

-- The outcome of the loop of ll_remove from a node (p, u) on, with the nodes xs behind it.
record Scan (h : Heap) (v : ℤ) (p : ℕ) (u : ℤ) (xs : Nodes) (result : Option (Bool × Heap))
    : Type 0 where
  heap : Heap
  left : Nodes
  returns : result ≡ some (member v (values xs), heap)
  chain : Chain heap ((p, u) ∷ left)
  erased : values left ≡ erase v (values xs)
  shorter : length left + (if member v (values xs) then 1 else 0) ≡ length xs
  full : count_full heap + length xs ≡ count_full h + length left
  cells : length heap ≡ length h
  within : (b : ℕ) → has b xs ≡ false → has b left ≡ false
  same : (b : ℕ) → has b ((p, u) ∷ xs) ≡ false → cell b heap ≡ cell b h

-- The node (a, w) behind (p, u) holds the value, and is taken out.
unlink-Scan :
    (h : Heap) (v : ℤ) (p : ℕ) (u : ℤ) (a : ℕ) (w : ℤ) (xs : Nodes)
    → Chain h ((p, u) ∷ (a, w) ∷ xs)
    → eqb_ℤ w v ≡ true
    → Scan h v p u
        ((a, w) ∷ xs)
        (do h' ← set_next p (first xs) h; h'' ← free a h'; some (true, h''))
unfolding set_next free Chain member erase
unlink-Scan h v p u a w xs c hit =
    let n = node u (first xs) in
    let h' = put_cell p (some n) h in
    let tail = c.2 in
    let still : cell a h' ≡ some (node w (first xs)) =
      ground (arith, cell-put_cell a p (some n) h c.0) in
    let now : cell p (put_cell a none h') ≡ some n =
      ground (arith, cell-put_cell p p (some n) h c.0, cell-put_cell p a none h' still) in
    let apart : has p xs ≡ false = ground arith in
    let kept : Chain h' xs = frame-put_cell h xs p (some n) c.0 apart tail.2 in
    record {
      heap = put_cell a none h';
      left = xs;
      returns = rw (c.0, still, hit);
      chain = (now, apart, frame-put_cell h' xs a none still tail.1 kept);
      erased = rw hit;
      shorter = ground arith;
      full =
          omega (arith, count_full-put_cell h p (some n) c.0, count_full-put_cell h' a none still);
      cells = length-put_cell h' a none ∙ length-put_cell h p (some n);
      within = λ b i. ground arith;
      same =
          λ b i. ground (arith, cell-put_cell b p (some n) h c.0, cell-put_cell b a none h' still);
    }

-- The node (a, w) behind (p, u) holds another value.
Scan-cons :
    (h : Heap) (v : ℤ) (p : ℕ) (u : ℤ) (a : ℕ) (w : ℤ) (xs : Nodes) (result : Option (Bool × Heap))
    → Chain h ((p, u) ∷ (a, w) ∷ xs)
    → eqb_ℤ w v ≡ false
    → Scan h v a w xs result
    → Scan h v p u ((a, w) ∷ xs) result
unfolding Chain member erase
Scan-cons h v p u a w xs result c miss rest =
    let kept : cell p rest.heap ≡ some (node u a) = ground (arith, rest.same p) in
    let apart : has p rest.left ≡ false = ground (arith, rest.within p) in
    record {
      heap = rest.heap;
      left = (a, w) ∷ rest.left;
      returns = ground (arith, rest.returns);
      chain = (kept, ground arith, rest.chain);
      erased = rw miss (ap (λ ws. w ∷ ws) rest.erased);
      shorter = ground (arith, rest.shorter);
      full = omega (arith, rest.full);
      cells = rest.cells;
      within = λ b i. ground (arith, rest.within b);
      same = λ b i. rest.same b (ground arith);
    }

remove_loop_lem :
    (h : Heap) (v : ℤ) (p : ℕ) (u : ℤ) (xs : Nodes) (rounds : ℕ)
    → Chain h ((p, u) ∷ xs)
    → length xs ≤ rounds
    → Scan h v p u xs (remove_loop rounds v p (first xs) h)
unfolding remove_loop set_next free Chain member erase
remove_loop_lem h v p u [] zero c enough = record {
  heap = h;
  left = [];
  returns = refl;
  chain = c;
  erased = refl;
  shorter = refl;
  full = refl;
  cells = refl;
  within = λ b i. refl;
  same = λ b i. refl;
}
remove_loop_lem h v p u [] (suc rounds) c enough = record {
  heap = h;
  left = [];
  returns = refl;
  chain = c;
  erased = refl;
  shorter = refl;
  full = refl;
  cells = refl;
  within = λ b i. refl;
  same = λ b i. refl;
}
remove_loop_lem h v p u ((a, w) ∷ xs) zero c enough = absurd (omega arith)
remove_loop_lem h v p u ((a, w) ∷ xs) (suc rounds) c enough =
    let tail = c.2 in
    rw (not_null h a tail.0, tail.0)
      (elim (Bool-cases (eqb_ℤ w v)) [
        | inl hit ↦ rw hit (unlink-Scan h v p u a w xs c hit)
        | inr miss ↦ rw miss (
            Scan-cons h v p u a w xs (remove_loop rounds v a (first xs) h) c miss
              (remove_loop_lem h v a w xs rounds tail (omega arith)))
      ])

count_left :
    (found : Bool) (count n left cells : ℕ)
    → count ≡ suc n
    → left + (if found then 1 else 0) ≡ n
    → suc n ≤ cells
    → cells < 2 ^ 64
    → (if found then decremented count else count) ≡ suc left
count_left true count n left cells c s le room = omega arith
count_left false count n left cells c s le room = omega arith

abbrev Removed : LinkedList → ℤ → List ℤ → Type 0
Removed l v vs =
    (l' : LinkedList) × (ll_remove v l ≡ some (member v vs, l'))
    × Represents l' (erase v vs)
    × (length l'.heap ≡ length l.heap)

remove-IsList :
    (l : LinkedList) (v : ℤ) (xs : Nodes)
    → length l.heap < 2 ^ 64
    → IsList l xs
    → Removed l v (values xs)
unfolding ll_remove free Chain member erase
remove-IsList l v [] room is =
    let empty : (l.length_ == 0) ≡ true = ground (arith, is.count) in
    (l, rw empty, ([], is, refl), refl)
remove-IsList l v ((a, w) ∷ xs) room is =
    let c = is.chain in
    let more : (l.length_ == 0) ≡ false = ground (arith, is.count) in
    let scan =
      remove_loop_lem l.heap v a w xs (length l.heap) c
        (omega (arith, is.all, count_full-le-length l.heap)) in
    elim (Bool-cases (eqb_ℤ w v)) [
      | inl hit ↦ (
        record { head = first xs; length_ = decremented l.length_; heap = put_cell a none l.heap },
        rw (more, is.head, c.0, hit) refl,
        (xs, drop_first l a w xs room is, rw hit refl),
        length-put_cell l.heap a none,
      )
      | inr miss ↦ (
        record {
          head = a;
          length_ = if member v (values xs) then decremented l.length_ else l.length_;
          heap = scan.heap;
        },
        rw (more, is.head, c.0, miss, scan.returns) refl,
        (
          (a, w) ∷ scan.left,
          record {
            head = refl;
            chain = scan.chain;
            all = omega (arith, scan.full, is.all);
            count =
                count_left (member v (values xs)) l.length_ (length xs) (length scan.left)
                  (length l.heap) is.count scan.shorter
                  (omega (arith, is.all, count_full-le-length l.heap)) room;
          },
          rw miss (ap (λ ws. w ∷ ws) scan.erased),
        ),
        scan.cells,
      )
    ]

pub remove-Represents :
    (l : LinkedList) (v : ℤ) (vs : List ℤ)
    → length l.heap < 2 ^ 64
    → Represents l vs
    → (l' : LinkedList) × (ll_remove v l ≡ some (member v vs, l'))
      × Represents l' (erase v vs)
      × (length l'.heap ≡ length l.heap)
remove-Represents l v vs room (xs, is, e) =
    subst (λ ws. Removed l v ws) e (remove-IsList l v xs room is)
