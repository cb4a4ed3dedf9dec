-- ===== src/LinkedList/Chain.antt =====
-- Chains of nodes: the representation of a list of values in the heap of structs.c.
use syseng.Base.{
  ℕ, zero, suc, ◌≡◌, refl, Bool, true, false, ◌||◌, Option, none, some, List, [], ◌∷◌, ◌++◌, length,
  ◌==◌, arith, ap, get_elem?-ge, cell, put_cell, cell-put_cell, cell-append, count_full,
}
use syseng.Base.Int.{ℤ}
use syseng.LinkedList.{Node, node, Heap, LinkedList}

-- Address and value of each node, in order.
abbrev pub Nodes : Type 0
Nodes = List (ℕ × ℤ)

abbrev pub first : Nodes → ℕ
first [] = 0
first ((a, v) ∷ xs) = a

abbrev pub values : Nodes → List ℤ
values [] = []
values ((a, v) ∷ xs) = v ∷ values xs

abbrev pub has : ℕ → Nodes → Bool
has b [] = false
has b ((a, v) ∷ xs) = (a == b) || has b xs

-- From the first node the fields `next` lead through distinct nodes to NULL.
unfoldable pub Chain : Heap → Nodes → Type 0
Chain h [] = Unit
Chain h ((a, v) ∷ xs) = (cell a h ≡ some (node v (first xs))) × (has a xs ≡ false) × Chain h xs

pub record IsList (l : LinkedList) (xs : Nodes) : Type 0 where
  pub head : l.head ≡ first xs
  pub chain : Chain l.heap xs
  -- Every full cell of the heap is a node of the list.
  pub all : count_full l.heap ≡ length xs
  pub count : l.length_ ≡ length xs

-- The list stands for these values.
abbrev pub Represents : LinkedList → List ℤ → Type 0
Represents l vs = (xs : Nodes) × IsList l xs × (values xs ≡ vs)

length-values : (xs : Nodes) → length (values xs) ≡ length xs
length-values [] = refl
length-values (x ∷ xs) = omega (arith, length-values xs)

-- A node of a chain is not NULL, and a full cell.
has-zero : (h : Heap) (xs : Nodes) → Chain h xs → has 0 xs ≡ false
unfolding Chain
has-zero h [] c = refl
has-zero h ((zero, v) ∷ xs) c = absurd (cc)
has-zero h ((suc a, v) ∷ xs) c = ground (arith, has-zero h xs c.2)

pub has-cell : (h : Heap) (xs : Nodes) (b : ℕ) → Chain h xs → cell b h ≡ none → has b xs ≡ false
unfolding Chain
has-cell h [] b c e = refl
has-cell h ((a, v) ∷ xs) b c e = ground (arith, has-cell h xs b c.2 e)

-- A change of a cell outside leaves a chain.
pub frame :
    (h g : Heap) (xs : Nodes)
    → ((a : ℕ) → has a xs ≡ true → cell a g ≡ cell a h)
    → Chain h xs
    → Chain g xs
unfolding Chain
frame h g [] same c = tt
frame h g ((a, v) ∷ xs) same c =
    (ground (arith, same a), c.1, frame h g xs (λ b i. same b (ground arith)) c.2)

equal_has : (xs : Nodes) (a b : ℕ) → a ≡ b → has a xs ≡ has b xs
equal_has xs a b e = ap (λ c. has c xs) e

pub frame-append : (h : Heap) (xs : Nodes) (n : Node) → Chain h xs → Chain (h ++ some n ∷ []) xs
frame-append h xs n c =
    frame h (h ++ some n ∷ []) xs
      (λ a i. ground (
        arith,
        cell-append a n h,
        equal_has xs a (suc (length h)),
        has-cell h xs (suc (length h)) c,
        get_elem?-ge h (length h),
      ))
      c

pub frame-put_cell :
    (h : Heap) (xs : Nodes) (b : ℕ) (o : Option Node) {n : Node}
    → cell b h ≡ some n
    → has b xs ≡ false
    → Chain h xs
    → Chain (put_cell b o h) xs
frame-put_cell h xs b o e out c =
    frame h (put_cell b o h) xs (λ a i. ground (arith, cell-put_cell a b o h e, equal_has xs a b)) c
